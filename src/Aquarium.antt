-- ===== src/Aquarium.antt =====
-- state.c of the controller: the aquarium, its views and its fishes. An array is the list of the
-- cells in use, and the capacity that was allocated; a string is the list of its bytes.
pub mod Tables
pub mod Views
pub mod Fishes
pub mod Protocol
pub mod Text
pub mod Commands
pub mod Config
mod Tests
use my_enseirb_matmeca_proje.Base.{
  ℕ, zero, suc, ◌+◌, ◌*◌, ◌%◌, Bool, true, false, not, ◌&&◌, ◌||◌, ◌==◌, if◌then◌else◌, List, [],
  ◌∷◌, length, Option, none, some, ◌++◌,
}
use my_enseirb_matmeca_proje.Base.Int.{ℤ, pos, negsuc, leb_ℤ, eqb_ℤ, ◌+ℤ◌}

abbrev pub String : Type 0
String = List ℕ

-- `strcmp(a, b) == 0`.
unfoldable pub str_eq : String → String → Bool
str_eq [] [] = true
str_eq (a ∷ s) (b ∷ t) = a == b && str_eq s t
str_eq s t = false

pub record View : Type 0 where
  pub id : String
  pub x : ℤ
  pub y : ℤ
  pub width : ℤ
  pub height : ℤ
  pub fd_socket : ℤ
  pub last_ping_timestamp : ℤ

pub record Fish : Type 0 where
  pub name : String
  pub old_x : ℤ
  pub old_y : ℤ
  pub x : ℤ
  pub y : ℤ
  pub width : ℤ
  pub height : ℤ
  pub strategy : String
  pub started : Bool

-- `width` and `height` are positive.
pub record Aquarium : Type 0 where
  pub width : ℕ
  pub height : ℕ
  pub views : List View
  pub views_size : ℕ
  pub fishes : List Fish
  pub fishes_size : ℕ

unfoldable pub init_aquarium : ℕ → ℕ → Aquarium
init_aquarium width height = record {
  width = width;
  height = height;
  views = [];
  views_size = 10;
  fishes = [];
  fishes_size = 20;
}

-- The loops over an array: for the first element that passes a test, or for all that do.
module _ {ℓ} {A : Type ℓ} (test : A → Bool) where
  unfoldable pub find_first : List A → Option A
  find_first [] = none
  find_first (a ∷ xs) = if test a then some a else find_first xs

  unfoldable pub any : List A → Bool
  any [] = false
  any (a ∷ xs) = if test a then true else any xs

  unfoldable pub modify_first : (A → A) → List A → List A
  modify_first f [] = []
  modify_first f (a ∷ xs) = if test a then f a ∷ xs else a ∷ modify_first f xs

  unfoldable pub modify_all : (A → A) → List A → List A
  modify_all f [] = []
  modify_all f (a ∷ xs) = (if test a then f a else a) ∷ modify_all f xs

-- `last a xs` is the last element of `a ∷ xs`, and `init a xs` the others.
unfoldable pub last {ℓ} : {A : Type ℓ} → A → List A → A
last a [] = a
last a (b ∷ xs) = last b xs

unfoldable pub init {ℓ} : {A : Type ℓ} → A → List A → List A
init a [] = []
init a (b ∷ xs) = a ∷ init b xs

-- What stands from a place on, when its element is overwritten by the last one and dropped.
unfoldable pub last_first {ℓ} : {A : Type ℓ} → List A → List A
unfolding last init
last_first [] = []
last_first (a ∷ xs) = last a xs ∷ init a xs

-- `t[i] = t[--n]` for the first `i` that passes the test.
unfoldable pub remove_first {ℓ} : {A : Type ℓ} → (A → Bool) → List A → List A
unfolding last_first
remove_first test [] = []
remove_first test (a ∷ xs) = if test a then last_first xs else a ∷ remove_first test xs

-- The capacity when one more element is added to `n`.
abbrev pub grow : ℕ → ℕ → ℕ
grow n size = if n + 1 == size then size * 2 else size
