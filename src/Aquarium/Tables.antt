-- ===== src/Aquarium/Tables.antt =====
-- The loops of state.c over an array: what they find, and what they leave of it.
pub mod Keys
use my_enseirb_matmeca_proje.Base.{
  ℕ, zero, suc, ◌+◌, ◌-◌, ◌≤◌, ◌<◌, ◌≡◌, refl, ap, ap₂, ◌∙◌, ◌⊎◌, inl, inr, Bool, true, false, ◌&&◌,
  ◌==◌, ltb, if◌then◌else◌, List, [], ◌∷◌, ◌++◌, length, count_if, Option, none, some, Bool-cases,
  arith,
}
use my_enseirb_matmeca_proje.Aquarium.{
  String, str_eq, find_first, any, modify_first, modify_all, last, init, last_first, remove_first,
}

pub str_eq_refl : (s : String) → str_eq s s ≡ true
unfolding str_eq
str_eq_refl [] = refl
str_eq_refl (a ∷ s) = ground (arith, str_eq_refl s)

pub str_eq-eq : (s t : String) → str_eq s t ≡ true → s ≡ t
unfolding str_eq
str_eq-eq [] [] h = refl
str_eq-eq [] (b ∷ t) h = absurd cc
str_eq-eq (a ∷ s) [] h = absurd cc
str_eq-eq (a ∷ s) (b ∷ t) h = ap₂ (λ c u. c ∷ u) (ground arith) (str_eq-eq s t (ground arith))

module _ {ℓ} {A : Type ℓ} (test : A → Bool) where
  pub any-count_if : (xs : List A) → any test xs ≡ ltb 0 (count_if test xs)
  unfolding any
  any-count_if [] = refl
  any-count_if (a ∷ xs) = ground (arith, any-count_if xs)

  -- What an element does to the count of those that pass a test.
  abbrev pub one : (A → Bool) → A → ℕ
  one p a = if p a then 1 else 0

  count_if-last :
      (p : A → Bool) (a : A) (xs : List A)
      → one p (last a xs) + count_if p (init a xs) ≡ one p a + count_if p xs
  unfolding last init
  count_if-last p a [] = refl
  count_if-last p a (b ∷ xs) = omega (arith, count_if-last p b xs)

  length-init : (a : A) (xs : List A) → length (init a xs) ≡ length xs
  unfolding init
  length-init a [] = refl
  length-init a (b ∷ xs) = ap suc (length-init b xs)

  count_if-last_first : (p : A → Bool) (xs : List A) → count_if p (last_first xs) ≡ count_if p xs
  unfolding last_first
  count_if-last_first p [] = refl
  count_if-last_first p (a ∷ xs) = count_if-last p a xs

  length-last_first : (xs : List A) → length (last_first xs) ≡ length xs
  unfolding last_first
  length-last_first [] = refl
  length-last_first (a ∷ xs) = ap suc (length-init a xs)

  -- One element that passes the test is taken out; the others are kept.
  pub remove_first_lem :
      (xs : List A)
      → any test xs ≡ true
      → (a : A) × (test a ≡ true)
        × (length (remove_first test xs) + 1 ≡ length xs)
        × ((p : A → Bool) → count_if p (remove_first test xs) + one p a ≡ count_if p xs)
  unfolding any remove_first
  remove_first_lem [] h = absurd cc
  remove_first_lem (a ∷ xs) h = elim (Bool-cases (test a)) [
    | inl t ↦ (
      a,
      t,
      rw (t, length-last_first xs) (omega arith),
      λ p. rw (t, count_if-last_first p xs) (omega arith),
    )
    | inr f ↦
        let (b, t, l, c) = remove_first_lem xs (rw f at h) in
        (b, t, rw f (omega arith), λ p. rw f (omega (arith, c p)))
  ]

  -- One element that passes the test is changed; the others are kept.
  pub modify_first_lem :
      (f : A → A) (xs : List A)
      → any test xs ≡ true
      → (a : A) × (test a ≡ true)
        × (find_first test xs ≡ some a)
        × (length (modify_first test f xs) ≡ length xs)
        × ((p : A → Bool)
            → count_if p (modify_first test f xs) + one p a ≡ count_if p xs + one p (f a))
  unfolding any modify_first find_first
  modify_first_lem f [] h = absurd cc
  modify_first_lem f (a ∷ xs) h = elim (Bool-cases (test a)) [
    | inl t ↦ (a, t, rw t refl, rw t refl, λ p. rw t (omega arith))
    | inr e ↦
        let (b, t, s, l, c) = modify_first_lem f xs (rw e at h) in
        (b, t, rw e s, rw e (ap suc l), λ p. rw e (omega (arith, c p)))
  ]

  -- What `find_first` may give.
  pub find_first-cases :
      (xs : List A)
      → ((find_first test xs ≡ none) × (any test xs ≡ false))
        ⊎ ((a : A) × (find_first test xs ≡ some a) × (test a ≡ true) × (any test xs ≡ true))
  unfolding any find_first
  find_first-cases [] = inl (refl, refl)
  find_first-cases (a ∷ xs) = elim (Bool-cases (test a)) [
    | inl t ↦ rw t (inr (a, refl, t, refl))
    | inr f ↦ rw f (find_first-cases xs)
  ]

  pub any-imp :
      (other : A → Bool) (xs : List A)
      → ((a : A) → test a ≡ true → other a ≡ true)
      → any test xs ≡ true
      → any other xs ≡ true
  unfolding any
  any-imp other [] h e = e
  any-imp other (a ∷ xs) h e = ground (arith, h a, any-imp other xs h)

  pub length-modify_all : (f : A → A) (xs : List A) → length (modify_all test f xs) ≡ length xs
  unfolding modify_all
  length-modify_all f [] = refl
  length-modify_all f (a ∷ xs) = ap suc (length-modify_all f xs)

  pub count_if-modify_all :
      (f : A → A) (p q : A → Bool)
      → ((a : A) → one p (if test a then f a else a) ≤ one q a)
      → (xs : List A) → count_if p (modify_all test f xs) ≤ count_if q xs
  unfolding modify_all
  count_if-modify_all f p q h [] = omega arith
  count_if-modify_all f p q h (a ∷ xs) = omega (arith, h a, count_if-modify_all f p q h xs)

  pub count_if-modify_all_eq :
      (f : A → A) (p : A → Bool)
      → ((a : A) → p (if test a then f a else a) ≡ p a)
      → (xs : List A) → count_if p (modify_all test f xs) ≡ count_if p xs
  unfolding modify_all
  count_if-modify_all_eq f p h [] = refl
  count_if-modify_all_eq f p h (a ∷ xs) = rw (h a) (omega (arith, count_if-modify_all_eq f p h xs))

  pub any-modify_all :
      (f : A → A) (p : A → Bool)
      → ((a : A) → p (if test a then f a else a) ≡ false)
      → (xs : List A) → any p (modify_all test f xs) ≡ false
  unfolding modify_all any
  any-modify_all f p h [] = refl
  any-modify_all f p h (a ∷ xs) = rw (h a) (any-modify_all f p h xs)

  pub count_if-modify_first :
      (f : A → A) (p : A → Bool)
      → ((a : A) → p (f a) ≡ p a)
      → (xs : List A) → count_if p (modify_first test f xs) ≡ count_if p xs
  unfolding modify_first
  count_if-modify_first f p h [] = refl
  count_if-modify_first f p h (a ∷ xs) = ground (arith, h a, count_if-modify_first f p h xs)

  pub length-modify_first : (f : A → A) (xs : List A) → length (modify_first test f xs) ≡ length xs
  unfolding modify_first
  length-modify_first f [] = refl
  length-modify_first f (a ∷ xs) = ground (arith, length-modify_first f xs)
