-- ===== src/Kitty/Board.antt =====
-- board.c: cells of the board, a torus of 50 by 50, and the search for the cells that an entity
-- can reach. The board is a function of the two coordinates.
pub mod Cells
pub mod Search
pub mod Reach
pub mod Distance
pub mod Nearest
use my_enseirb_matmeca_proje.Base.{
  ℕ, zero, suc, ◌+◌, ◌-◌, Bool, true, false, List, [], ◌∷◌, ◌++◌, not, ◌&&◌, ◌||◌, ltb, leb, length,
  get_or, Option, none, some, if◌then◌else◌,
}
use my_enseirb_matmeca_proje.Kitty.Random.{Rng, randint}
use my_enseirb_matmeca_proje.Base.Int.{ℤ, pos, negsuc, ◌+ℤ◌, ◌-ℤ◌, ltb_ℤ, leb_ℤ, eqb_ℤ}

abbrev pub board_size : ℕ
board_size = 50

abbrev pub player_move_range : ℕ
player_move_range = 5

abbrev pub friend_move_range : ℕ
friend_move_range = 2

-- `struct cell`.
pub record Cell : Type 0 where
  pub x : ℤ
  pub y : ℤ

-- The field `board` of `struct game_data`: whether a cell is taken.
abbrev pub Board : Type 0
Board = ℤ → ℤ → Bool

-- `mod` of utils.c: the new value of `*a`.
unfoldable pub mod_into : ℤ → ℕ → ℤ
mod_into a b =
    let a' = (if leb_ℤ (pos b) a then a -ℤ pos b else a) in
    if ltb_ℤ a' (pos 0) then a' +ℤ pos b else a'

abbrev pub cell_eq : Cell → Cell → Bool
cell_eq c d = eqb_ℤ c.x d.x && eqb_ℤ c.y d.y

-- `in` of board.c.
pub in_cells : Cell → List Cell → Bool
in_cells c [] = false
in_cells c (d ∷ cells) = cell_eq d c || in_cells c cells

unfoldable pub shift_x : ℤ → Cell → Cell
unfolding mod_into
shift_x way c = record c { x = mod_into (c.x +ℤ way) board_size }

unfoldable pub shift_y : ℤ → Cell → Cell
unfolding mod_into
shift_y way c = record c { y = mod_into (c.y +ℤ way) board_size }

-- The cells that the loops over `way` and `coor` look at, in their order.
unfoldable pub neighbours : Cell → List Cell
unfolding shift_x shift_y
neighbours c =
    shift_x (negsuc 0) c ∷ shift_y (negsuc 0) c ∷ shift_x (pos 1) c ∷ shift_y (pos 1) c ∷ []

-- `ending_cells` and `cells`, each with its count.
abbrev pub Found : Type 0
Found = List Cell × List Cell

pub try_cell : Board → Cell → Found → Found
unfolding in_cells
try_cell board c (ending, cells) =
    if not (in_cells c cells) && not (board c.x c.y)
    then (ending ++ c ∷ [], cells ++ c ∷ [])
    else (ending, cells)

pub try_cells : Board → List Cell → Found → Found
unfolding try_cell
try_cells board [] f = f
try_cells board (c ∷ cs) f = try_cells board cs (try_cell board c f)

-- The loop over `starting_cells`.
pub scan : Board → List Cell → Found → Found
unfolding try_cells neighbours
scan board [] f = f
scan board (s ∷ starting) f = scan board starting (try_cells board (neighbours s) f)

-- The cells that `cells` holds at the end.
unfoldable pub find_reachable_cells : ℕ → List Cell → List Cell → Board → List Cell
unfolding scan
find_reachable_cells zero starting cells board = cells
find_reachable_cells (suc range) starting cells board =
    let (ending, cells') = scan board starting ([], cells) in
    find_reachable_cells range ending cells' board

-- `min` of utils.c.
abbrev pub min_ℤ : ℤ → ℤ → ℤ
min_ℤ a b = if ltb_ℤ a b then a else b

-- The last line of `one_axe_distance`.
unfoldable pub ordered_distance : ℤ → ℤ → ℤ
ordered_distance a b = min_ℤ (b -ℤ a) (pos 50 -ℤ b +ℤ a)

-- The call with the arguments swapped is made at most once.
unfoldable pub one_axe_distance : ℤ → ℤ → ℤ
unfolding ordered_distance
one_axe_distance a b = if ltb_ℤ b a then ordered_distance b a else ordered_distance a b

unfoldable pub distance : Cell → Cell → ℤ
distance c d = one_axe_distance c.x d.x +ℤ one_axe_distance c.y d.y

-- The loop of `choose_friend_move` over the cells from index `i` on. An index of -1 is `none`.
pub nearest : Cell → List Cell → ℕ → ℤ → Option ℕ → Option ℕ
nearest target [] i least best = best
nearest target (c ∷ cells) i least best =
    let d = distance c target in
    if ltb_ℤ d least
    then nearest target cells (i + 1) d (some i)
    else nearest target cells (i + 1) least best

-- What a move out of the board stands for: an entity that cannot move.
abbrev pub nowhere : Cell
nowhere = record { x = negsuc 0; y = negsuc 0 }

-- `*x` and `*y` for the index chosen. With no index the C program would read `cells[-1]`.
pub chosen : List Cell → Option ℕ → Cell
chosen cells none = nowhere
chosen cells (some i) = get_or cells i nowhere

pub pick_nearest : Cell → List Cell → Cell
unfolding nearest chosen
pick_nearest target [] = nowhere
pick_nearest target (c ∷ cells) =
    chosen (c ∷ cells) (nearest target (c ∷ cells) 0 (pos (board_size + 1)) none)

-- The arguments are the places of the entity and of its target.
unfoldable pub choose_friend_move : Cell → Cell → Board → Cell
unfolding pick_nearest
choose_friend_move place target board =
    pick_nearest target (find_reachable_cells friend_move_range (place ∷ []) [] board)

pub pick_random : List Cell → Rng → Cell × Rng
pick_random [] r = (nowhere, r)
pick_random (c ∷ cells) r =
    let (i, r') = randint 0 (length (c ∷ cells)) r in (get_or (c ∷ cells) i nowhere, r')

unfoldable pub choose_random_move : Cell → Board → Rng → Cell × Rng
unfolding pick_random
choose_random_move place board r =
    pick_random (find_reachable_cells player_move_range (place ∷ []) [] board) r
