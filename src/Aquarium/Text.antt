-- ===== src/Aquarium/Text.antt =====
-- Texts of the controller: numbers in decimal, the lines of a file, and the regular expressions that
-- utils.c has the C library match. A text is the list of its bytes.
pub mod Numbers
pub mod Lines
pub mod Patterns
use my_enseirb_matmeca_proje.Base.{
  ℕ, zero, suc, ◌+◌, ◌-◌, ◌*◌, ◌/◌, ◌%◌, Bool, true, false, ◌&&◌, ◌||◌, ◌==◌, ◌>>=◌, ltb, leb,
  if◌then◌else◌, List, [], ◌∷◌, ◌++◌, length, Option, none, some,
}
use my_enseirb_matmeca_proje.Base.Int.{ℤ, pos, negsuc}
use my_enseirb_matmeca_proje.Aquarium.{String}

abbrev pub newline : ℕ
newline = 10

abbrev pub line : String → String
line s = s ++ (newline ∷ [])

abbrev pub is_digit : ℕ → Bool
is_digit c = leb 48 c && leb c 57

-- The digits of `n`, the most significant one first; `fuel` is greater than `n`.
unfoldable pub digits : ℕ → ℕ → String
digits zero n = []
digits (suc fuel) n = elim (ltb n 10) [
  | true ↦ (48 + n) ∷ []
  | false ↦ digits fuel (n / 10) ++ ((48 + n % 10) ∷ [])
]

-- `printf` with `%d`.
abbrev pub decimal : ℕ → String
decimal n = digits (suc n) n

abbrev pub print_int : ℤ → String
print_int (pos n) = decimal n
print_int (negsuc n) = 45 ∷ decimal (suc n)

-- `atoi` of a text that begins with a digit, when the number is an `int`.
unfoldable pub value_from : ℕ → String → ℕ
value_from n [] = n
value_from n (c ∷ s) = if is_digit c then value_from (n * 10 + (c - 48)) s else n

abbrev pub atoi : String → ℕ
atoi s = value_from 0 s

-- `fgets` with room for `k` characters and the final zero: the line with its newline, and the rest.
unfoldable pub fgets : ℕ → String → String × String
fgets zero s = ([], s)
fgets (suc k) [] = ([], [])
fgets (suc k) (c ∷ s) =
    let (line, rest) = fgets k s in if c == newline then (c ∷ [], s) else (c ∷ line, rest)

-- The lines that a loop with a buffer of 200 bytes reads; `fuel` is at least the length.
unfoldable pub lines : ℕ → String → List String
unfolding fgets
lines zero s = []
lines (suc fuel) [] = []
lines (suc fuel) (c ∷ s) = let (line, rest) = fgets 199 (c ∷ s) in line ∷ lines fuel rest

-- Whether every run of digits in a text has at most nine, of which `k` stand before it. Such a number
-- is an `int`, and fits in the 50 bytes that `regex_match` has for a parameter.
unfoldable pub short_from : ℕ → String → Bool
short_from k [] = true
short_from k (c ∷ s) = if is_digit c then ltb k 9 && short_from (suc k) s else short_from 0 s

abbrev pub short_numbers : String → Bool
short_numbers s = short_from 0 s

-- What an expression is made of: a character, digits, at least `lo` and at most `hi`, or one
-- character that is a digit or a given one.
pub data Atom : Type 0 where
  char : ℕ → Atom
  digit : ℕ → Option ℕ → Atom
  digit_or : ℕ → Atom

-- A part in parentheses is copied to the parameters.
pub data Part : Type 0 where
  plain : Atom → Part
  group : List Atom → Part

unfoldable pub digits_upto : ℕ → String → String × String
digits_upto zero s = ([], s)
digits_upto (suc k) [] = ([], [])
digits_upto (suc k) (c ∷ s) =
    let (found, rest) = digits_upto k s in if is_digit c then (c ∷ found, rest) else ([], c ∷ s)

abbrev pub limit : Option ℕ → String → ℕ
limit none s = length s
limit (some hi) s = hi

-- What an atom matches at the beginning of a text, as long as can be, and the rest.
unfoldable pub match_atom : Atom → String → Option (String × String)
unfolding digits_upto
match_atom (char c) [] = none
match_atom (char c) (d ∷ s) = if d == c then some (d ∷ [], s) else none
match_atom (digit_or c) [] = none
match_atom (digit_or c) (d ∷ s) = if is_digit d || d == c then some (d ∷ [], s) else none
match_atom (digit lo hi) s =
    let (found, rest) = digits_upto (limit hi s) s in
    if leb lo (length found) then some (found, rest) else none

unfoldable pub match_atoms : List Atom → String → Option (String × String)
unfolding match_atom
match_atoms [] s = some ([], s)
match_atoms (a ∷ atoms) s = do
  (one, rest) ← match_atom a s
  (more, left) ← match_atoms atoms rest
  some (one ++ more, left)

-- `regex_match` with an expression that begins with `^`: the parameters. In the expressions of the
-- sources a character that is no digit, or the end, follows what repeats a digit, so that taking
-- all that can be taken is the match that POSIX asks for. A parameter is copied to 50 bytes with
-- `sprintf`: what happens when it is longer is not modelled.
unfoldable pub regex_match : List Part → String → Option (List String)
unfolding match_atom match_atoms
regex_match [] s = some []
regex_match (plain a ∷ ps) s = do (one, rest) ← match_atom a s; regex_match ps rest
regex_match (group atoms ∷ ps) s = do
  (one, rest) ← match_atoms atoms s
  params ← regex_match ps rest
  some (one ∷ params)
