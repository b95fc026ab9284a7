-- ===== src/Aquarium/Text/Lines.antt =====
-- The lines of a text that was written line by line.
use my_enseirb_matmeca_proje.Base.{
  ℕ, zero, suc, ◌≤◌, ◌<◌, ◌≡◌, inl, inr, Bool-cases, ◌+◌, refl, ap, ◌∙◌, Bool, true, false, not,
  ◌&&◌, ◌==◌, List, [], ◌∷◌, ◌++◌, length, length-append, arith,
}
use my_enseirb_matmeca_proje.Aquarium.{String}
use my_enseirb_matmeca_proje.Aquarium.Text.{newline, line, fgets, lines}
use my_enseirb_matmeca_proje.Aquarium.Text.Numbers.{all_digits}

abbrev pub one_line : String → Bool
one_line [] = true
one_line (c ∷ s) = not (c == newline) && one_line s

pub one_line-append : (s t : String) → one_line (s ++ t) ≡ one_line s && one_line t
one_line-append [] t = refl
one_line-append (c ∷ s) t = ground (arith, one_line-append s t)

pub one_line-digits : (s : String) → all_digits s ≡ true → one_line s ≡ true
one_line-digits [] h = refl
one_line-digits (c ∷ s) h = ground (arith, one_line-digits s)

-- The texts, a line for each.
unfoldable pub text : List String → String
text [] = []
text (s ∷ ss) = line s ++ text ss

-- A line that fits in the buffer.
pub record IsLine (s : String) : Type 0 where
  pub whole : one_line s ≡ true
  pub short : length s < 199

pub data AllLines : List String → Type 0 where
  end : AllLines []
  next : (s : String) (ss : List String) → IsLine s → AllLines ss → AllLines (s ∷ ss)

fgets-line :
    (k : ℕ) (s t : String) → one_line s ≡ true → length s < k → fgets k (line s ++ t) ≡ (line s, t)
unfolding fgets
fgets-line zero s t h l = absurd (omega arith)
fgets-line (suc k) [] t h l = refl
fgets-line (suc k) (c ∷ s) t h l =
    let no : (c == newline) ≡ false = ground arith in
    rw (fgets, no, fgets-line k s t (ground arith) (omega arith)) refl

lines-line :
    (fuel : ℕ) (s t : String) → IsLine s → lines (suc fuel) (line s ++ t) ≡ line s ∷ lines fuel t
unfolding lines fgets
lines-line fuel [] t h = refl
lines-line fuel (c ∷ s) t h = rw (lines, fgets-line 199 (c ∷ s) t h.whole h.short) refl

abbrev pub all_lines : List String → List String
all_lines [] = []
all_lines (s ∷ ss) = line s ∷ all_lines ss

-- What was written line by line is read line by line.
pub lines-text :
    (fuel : ℕ) (ss : List String)
    → AllLines ss
    → length (text ss) ≤ fuel
    → lines fuel (text ss) ≡ all_lines ss
unfolding lines text
lines-text zero [] a h = refl
lines-text (suc fuel) [] a h = refl
lines-text zero (s ∷ ss) a h =
    absurd (omega (arith, length-append (line s) (text ss), length-append s (newline ∷ [])))
lines-text (suc fuel) (s ∷ ss) (next _ _ l a) h =
    lines-line fuel s (text ss) l
    ∙ ap (λ r. line s ∷ r)
        (lines-text fuel ss a
          (omega (arith, length-append (line s) (text ss), length-append s (newline ∷ []))))

-- A line that is read is not empty, and what is read and the rest are the text.
fgets_lem :
    (k : ℕ) (s : String)
    → let (l, rest) = fgets k s in
      (l ++ rest ≡ s) × (length l + length rest ≡ length s) × (0 < k → 0 < length s → 0 < length l)
unfolding fgets
fgets_lem zero s = (refl, omega arith, λ h. absurd (omega arith))
fgets_lem (suc k) [] = (refl, omega arith, λ h p. p)
fgets_lem (suc k) (c ∷ s) =
    let (same, sizes, more) = fgets_lem k s in
    elim (Bool-cases (c == newline)) [
      | inl ends ↦ rw (fgets, ends) (refl, omega arith, λ h p. omega arith)
      | inr goes ↦ rw (fgets, goes) (ap (λ t. c ∷ t) same, omega (arith, sizes), λ h p. omega arith)
    ]

rest_lem :
    (k fuel c : ℕ) (s : String) → 0 < k → length s < suc fuel → length (fgets k (c ∷ s)).1 ≤ fuel
rest_lem k fuel c s h l =
    let (same, sizes, more) = fgets_lem k (c ∷ s) in omega (arith, sizes, more h (omega arith))

abbrev joined : List String → String
joined [] = []
joined (s ∷ ss) = s ++ joined ss

-- The fuel is enough: every byte of the text stands in a line.
pub joined-lines : (fuel : ℕ) (s : String) → length s ≤ fuel → joined (lines fuel s) ≡ s
unfolding lines
joined-lines zero [] h = refl
joined-lines zero (c ∷ s) h = absurd (omega arith)
joined-lines (suc fuel) [] h = refl
joined-lines (suc fuel) (c ∷ s) h =
    ap (λ t. (fgets 199 (c ∷ s)).0 ++ t)
      (joined-lines fuel (fgets 199 (c ∷ s)).1 (rest_lem 199 fuel c s (omega arith) (omega arith)))
    ∙ (fgets_lem 199 (c ∷ s)).0
