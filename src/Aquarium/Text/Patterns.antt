-- ===== src/Aquarium/Text/Patterns.antt =====
-- What `regex_match` finds in a number that is followed by no digit.
use my_enseirb_matmeca_proje.Base.{
  ℕ, zero, suc, ◌+◌, ◌≤◌, ◌≡◌, refl, Bool, true, false, not, leb, List, [], ◌∷◌, ◌++◌, length,
  length-append, Option, none, some, ◌==◌, ◌<◌, append-nil, arith,
}
use my_enseirb_matmeca_proje.Aquarium.{String}
use my_enseirb_matmeca_proje.Aquarium.Text.{
  is_digit, decimal, Part, plain, group, char, digit, digits_upto, limit, match_atom, match_atoms,
  regex_match,
}
use my_enseirb_matmeca_proje.Aquarium.Text.Numbers.{all_digits, digits-all_digits, digits-length}

abbrev pub stops : String → Bool
stops [] = true
stops (c ∷ s) = not (is_digit c)

digits_upto-append :
    (s t : String) (k : ℕ)
    → all_digits s ≡ true
    → stops t ≡ true
    → length s ≤ k
    → digits_upto k (s ++ t) ≡ (s, t)
unfolding digits_upto
digits_upto-append [] t zero a e h = refl
digits_upto-append [] [] (suc k) a e h = refl
digits_upto-append [] (c ∷ t) (suc k) a e h =
    let no : is_digit c ≡ false = ground arith in rw (digits_upto, no) refl
digits_upto-append (c ∷ s) t zero a e h = absurd (omega arith)
digits_upto-append (c ∷ s) t (suc k) a e h =
    let yes : is_digit c ≡ true = ground arith in
    rw (digits_upto, yes, digits_upto-append s t k (ground arith) e (omega arith)) refl

limit_lem : (s t : String) (hi : Option ℕ) → length s ≤ limit hi s → length s ≤ limit hi (s ++ t)
limit_lem s t none h = omega (arith, length-append s t)
limit_lem s t (some hi) h = h

-- A number, between the bounds for its length, is matched whole.
pub match_atom-decimal :
    (n : ℕ) (t : String) (hi : Option ℕ)
    → length (decimal n) ≤ limit hi (decimal n)
    → stops t ≡ true
    → match_atom (digit 1 hi) (decimal n ++ t) ≡ some (decimal n, t)
unfolding match_atom
match_atom-decimal n t hi h e =
    let some_digit : leb 1 (length (decimal n)) ≡ true = ground (arith, digits-length n n) in
    rw
      (
        match_atom,
        digits_upto-append (decimal n) t (limit hi (decimal n ++ t)) (digits-all_digits (suc n) n) e
            (limit_lem (decimal n) t hi h),
        some_digit,
      )
      refl

pub match-end : (t : String) → regex_match [] t ≡ some []
unfolding regex_match
match-end t = refl

module _ (ps : List Part) (out : List String) where
  -- A number in parentheses.
  pub match-number :
      (n : ℕ) (t : String) (hi : Option ℕ)
      → length (decimal n) ≤ limit hi (decimal n)
      → stops t ≡ true
      → regex_match ps t ≡ some out
      → regex_match (group (digit 1 hi ∷ []) ∷ ps) (decimal n ++ t) ≡ some (decimal n ∷ out)
  unfolding regex_match match_atoms
  match-number n t hi h e rest =
      rw (regex_match, match_atoms, match_atom-decimal n t hi h e, append-nil (decimal n), rest)
        refl

  pub match-char :
      (c : ℕ) (t : String)
      → regex_match ps t ≡ some out
      → regex_match (plain (char c) ∷ ps) (c ∷ t) ≡ some out
  unfolding regex_match match_atom
  match-char c t rest =
      let same : (c == c) ≡ true = ground arith in rw (regex_match, match_atom, same) rest

  -- A character and a digit in parentheses.
  pub match-name :
      (c d : ℕ) (t : String)
      → d < 10
      → regex_match ps t ≡ some out
      → regex_match (group (char c ∷ digit 1 (some 1) ∷ []) ∷ ps) (c ∷ (48 + d) ∷ t)
        ≡ some ((c ∷ (48 + d) ∷ []) ∷ out)
  unfolding regex_match match_atoms match_atom digits_upto
  match-name c d t h rest =
      let same : (c == c) ≡ true = ground arith in
      let one : is_digit (48 + d) ≡ true = ground arith in
      rw (regex_match, match_atoms, match_atom, same, one, rest) refl
