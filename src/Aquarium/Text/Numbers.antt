-- ===== src/Aquarium/Text/Numbers.antt =====
-- Numbers in decimal: what is printed is read back.
use my_enseirb_matmeca_proje.Base.{
  ℕ, zero, suc, ◌+◌, ◌-◌, ◌*◌, ◌/◌, ◌%◌, ◌^◌, ◌≤◌, ◌<◌, ◌≡◌, refl, ap, sym, ◌∙◌, Bool, true, false,
  ◌&&◌, ltb, [], ◌∷◌, ◌++◌, append_assoc, append-nil, length, length-append, arith, inl, inr,
  Bool-cases,
}
use my_enseirb_matmeca_proje.Aquarium.{String}
use my_enseirb_matmeca_proje.Aquarium.Text.{is_digit, digits, decimal, value_from, atoi}

abbrev pub all_digits : String → Bool
all_digits [] = true
all_digits (c ∷ s) = is_digit c && all_digits s

pub all_digits-append : (s t : String) → all_digits (s ++ t) ≡ all_digits s && all_digits t
all_digits-append [] t = refl
all_digits-append (c ∷ s) t = ground (arith, all_digits-append s t)

digits_small : (fuel n : ℕ) → ltb n 10 ≡ true → digits (suc fuel) n ≡ (48 + n) ∷ []
unfolding digits
digits_small fuel n h = rw (digits, h) refl

digits_large :
    (fuel n : ℕ)
    → ltb n 10 ≡ false
    → digits (suc fuel) n ≡ digits fuel (n / 10) ++ ((48 + n % 10) ∷ [])
unfolding digits
digits_large fuel n h = rw (digits, h) refl

-- A digit is printed as itself.
last_digit : (n : ℕ) → n < 10 → is_digit (48 + n) ≡ true
last_digit n h = ground arith

pub digits-all_digits : (fuel n : ℕ) → all_digits (digits fuel n) ≡ true
unfolding digits
digits-all_digits zero n = refl
digits-all_digits (suc fuel) n = elim (Bool-cases (ltb n 10)) [
  | inl small ↦ rw (digits_small fuel n small) (ground (arith, last_digit n))
  | inr large ↦ rw (digits_large fuel n large) (
      ground (
        arith,
        digits-all_digits fuel (n / 10),
        all_digits-append (digits fuel (n / 10)) ((48 + n % 10) ∷ []),
        last_digit (n % 10),
      ))
]

value_from-digit :
    (m d : ℕ) (t : String) → d < 10 → value_from m ((48 + d) ∷ t) ≡ value_from (m * 10 + d) t
unfolding value_from
value_from-digit m d t h =
    let e : m * 10 + (48 + d - 48) ≡ m * 10 + d = omega arith in rw (last_digit d h, e) refl

pub value_from-digits :
    (fuel n : ℕ) (t : String) → n < fuel → value_from 0 (digits fuel n ++ t) ≡ value_from n t
unfolding digits
value_from-digits zero n t h = absurd (omega arith)
value_from-digits (suc fuel) n t h = elim (Bool-cases (ltb n 10)) [
  | inl small ↦
      let e : 0 * 10 + n ≡ n = omega arith in
      rw (digits_small fuel n small)
        (value_from-digit 0 n t (ground arith) ∙ ap (λ m. value_from m t) e)
  | inr large ↦
      let e : n / 10 * 10 + n % 10 ≡ n = omega arith in
      rw (digits_large fuel n large, append_assoc (digits fuel (n / 10)) ((48 + n % 10) ∷ []) t)
        (value_from-digits fuel (n / 10) ((48 + n % 10) ∷ t) (ground arith)
          ∙ value_from-digit (n / 10) (n % 10) t (omega arith)
          ∙ ap (λ m. value_from m t) e)
]

pub length-digits : (fuel n k : ℕ) → n < 10 ^ suc k → length (digits fuel n) ≤ suc k
unfolding digits
length-digits zero n k h = omega arith
length-digits (suc fuel) n zero h =
    let small : ltb n 10 ≡ true = ground arith in rw (digits_small fuel n small) (omega arith)
length-digits (suc fuel) n (suc k) h = elim (Bool-cases (ltb n 10)) [
  | inl small ↦ rw (digits_small fuel n small) (omega arith)
  | inr large ↦
      let power : 10 ^ suc (suc k) ≡ 10 ^ suc k * 10 = omega arith in
      let less : n / 10 < 10 ^ suc k = omega (arith, power) in
      rw (digits_large fuel n large) (
        omega (
          arith,
          length-digits fuel (n / 10) k less,
          length-append (digits fuel (n / 10)) ((48 + n % 10) ∷ []),
        ))
]

pub digits-length : (fuel n : ℕ) → 1 ≤ length (digits (suc fuel) n)
unfolding digits
digits-length fuel n = elim (Bool-cases (ltb n 10)) [
  | inl small ↦ rw (digits_small fuel n small) (omega arith)
  | inr large ↦
      rw (digits_large fuel n large)
        (omega (arith, length-append (digits fuel (n / 10)) ((48 + n % 10) ∷ [])))
]

-- What `printf` prints, `atoi` reads.
pub atoi-decimal : (n : ℕ) → atoi (decimal n) ≡ n
unfolding value_from
atoi-decimal n =
    ap atoi (sym (append-nil (decimal n))) ∙ value_from-digits (suc n) n [] (omega arith)
