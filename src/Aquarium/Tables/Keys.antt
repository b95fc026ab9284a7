-- ===== src/Aquarium/Tables/Keys.antt =====
-- The arrays of state.c as tables: an element is found by its key, the id of a view or the name of
-- a fish.
use my_enseirb_matmeca_proje.Base.{
  ℕ, ◌+◌, ◌≤◌, ◌≡◌, refl, ap, subst, inl, inr, Bool, true, false, not, ◌&&◌, ◌||◌, List, [], ◌∷◌,
  ◌++◌, count_if, count_if-append, Bool-cases, arith,
}
use my_enseirb_matmeca_proje.Aquarium.{String, str_eq, any, remove_first, modify_first, grow}
use my_enseirb_matmeca_proje.Aquarium.Tables.{
  str_eq-eq, any-count_if, remove_first_lem, modify_first_lem,
}

-- The next cell of the array is allocated after an addition as well.
pub grow-room : (n size : ℕ) → n + 1 ≤ size → n + 2 ≤ grow n size
grow-room n size h = ground arith

module _ {ℓ} {A : Type ℓ} (key : A → String) where
  abbrev pub has : String → A → Bool
  has k a = str_eq (key a) k

  abbrev pub Unique : List A → Type 0
  Unique xs = (k : String) → count_if (has k) xs ≤ 1

  has-cong : (a : A) (j k : String) → has j a ≡ true → has k a ≡ str_eq j k
  has-cong a j k h = ap (λ s. str_eq s k) (str_eq-eq (key a) j h)

  pub any-append :
      (xs : List A) (a : A) (k : String)
      → any (has k) (xs ++ (a ∷ [])) ≡ any (has k) xs || str_eq (key a) k
  any-append xs a k = ground (
    arith,
    any-count_if (has k) xs,
    any-count_if (has k) (xs ++ (a ∷ [])),
    count_if-append (has k) xs (a ∷ []),
  )

  pub Unique-append :
      (xs : List A) (a : A) → Unique xs → any (has (key a)) xs ≡ false → Unique (xs ++ (a ∷ []))
  Unique-append xs a u new k = elim (Bool-cases (str_eq (key a) k)) [
    | inl e ↦ ground (
      arith,
      count_if-append (has k) xs (a ∷ []),
      any-count_if (has k) xs,
      subst (λ j. any (has j) xs ≡ false) (str_eq-eq (key a) k e) new,
    )
    | inr e ↦ ground (arith, count_if-append (has k) xs (a ∷ []), u k)
  ]

  pub any-there :
      (xs : List A) (j k : String)
      → any (has j) xs ≡ true
      → any (has k) xs ≡ any (has k) xs || str_eq j k
  any-there xs j k h = elim (Bool-cases (str_eq j k)) [
    | inl e ↦ rw (e, subst (λ i. any (has i) xs ≡ true) (str_eq-eq j k e) h) refl
    | inr e ↦ rw e (ground arith)
  ]

  pub any-absent :
      (xs : List A) (j k : String)
      → any (has j) xs ≡ false
      → any (has k) xs ≡ any (has k) xs && not (str_eq j k)
  any-absent xs j k h = elim (Bool-cases (str_eq j k)) [
    | inl e ↦ rw (e, subst (λ i. any (has i) xs ≡ false) (str_eq-eq j k e) h) refl
    | inr e ↦ rw e (ground arith)
  ]

  pub any-remove :
      (xs : List A) (j k : String)
      → Unique xs
      → any (has j) xs ≡ true
      → any (has k) (remove_first (has j) xs) ≡ any (has k) xs && not (str_eq j k)
  any-remove xs j k u h =
      let (a, t, l, c) = remove_first_lem (has j) xs h in
      ground (
        arith,
        any-count_if (has k) xs,
        any-count_if (has k) (remove_first (has j) xs),
        c k',
        has-cong a j k t,
        u k,
      )
    where
      k' : A → Bool
      k' = has k

  pub Unique-remove :
      (xs : List A) (test : A → Bool)
      → Unique xs
      → any test xs ≡ true
      → Unique (remove_first test xs)
  Unique-remove xs test u h k =
      let (a, t, l, c) = remove_first_lem test xs h in omega (arith, c (has k), u k)

  pub Unique-modify :
      (xs : List A) (test : A → Bool) (f : A → A)
      → Unique xs
      → ((a : A) → key (f a) ≡ key a)
      → any test xs ≡ true
      → Unique (modify_first test f xs)
  Unique-modify xs test f u same h k =
      let (a, t, s, l, c) = modify_first_lem test f xs h in
      let e : has k (f a) ≡ has k a = ap (λ i. str_eq i k) (same a) in
      ground (arith, c (has k), u k, e)
