-- ===== src/Life/Lazy/Around.antt =====
-- The cells and the tiles around a cell of vie.c.
use my_enseirb_matmeca_proje.Base.{
  true-false, ℕ, zero, suc, ◌+◌, ◌-◌, ◌*◌, ◌≤◌, ◌<◌, ◌≡◌, subst, refl, sym, ap, ◌∙◌, inl, inr, Bool,
  true, false, ◌&&◌, dec_lt, Bool-cases, arith,
}
use my_enseirb_matmeca_proje.Life.{for_from, alive}
use my_enseirb_matmeca_proje.Life.Region.{living_around}
use my_enseirb_matmeca_proje.Life.Lazy.{Marks, in_range, look, has_changed_tuilee_opti}
use my_enseirb_matmeca_proje.Life.Lazy.Loops.{for_from-reaches, for_from-keeps}

-- Images that agree on the square around a cell have as many living cells around it.
pub living_around-same :
    (f g : ℕ → ℕ → ℕ) (y x : ℕ)
    → 0 < y
    → 0 < x
    → ((u v : ℕ) → y ≤ u + 1 → u ≤ y + 1 → x ≤ v + 1 → v ≤ x + 1 → f u v ≡ g u v)
    → living_around f y x ≡ living_around g y x
unfolding living_around
living_around-same f g y x py px h =
    let at : (u v : ℕ)
        → y ≤ u + 1
        → u ≤ y + 1
        → x ≤ v + 1
        → v ≤ x + 1
        → alive (f u v) ≡ alive (g u v) =
      λ u v a b c d. ap alive (h u v a b c d) in
    let near : y ≤ y - 1 + 1 = omega arith in
    let near_x : x ≤ x - 1 + 1 = omega arith in
    rw
      (
        at (y - 1) (x - 1) near (omega arith) near_x (omega arith),
        at (y - 1) x near (omega arith) (omega arith) (omega arith),
        at (y - 1) (x + 1) near (omega arith) (omega arith) (omega arith),
        at y (x - 1) (omega arith) (omega arith) near_x (omega arith),
        at y (x + 1) (omega arith) (omega arith) (omega arith) (omega arith),
        at (y + 1) (x - 1) (omega arith) (omega arith) near_x (omega arith),
        at (y + 1) x (omega arith) (omega arith) (omega arith) (omega arith),
        at (y + 1) (x + 1) (omega arith) (omega arith) (omega arith) (omega arith),
      )
      refl

above_lem :
    (size i y u : ℕ)
    → u < i * size
    → i * size ≤ y
    → y ≤ u + 1
    → (1 ≤ i) × ((i + 0 - 1) * size ≤ u) × (u ≤ (i + 0 - 1 + 1) * size)
above_lem size zero y u h lo near = absurd (omega arith)
above_lem size (suc k) y u h lo near =
    let e : suc k + 0 - 1 ≡ k = omega arith in
    (omega arith, rw e (omega (arith, positive size h)), rw e (omega arith))
  where
    positive : (size : ℕ) → u < suc k * size → 0 < size
    positive zero h = absurd (omega arith)
    positive (suc n) h = omega arith

below_lem :
    (size grain i y u : ℕ)
    → i < grain
    → (i + 1) * size < u
    → y ≤ (i + 1) * size
    → u ≤ y + 1
    → u ≤ grain * size
    → (i + 1 < grain) × ((i + 2 - 1) * size ≤ u) × (u ≤ (i + 2 - 1 + 1) * size)
below_lem size grain i y u lt h hi far end =
    let e : i + 2 - 1 ≡ i + 1 = omega arith in
    elim (dec_lt (i + 1) grain) [
      | yes more ↦ (more, rw e (omega arith), rw e (omega (arith, positive size u end h)))
      | no last ↦
          let g : grain ≡ i + 1 = omega arith in
          absurd (omega (arith, subst (λ n. u ≤ n * size) g end))
    ]
  where
    positive : (size u : ℕ) → u ≤ grain * size → (i + 1) * size < u → 0 < size
    positive zero u end h = absurd (omega arith)
    positive (suc n) u end h = omega arith

-- A cell next to one of a row of tiles stands in that row or in one beside it.
pub beside :
    (size grain i y u : ℕ)
    → i < grain
    → i * size ≤ y
    → y ≤ (i + 1) * size
    → y ≤ u + 1
    → u ≤ y + 1
    → u ≤ grain * size
    → (a : ℕ) × (a < 3)
      × (in_range grain i a ≡ true)
      × ((i + a - 1) * size ≤ u)
      × (u ≤ (i + a - 1 + 1) * size)
beside size grain i y u lt lo hi near far end = elim (dec_lt u (i * size)) [
  | yes above ↦
      let (p, l, r) = above_lem size i y u above lo near in (0, omega arith, ground arith, l, r)
  | no lower ↦ elim (dec_lt ((i + 1) * size) u) [
    | yes below ↦
        let (p, l, r) = below_lem size grain i y u lt below hi far end in
        (2, omega arith, ground arith, l, r)
    | no upper ↦
        let e : i + 1 - 1 ≡ i = omega arith in
        (1, omega arith, ground arith, rw e (omega arith), rw e (omega arith))
  ]
]

look-keeps :
    (grain : ℕ) (m : Marks) (i j a b : ℕ) (c : Bool) → c ≡ true → look grain m i j a b c ≡ true
look-keeps grain m i j a b c h = elim (Bool-cases (in_range grain i a && in_range grain j b)) [
  | inl r ↦ rw (look, r, h) refl
  | inr r ↦ rw (look, r) h
]

look-marked :
    (grain : ℕ) (m : Marks) (i j a b : ℕ) (c : Bool)
    → in_range grain i a ≡ true
    → in_range grain j b ≡ true
    → m (i + a - 1) (j + b - 1) ≡ true
    → look grain m i j a b c ≡ true
look-marked grain m i j a b true ra rb h = rw (look, ra, rb) refl
look-marked grain m i j a b false ra rb h = rw (look, ra, rb) h

module _ (grain : ℕ) (m : Marks) (i j a b : ℕ) (la : a < 3) (lb : b < 3)
    (ra : in_range grain i a ≡ true) (rb : in_range grain j b ≡ true) where
  pub marked_lem : m (i + a - 1) (j + b - 1) ≡ true → has_changed_tuilee_opti grain m i j ≡ true
  unfolding has_changed_tuilee_opti
  marked_lem h =
      for_from-reaches (λ c. Bool) (λ c. c ≡ true) (λ k. for_from (look grain m i j k) 3 0) a
        (λ k c p. p)
        (λ c p.
          for_from-reaches (λ d. Bool) (λ d. d ≡ true) (look grain m i j a) b (λ k d q. q)
            (λ d q. look-marked grain m i j a b d ra rb h) (λ k d q. look-keeps grain m i j a k d q)
            3 0 c (omega arith) (omega arith) p)
        (λ k c p.
          for_from-keeps (λ d. d ≡ true) (look grain m i j k)
            (λ n d q. look-keeps grain m i j k n d q) 3 0 c p)
        3 0 false (omega arith) (omega arith) true

  -- When no tile around is marked, those around are not.
  pub unmarked_lem : has_changed_tuilee_opti grain m i j ≡ false → m (i + a - 1) (j + b - 1) ≡ false
  unmarked_lem h = elim (Bool-cases (m (i + a - 1) (j + b - 1))) [
    | inr e ↦ e
    | inl e ↦ let marked = marked_lem e in absurd (true-false (sym marked ∙ h))
  ]

-- When all tiles are marked, each has to be computed.
pub all_marked_lem :
    (grain i j : ℕ) → i < grain → j < grain → has_changed_tuilee_opti grain (λ a b. true) i j ≡ true
all_marked_lem grain i j a b =
    marked_lem grain (λ c d. true) i j 1 1 (omega arith) (omega arith) (ground arith) (ground arith)
      refl
