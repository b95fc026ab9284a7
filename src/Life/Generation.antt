-- ===== src/Life/Generation.antt =====
-- What each function of vie.c computes: a cell, a tile, all the tiles.
use my_enseirb_matmeca_proje.Base.{
  ℕ, zero, suc, ◌+◌, ◌-◌, ◌*◌, ◌/◌, ◌≤◌, ◌<◌, ◌≡◌, inl, inr, refl, subst, Bool, true, false, ◌&&◌,
  ◌==◌, if◌then◌else◌, Bool-cases, dec_lt, arith,
}
use my_enseirb_matmeca_proje.Life.{
  Images, for_from, yellow, interior, count_around, write, basic_cell, compute_new_state_basic,
  compute_new_state_no_jump, or_change, traiter_tuile, traiter_tuile_no_jump, traiter_tuiles,
}
use my_enseirb_matmeca_proje.Life.Region.{
  Region, rule, living_around, after, turns, Computes, union, for_from-Computes, union-intro,
}

abbrev pub cell : ℕ → ℕ → Region
cell i j y x = y == i && x == j

-- The reference: a cell inside the border gets the state that the rule says.
new_state : ℕ → ℕ → ℕ → Images → Images × Bool
unfolding after turns
new_state dim i j s =
    if interior dim i j
    then (write i j (if after s.cur i j then yellow else 0) s, turns s.cur i j)
    else (s, false)

-- What the loops count is what stands around the cell.
pub count_around-living :
    (img : ℕ → ℕ → ℕ) (y x : ℕ) → 0 < y → 0 < x → count_around img y x ≡ living_around img y x
unfolding count_around living_around for_from
count_around-living img y x py px =
    let ey : (y - 1) + 1 ≡ y = omega arith in
    let ex : (x - 1) + 1 ≡ x = omega arith in rw (ey, ex) (omega arith)

basic-new_state :
    (dim i j : ℕ) (s : Images) → compute_new_state_basic dim i j s ≡ new_state dim i j s
unfolding compute_new_state_basic new_state basic_cell after turns rule
basic-new_state dim i j s = elim (Bool-cases (interior dim i j)) [
  | inl h ↦ ground (arith, count_around-living s.cur i j (ground arith) (ground arith))
  | inr h ↦ ground arith
]

no_jump-new_state :
    (dim i j : ℕ) (s : Images) → compute_new_state_no_jump dim i j s ≡ new_state dim i j s
unfolding compute_new_state_no_jump new_state after turns rule
no_jump-new_state dim i j s = elim (Bool-cases (interior dim i j)) [
  | inl h ↦ ground (arith, count_around-living s.cur i j (ground arith) (ground arith))
  | inr h ↦ ground arith
]

-- A function that computes one cell, with the changes of what came before.
abbrev pub ComputesCell : ℕ → (ℕ → ℕ → Images → Images × Bool) → Type 0
ComputesCell dim compute =
    (i j : ℕ) (s : Images) (c : Bool)
    → Computes dim (cell i j) (s, c) (or_change (compute i j) (s, c))

new_state-next :
    (dim i j : ℕ) (s : Images)
    → interior dim i j ≡ true
    → (y x : ℕ)
    → (write i j (if after s.cur i j then yellow else 0) s).next y x ≡ (
        if cell i j y x && interior dim y x
        then (if after s.cur y x then yellow else 0)
        else s.next y x)
new_state-next dim i j s h y x = elim (Bool-cases (cell i j y x)) [
  | inl e ↦
      let ey : y ≡ i = ground arith in
      let ex : x ≡ j = ground arith in rw (ey, ex, h) (ground arith)
  | inr e ↦ rw e refl
]

cell-interior :
    (dim i j y x : ℕ) → interior dim i j ≡ false → cell i j y x && interior dim y x ≡ false
cell-interior dim i j y x h = ground arith

cell-turns : (i j y x : ℕ) (img : ℕ → ℕ → ℕ) → cell i j y x ≡ true → turns img y x ≡ turns img i j
cell-turns i j y x img e =
    let ey : y ≡ i = ground arith in let ex : x ≡ j = ground arith in rw (ey, ex) refl

new_state-ComputesCell : (dim : ℕ) → ComputesCell dim (new_state dim)
unfolding new_state
new_state-ComputesCell dim i j s c = elim (Bool-cases (interior dim i j)) [
  | inl h ↦ rw h (record {
    cur = refl;
    next = new_state-next dim i j s h;
    change = (
      λ d. elim (Bool-cases c) [
        | inl e ↦ inl e
        | inr e ↦ inr (i, j, ground arith, h, ground arith)
      ],
      λ d. elim d [
        | inl e ↦ rw e refl
        | inr (y, x, e, f, r) ↦ ground (arith, cell-turns i j y x s.cur e)
      ],
    );
  })
  | inr h ↦ rw h (record {
    cur = refl;
    next = λ y x. rw (cell-interior dim i j y x h) refl;
    change = (
      λ d. inl (ground arith),
      λ d. elim d [
        | inl e ↦ rw e refl
        | inr (y, x, e, f, r) ↦ absurd (ground (arith, cell-interior dim i j y x h))
      ],
    );
  })
]

pub basic-ComputesCell : (dim : ℕ) → ComputesCell dim (compute_new_state_basic dim)
basic-ComputesCell dim i j s c = rw (basic-new_state dim i j s) (new_state-ComputesCell dim i j s c)

pub no_jump-ComputesCell : (dim : ℕ) → ComputesCell dim (compute_new_state_no_jump dim)
no_jump-ComputesCell dim i j s c =
    rw (no_jump-new_state dim i j s) (new_state-ComputesCell dim i j s c)

-- The cells of a tile, as its loops reach them.
abbrev pub tile : ℕ → ℕ → ℕ → ℕ → Region
tile i_d j_d i_f j_f = union (λ i. union (λ j. cell i j) (j_f + 1 - j_d) j_d) (i_f + 1 - i_d) i_d

pub tile-intro :
    (i_d j_d i_f j_f y x : ℕ)
    → i_d ≤ y
    → y ≤ i_f
    → j_d ≤ x
    → x ≤ j_f
    → tile i_d j_d i_f j_f y x ≡ true
tile-intro i_d j_d i_f j_f y x a b c d =
    union-intro _ (i_f + 1 - i_d) i_d y y x a (omega arith)
      (union-intro (λ j. cell y j) (j_f + 1 - j_d) j_d x y x c (omega arith) (ground arith))

pub traiter_tuile-Computes :
    (dim : ℕ) (compute : ℕ → ℕ → Images → Images × Bool)
    → ComputesCell dim compute
    → (i_d j_d i_f j_f : ℕ) (s : Images)
    → Computes dim (tile i_d j_d i_f j_f) (s, false) (traiter_tuile compute i_d j_d i_f j_f s)
unfolding traiter_tuile
traiter_tuile-Computes dim compute h i_d j_d i_f j_f s =
    for_from-Computes dim _ _
      (λ i t. for_from-Computes dim _ _ (λ j u. h i j u.0 u.1) (j_f + 1 - j_d) j_d t)
      (i_f + 1 - i_d) i_d (s, false)

pub or_change-Computes :
    (dim : ℕ) (p : Region) (f : Images → Images × Bool) (s : Images) (c : Bool)
    → Computes dim p (s, false) (f s)
    → Computes dim p (s, c) (or_change f (s, c))
or_change-Computes dim p f s c h = record {
  cur = h.cur;
  next = h.next;
  change = (
    λ d. elim (Bool-cases c) [
      | inl e ↦ inl e
      | inr e ↦ elim (h.change.0 (ground arith)) [ inl k ↦ absurd cc | inr w ↦ inr w ]
    ],
    λ d. elim d [ inl e ↦ rw e refl | inr w ↦ ground (arith, h.change.1 (inr w)) ],
  );
}

-- Row `i` and column `j` of the tiles.
abbrev pub tiles : ℕ → ℕ → Region
tiles size grain =
    union (λ i. union (λ j. tile (i * size) (j * size) ((i + 1) * size) ((j + 1) * size)) grain 0)
      grain 0

pub traiter_tuiles-Computes :
    (dim grain : ℕ) (s : Images)
    → Computes dim (tiles (dim / grain) grain) (s, false) (traiter_tuiles dim grain s)
unfolding traiter_tuiles
traiter_tuiles-Computes dim grain s =
    for_from-Computes dim _ _
      (λ i t.
        for_from-Computes dim _ _
          (λ j u.
            or_change-Computes dim _
              (traiter_tuile_no_jump dim (i * (dim / grain)) (j * (dim / grain))
                ((i + 1) * (dim / grain)) ((j + 1) * (dim / grain)))
              u.0 u.1
              (traiter_tuile-Computes dim (compute_new_state_no_jump dim) (no_jump-ComputesCell dim)
                _ _ _ _ u.0))
          grain 0 t)
      grain 0 (s, false)

-- The tiles of one direction cover what lies before their end.
pub tile_of :
    (size grain y : ℕ)
    → 0 < grain
    → y ≤ grain * size
    → (i : ℕ) × (i < grain) × (i * size ≤ y) × (y ≤ (i + 1) * size)
tile_of size zero y pos h = absurd (omega arith)
tile_of size (suc g) y pos h = elim (dec_lt y (g * size)) [
  | yes before ↦
      let (i, a, b, c) = tile_of size g y (positive before) (omega arith) in (i, omega arith, b, c)
  | no last ↦ (g, omega arith, omega arith, omega arith)
]
  where
    positive : y < g * size → 0 < g
    positive h = elim (dec_lt 0 g) [
      | yes p ↦ p
      | no z ↦ let e : g ≡ 0 = omega arith in absurd (omega (arith, subst (λ k. y < k * size) e h))
    ]

pub tiles-cover :
    (size grain y x : ℕ)
    → 0 < grain
    → y ≤ grain * size
    → x ≤ grain * size
    → tiles size grain y x ≡ true
tiles-cover size grain y x p hy hx =
    let (i, a, b, c) = tile_of size grain y p hy in
    let (j, d, e, f) = tile_of size grain x p hx in
    union-intro _ grain 0 i y x (omega arith) (omega arith)
      (union-intro _ grain 0 j y x (omega arith) (omega arith) (tile-intro _ _ _ _ y x b c e f))
