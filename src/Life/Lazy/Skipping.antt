-- ===== src/Life/Lazy/Skipping.antt =====
-- One iteration over the lazy tiles of vie.c: which cells are computed, and which tiles are marked.
use my_enseirb_matmeca_proje.Base.{
  true-false, ℕ, ◌+◌, ◌*◌, ◌/◌, ◌≤◌, ◌<◌, ◌≡◌, ap₂, subst, refl, sym, ◌∙◌, inl, inr, Bool, true,
  false, ◌&&◌, ◌==◌, if◌then◌else◌, Bool-cases, arith,
}
use my_enseirb_matmeca_proje.Life.{
  Images, for_from, interior, or_change, traiter_tuile_no_jump, compute_new_state_no_jump,
}
use my_enseirb_matmeca_proje.Life.Region.{
  Region, turns, Computes, Computes-none, union, for_from-Computes,
}
use my_enseirb_matmeca_proje.Life.Generation.{
  tile, tile-intro, traiter_tuile-Computes, no_jump-ComputesCell, or_change-Computes,
}
use my_enseirb_matmeca_proje.Life.Lazy.{Marks, Lazy, Sweep, has_changed_tuilee_opti, visit, sweep}
use my_enseirb_matmeca_proje.Life.Lazy.Loops.{for_from-keeps, for_from-reaches, for_from-map}

same_tile : (a b i j : ℕ) → a == i && b == j ≡ true → (a ≡ i) × (b ≡ j)
same_tile a b i j h = (ground arith, ground arith)

-- What is computed under a test.
if-Computes :
    (dim : ℕ) (b : Bool) (p : Region) (s t : Images × Bool)
    → Computes dim p s t
    → Computes dim (λ y x. b && p y x) s (if b then t else s)
if-Computes dim true p s t c = c
if-Computes dim false p s t c = Computes-none dim s

module _ (dim grain : ℕ) where
  -- The tile of row `i` and column `j`.
  abbrev pub tile_at : ℕ → ℕ → Region
  tile_at i j =
      let size = dim / grain in tile (i * size) (j * size) ((i + 1) * size) ((j + 1) * size)

  abbrev pub compute_tile : ℕ → ℕ → Images → Images × Bool
  compute_tile i j =
      let size = dim / grain in
      traiter_tuile_no_jump dim (i * size) (j * size) ((i + 1) * size) ((j + 1) * size)

  pub compute_tile-Computes :
      (i j : ℕ) (s : Images) → Computes dim (tile_at i j) (s, false) (compute_tile i j s)
  compute_tile-Computes i j s =
      traiter_tuile-Computes dim (compute_new_state_no_jump dim) (no_jump-ComputesCell dim) _ _ _ _
        s

  module _ (before : Marks) where
    -- The cells that are computed in a tile.
    abbrev pub visited : ℕ → ℕ → Region
    visited i j y x = has_changed_tuilee_opti grain before i j && tile_at i j y x

    abbrev pub visit_images : ℕ → ℕ → Images × Bool → Images × Bool
    visit_images i j t =
        if has_changed_tuilee_opti grain before i j then or_change (compute_tile i j) t else t

    pub visit_images-Computes :
        (i j : ℕ) (t : Images × Bool) → Computes dim (visited i j) t (visit_images i j t)
    visit_images-Computes i j t =
        if-Computes dim (has_changed_tuilee_opti grain before i j) (tile_at i j) t
          (or_change (compute_tile i j) t)
          (or_change-Computes dim (tile_at i j) (compute_tile i j) t.0 t.1
            (compute_tile-Computes i j t.0))

    abbrev pub of_sweep : Sweep → Images × Bool
    of_sweep w = (w.images, w.change)

    pub visit-visit_images :
        (i j : ℕ) (w : Sweep)
        → of_sweep (visit dim grain before i j w) ≡ visit_images i j (of_sweep w)
    unfolding visit
    visit-visit_images i j w = elim (Bool-cases (has_changed_tuilee_opti grain before i j)) [
      | inl h ↦ rw (visit, h) refl
      | inr h ↦ rw (visit, h) refl
    ]

    -- The cells of all the tiles that are computed.
    abbrev pub all_visited : Region
    all_visited = union (λ i. union (λ j. visited i j) grain 0) grain 0

    loops-Computes :
        (w : Sweep)
        → Computes dim all_visited
            (of_sweep w)
            (of_sweep (for_from (λ i. for_from (visit dim grain before i) grain 0) grain 0 w))
    loops-Computes w =
        rw
          (for_from-map of_sweep (λ i. for_from (visit dim grain before i) grain 0)
            (λ i. for_from (visit_images i) grain 0)
            (λ i v.
              for_from-map of_sweep (visit dim grain before i) (visit_images i)
                (visit-visit_images i) grain 0 v)
            grain 0 w)
          (for_from-Computes dim _ _
            (λ i t. for_from-Computes dim _ _ (λ j u. visit_images-Computes i j u) grain 0 t) grain
            0 (of_sweep w))

  pub sweep-Computes :
      (l : Lazy)
      → Computes dim
          (all_visited l.before)
          (l.images, false)
          (of_sweep l.before (sweep dim grain l))
  unfolding sweep
  sweep-Computes l = loops-Computes l.before _

  -- A cell stands in the tile of row `i` and column `j`.
  pub record InTile (i j y x : ℕ) : Type 0 where
    pub top : i * (dim / grain) ≤ y
    pub bottom : y ≤ (i + 1) * (dim / grain)
    pub left : j * (dim / grain) ≤ x
    pub right : x ≤ (j + 1) * (dim / grain)

  pub InTile-tile_at : (i j y x : ℕ) → InTile i j y x → tile_at i j y x ≡ true
  InTile-tile_at i j y x t = tile-intro _ _ _ _ y x t.top t.bottom t.left t.right

  -- What a tile's mark says: nothing in it changes.
  abbrev pub IsStill : (ℕ → ℕ → ℕ) → ℕ → ℕ → Type 0
  IsStill img i j = (y x : ℕ) → InTile i j y x → interior dim y x ≡ true → turns img y x ≡ false

  unmarked-IsStill : (i j : ℕ) (s : Images) → (compute_tile i j s).1 ≡ false → IsStill s.cur i j
  unmarked-IsStill i j s h y x t n = elim (Bool-cases (turns s.cur y x)) [
    | inr e ↦ e
    | inl e ↦
        let c =
          (compute_tile-Computes i j s).change.1 (inr (y, x, InTile-tile_at i j y x t, n, e)) in
        absurd (ground (arith, c, h))
  ]

  module _ (before : Marks) (img : ℕ → ℕ → ℕ) (a b : ℕ) where
    abbrev Reads : Sweep → Type 0
    Reads w = w.images.cur ≡ img

    record IsMarked (w : Sweep) : Type 0 where
      reads : w.images.cur ≡ img
      still : w.marks a b ≡ false → IsStill img a b

    visit-Reads : (i j : ℕ) (w : Sweep) → Reads w → Reads (visit dim grain before i j w)
    unfolding visit
    visit-Reads i j w r = elim (Bool-cases (has_changed_tuilee_opti grain before i j)) [
      | inl h ↦ rw (visit, h) ((compute_tile-Computes i j w.images).cur ∙ r)
      | inr h ↦ rw (visit, h) r
    ]

    visit-IsMarked : (i j : ℕ) (w : Sweep) → IsMarked w → IsMarked (visit dim grain before i j w)
    unfolding visit
    visit-IsMarked i j w m = elim (Bool-cases (has_changed_tuilee_opti grain before i j)) [
      | inl h ↦
          rw (visit, h)
            record {
              reads = (compute_tile-Computes i j w.images).cur ∙ m.reads;
              still = λ e. elim (Bool-cases (a == i && b == j)) [
                | inl same ↦
                    let (ea, eb) = same_tile a b i j same in
                    rw (ea, eb)
                      (subst (λ c. IsStill c i j) m.reads
                        (unmarked-IsStill i j w.images (rw same at e)))
                | inr other ↦ m.still (rw other at e)
              ];
            }
      | inr h ↦ rw (visit, h) m
    ]

    visit_here :
        has_changed_tuilee_opti grain before a b ≡ true
        → (w : Sweep) → Reads w
        → IsMarked (visit dim grain before a b w)
    unfolding visit
    visit_here h w r =
        let self : a == a && b == b ≡ true = ground arith in
        rw (visit, h)
          record {
            reads = (compute_tile-Computes a b w.images).cur ∙ r;
            still =
                λ e. subst (λ c. IsStill c a b) r (unmarked-IsStill a b w.images (rw self at e));
          }

    loops-IsMarked :
        has_changed_tuilee_opti grain before a b ≡ true
        → a < grain
        → b < grain
        → (w : Sweep) → Reads w
        → IsMarked (for_from (λ i. for_from (visit dim grain before i) grain 0) grain 0 w)
    loops-IsMarked h la lb w r =
        for_from-reaches Reads IsMarked _ a
          (λ i v. for_from-keeps Reads _ (visit-Reads i) grain 0 v)
          (λ v.
            for_from-reaches Reads IsMarked _ b (visit-Reads a) (visit_here h) (visit-IsMarked a)
              grain 0 v (omega arith) (omega arith))
          (λ i v. for_from-keeps IsMarked _ (visit-IsMarked i) grain 0 v) grain 0 w (omega arith)
          (omega arith) r

    -- A tile that is not computed keeps its mark.
    abbrev Keeps : Bool → Sweep → Type 0
    Keeps c w = w.marks a b ≡ c

    visit-Keeps :
        has_changed_tuilee_opti grain before a b ≡ false
        → (c : Bool) (i j : ℕ) (w : Sweep) → Keeps c w
        → Keeps c (visit dim grain before i j w)
    unfolding visit
    visit-Keeps skip c i j w k = elim (Bool-cases (has_changed_tuilee_opti grain before i j)) [
      | inl h ↦ elim (Bool-cases (a == i && b == j)) [
        | inl same ↦
            let (ea, eb) = same_tile a b i j same in
            absurd (
              true-false
                (sym h ∙ ap₂ (has_changed_tuilee_opti grain before) (sym ea) (sym eb) ∙ skip))
        | inr other ↦ rw (visit, h, other) k
      ]
      | inr h ↦ rw (visit, h) k
    ]

  -- The marks after an iteration.
  pub sweep-marks :
      (l : Lazy) (a b : ℕ)
      → a < grain
      → b < grain
      → (has_changed_tuilee_opti grain l.before a b ≡ false → l.after a b ≡ false)
      → let w = sweep dim grain l in
        (has_changed_tuilee_opti grain l.before a b ≡ true
          → w.marks a b ≡ false
          → IsStill l.images.cur a b)
        × (has_changed_tuilee_opti grain l.before a b ≡ false → w.marks a b ≡ false)
  unfolding sweep
  sweep-marks l a b la lb skipped = (
    λ h. (loops-IsMarked l.before l.images.cur a b h la lb _ refl).still,
    λ h.
        for_from-keeps (Keeps l.before l.images.cur a b false) _
          (λ i v.
            for_from-keeps (Keeps l.before l.images.cur a b false) _
              (visit-Keeps l.before l.images.cur a b h false i) grain 0 v)
          grain 0 _ (skipped h),
  )
