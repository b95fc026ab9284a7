-- ===== src/Kitty/Board/Search.antt =====
-- One round of `find_reachable_cells`: the scan of the neighbours of the starting cells.
use my_enseirb_matmeca_proje.Base.{
  ◌≡◌, append-nil, append_assoc, refl, ◌∙◌, true, false, List, [], ◌∷◌, ◌++◌, inl, inr, ◌⊎◌, arith,
  Bool-cases, subst, sym,
}
use my_enseirb_matmeca_proje.Kitty.Board.{
  Cell, Board, cell_eq, in_cells, neighbours, Found, try_cell, try_cells, scan,
}
use my_enseirb_matmeca_proje.Kitty.Board.Cells.{
  ◌∈◌, ◌∉◌, cell_eq→eq, cell_eq_refl, mem-append, mem-snoc, AllOnBoard, neighbours-AllOnBoard,
}

-- Not taken.
abbrev pub IsFree : Board → Cell → Type 0
IsFree board c = board c.x c.y ≡ false

-- No cell stands twice in the list.
abbrev pub Distinct : List Cell → Type 0
Distinct [] = Unit
Distinct (c ∷ cs) = (c ∉ cs) × Distinct cs

Distinct-snoc : (c : Cell) (cs : List Cell) → Distinct cs → c ∉ cs → Distinct (cs ++ c ∷ [])
unfolding in_cells
Distinct-snoc c [] d n = (refl, tt)
Distinct-snoc c (x ∷ cs) d n = (
  ground (arith, mem-snoc x c cs, cell_eq→eq c x, cell_eq_refl c),
  Distinct-snoc c cs d.1 (ground arith),
)

pub AllOnBoard-append : (xs ys : List Cell) → AllOnBoard xs → AllOnBoard ys → AllOnBoard (xs ++ ys)
AllOnBoard-append [] ys hx hy = hy
AllOnBoard-append (x ∷ xs) ys hx hy = (hx.0, AllOnBoard-append xs ys hx.1 hy)

pub all_neighbours : List Cell → List Cell
all_neighbours [] = []
all_neighbours (s ∷ ss) = neighbours s ++ all_neighbours ss

pub mem-all_neighbours :
    (e s : Cell) (starting : List Cell)
    → s ∈ starting
    → e ∈ neighbours s
    → e ∈ all_neighbours starting
unfolding all_neighbours in_cells
mem-all_neighbours e s [] h n = absurd (cc h)
mem-all_neighbours e s (c ∷ cs) h n = ground (
  arith,
  cell_eq→eq c s,
  mem-append e (neighbours c) (all_neighbours cs),
  mem-all_neighbours e s cs,
)

pub from_all_neighbours :
    (e : Cell) (starting : List Cell)
    → e ∈ all_neighbours starting
    → (s : Cell) × (s ∈ starting) × (e ∈ neighbours s)
unfolding all_neighbours in_cells
from_all_neighbours e [] h = absurd (cc h)
from_all_neighbours e (c ∷ cs) h = elim (Bool-cases (in_cells e (neighbours c))) [
  | inl near ↦ (c, ground (arith, cell_eq_refl c), near)
  | inr far ↦
      let (s, at, n) =
        from_all_neighbours e cs
          (ground (arith, mem-append e (neighbours c) (all_neighbours cs))) in
      (s, ground arith, n)
]

pub all_neighbours-AllOnBoard :
    (starting : List Cell) → AllOnBoard starting → AllOnBoard (all_neighbours starting)
unfolding all_neighbours
all_neighbours-AllOnBoard [] h = tt
all_neighbours-AllOnBoard (c ∷ cs) h =
    AllOnBoard-append (neighbours c) (all_neighbours cs) (neighbours-AllOnBoard c h.0)
      (all_neighbours-AllOnBoard cs h.1)

module _ (board : Board) where
  -- A cell that is tried is passed over because it was found before or is taken, or is found.
  try_cell-cases :
      (c : Cell) (f : Found)
      → ((try_cell board c f ≡ f) × ((c ∈ f.1) ⊎ (board c.x c.y ≡ true)))
        ⊎ ((try_cell board c f ≡ (f.0 ++ c ∷ [], f.1 ++ c ∷ [])) × (c ∉ f.1) × IsFree board c)
  unfolding try_cell
  try_cell-cases c (en, cs) = ground arith

  -- What the cells `tried` add to `f`.
  pub record Scanned (tried : List Cell) (f f' : Found) : Type 0 where
    pub new : List Cell
    pub ending : f'.0 ≡ f.0 ++ new
    pub cells : f'.1 ≡ f.1 ++ new
    pub sound : (e : Cell) → e ∈ new → (e ∈ tried) × IsFree board e
    pub complete : (e : Cell) → e ∈ tried → IsFree board e → e ∈ f'.1
    pub distinct : Distinct f.1 → Distinct f'.1
    pub inside : AllOnBoard tried → AllOnBoard new

  mem-extended : (e : Cell) (xs ys : List Cell) → e ∈ xs → e ∈ (xs ++ ys)
  mem-extended e xs ys h = rw (mem-append e xs ys, h)

  passed-Scanned :
      {cs : List Cell} {f f' : Found} (c : Cell)
      → Scanned cs f f'
      → (c ∈ f.1) ⊎ (board c.x c.y ≡ true)
      → Scanned (c ∷ cs) f f'
  unfolding in_cells
  passed-Scanned {cs} {f} {f'} c s why = record {
    new = s.new;
    ending = s.ending;
    cells = s.cells;
    sound = λ e h. ground (arith, s.sound e h);
    complete = λ e h free. elim (Bool-cases (cell_eq c e)) [
      | inl same ↦ ground (arith, cell_eq→eq c e same, mem-extended c f.1 s.new, s.cells)
      | inr other ↦ s.complete e (ground arith) free
    ];
    distinct = s.distinct;
    inside = λ h. s.inside h.1;
  }

  found-Scanned :
      {cs : List Cell} {f f' : Found} (c : Cell)
      → Scanned cs (f.0 ++ c ∷ [], f.1 ++ c ∷ []) f'
      → c ∉ f.1
      → IsFree board c
      → Scanned (c ∷ cs) f f'
  unfolding in_cells
  found-Scanned {cs} {f} {f'} c s fresh free = record {
    new = c ∷ s.new;
    ending = s.ending ∙ append_assoc f.0 (c ∷ []) s.new;
    cells = s.cells ∙ append_assoc f.1 (c ∷ []) s.new;
    sound = λ e h. elim (Bool-cases (cell_eq c e)) [
      | inl same ↦ (ground arith, ground (arith, cell_eq→eq c e same))
      | inr other ↦ ground (arith, s.sound e (ground arith))
    ];
    complete = λ e h free'. elim (Bool-cases (cell_eq c e)) [
      | inl same ↦
          rw (s.cells, mem-append e (f.1 ++ c ∷ []) s.new, mem-snoc e c f.1, same) (ground arith)
      | inr other ↦ s.complete e (ground arith) free'
    ];
    distinct = λ d. s.distinct (Distinct-snoc c f.1 d fresh);
    inside = λ h. (h.0, s.inside h.1);
  }

  pub try_cells-Scanned :
      (tried : List Cell) (f : Found) → Scanned tried f (try_cells board tried f)
  unfolding try_cells in_cells
  try_cells-Scanned [] f = record {
    new = [];
    ending = rw append-nil;
    cells = rw append-nil;
    sound = λ e h. absurd (cc h);
    complete = λ e h free. absurd (cc h);
    distinct = λ d. d;
    inside = λ h. tt;
  }
  try_cells-Scanned (c ∷ cs) f =
      let rest = try_cells-Scanned cs (try_cell board c f) in
      let out = try_cells board cs (try_cell board c f) in
      elim (try_cell-cases c f) [
        | inl (same, why) ↦ passed-Scanned c (subst (λ g. Scanned cs g out) same rest) why
        | inr (more, fresh, free) ↦
            found-Scanned c (subst (λ g. Scanned cs g out) more rest) fresh free
      ]

  try_cells-append :
      (xs ys : List Cell) (f : Found)
      → try_cells board (xs ++ ys) f ≡ try_cells board ys (try_cells board xs f)
  unfolding try_cells
  try_cells-append [] ys f = refl
  try_cells-append (x ∷ xs) ys f = try_cells-append xs ys (try_cell board x f)

  scan-eq :
      (starting : List Cell) (f : Found)
      → scan board starting f ≡ try_cells board (all_neighbours starting) f
  unfolding scan all_neighbours
  scan-eq [] f = unfold try_cells in refl
  scan-eq (s ∷ ss) f =
      scan-eq ss (try_cells board (neighbours s) f)
      ∙ sym (try_cells-append (neighbours s) (all_neighbours ss) f)

  pub scan-Scanned :
      (starting : List Cell) (f : Found)
      → Scanned (all_neighbours starting) f (scan board starting f)
  scan-Scanned starting f = rw (scan-eq starting f) (try_cells-Scanned (all_neighbours starting) f)
