-- ===== src/Life/Region.antt =====
-- What it means that a part of an iteration computes the cells of a region, and that parts add up.
use mathlib.Core.Path.{fun_ext}
use my_enseirb_matmeca_proje.Base.{
  ℕ, zero, suc, ◌+◌, ◌-◌, ◌≤◌, ◌<◌, ◌≡◌, ◌↔◌, ◌⊎◌, inl, inr, refl, sym, ap, ap₂, ◌∙◌, subst,
  ℕ_discrete, Bool, true, false, not, ◌&&◌, ◌||◌, ◌==◌, if◌then◌else◌, Bool-cases, arith,
}
use my_enseirb_matmeca_proje.Life.{Images, for_from, yellow, interior, alive}

abbrev pub Region : Type 0
Region = ℕ → ℕ → Bool

-- The rule of the game: a cell lives on with two or three living cells around it, and is born with
-- three.
unfoldable pub rule : Bool → ℕ → Bool
rule true n = n == 2 || n == 3
rule false n = n == 3

-- The living cells among the eight around a cell that is not on the edge.
unfoldable pub living_around : (ℕ → ℕ → ℕ) → ℕ → ℕ → ℕ
living_around img y x =
    alive (img (y - 1) (x - 1))
    + alive (img (y - 1) x)
    + alive (img (y - 1) (x + 1))
    + alive (img y (x - 1))
    + alive (img y (x + 1))
    + alive (img (y + 1) (x - 1))
    + alive (img (y + 1) x)
    + alive (img (y + 1) (x + 1))

unfoldable pub after : (ℕ → ℕ → ℕ) → ℕ → ℕ → Bool
unfolding rule living_around
after img y x = rule (not (img y x == 0)) (living_around img y x)

-- Whether the cell changes from the living to the dead or back.
unfoldable pub turns : (ℕ → ℕ → ℕ) → ℕ → ℕ → Bool
unfolding after
turns img y x = if after img y x then img y x == 0 else not (img y x == 0)

-- A cell of the region, inside the border, that changes.
abbrev pub Turns : ℕ → Region → (ℕ → ℕ → ℕ) → Type 0
Turns dim p img =
    (y : ℕ) × (x : ℕ) × (p y x ≡ true) × (interior dim y x ≡ true) × (turns img y x ≡ true)

pub record Computes (dim : ℕ) (p : Region) (s t : Images × Bool) : Type 0 where
  pub cur : t.0.cur ≡ s.0.cur
  pub next :
      (y x : ℕ)
      → t.0.next y x ≡ (
          if p y x && interior dim y x
          then (if after s.0.cur y x then yellow else 0)
          else s.0.next y x)
  pub change : (t.1 ≡ true) ↔ ((s.1 ≡ true) ⊎ Turns dim p s.0.cur)

-- The union of the regions of the `k` rounds of a loop from `i` on.
pub union : (ℕ → Region) → ℕ → ℕ → Region
union p zero i y x = false
union p (suc k) i y x = p i y x || union p k (i + 1) y x

pub Computes-none : (dim : ℕ) (s : Images × Bool) → Computes dim (λ y x. false) s s
Computes-none dim s = record {
  cur = refl;
  next = λ y x. refl;
  change = (λ h. inl h, λ h. elim h [ inl e ↦ e | inr (y, x, e, f, r) ↦ absurd cc ]);
}

Turns-left :
    (dim : ℕ) (p q : Region) (img : ℕ → ℕ → ℕ)
    → Turns dim p img
    → Turns dim (λ y x. p y x || q y x) img
Turns-left dim p q img (y, x, e, f, r) = (y, x, ground arith, f, r)

Turns-right :
    (dim : ℕ) (p q : Region) (img : ℕ → ℕ → ℕ)
    → Turns dim q img
    → Turns dim (λ y x. p y x || q y x) img
Turns-right dim p q img (y, x, e, f, r) = (y, x, ground arith, f, r)

Turns-cases :
    (dim : ℕ) (p q : Region) (img : ℕ → ℕ → ℕ)
    → Turns dim (λ y x. p y x || q y x) img
    → Turns dim p img ⊎ Turns dim q img
Turns-cases dim p q img (y, x, e, f, r) = elim (Bool-cases (p y x)) [
  | inl h ↦ inl (y, x, h, f, r)
  | inr h ↦ inr (y, x, ground arith, f, r)
]

pub Computes-then :
    {dim : ℕ} {p q : Region} {s t u : Images × Bool}
    → Computes dim p s t
    → Computes dim q t u
    → Computes dim (λ y x. p y x || q y x) s u
Computes-then {dim} {p} {q} {s} {t} {u} a b = record {
  cur = b.cur ∙ a.cur;
  next = λ y x.
      b.next y x
      ∙ ap
          (λ img.
            if q y x && interior dim y x
            then (if after img y x then yellow else 0)
            else t.0.next y x)
          a.cur
      ∙ ground (arith, a.next y x);
  change = (
    λ h. elim (b.change.0 h) [
      | inl c ↦ elim (a.change.0 c) [ inl d ↦ inl d | inr w ↦ inr (Turns-left dim p q s.0.cur w) ]
      | inr w ↦ inr (Turns-right dim p q s.0.cur (subst (Turns dim q) a.cur w))
    ],
    λ h. elim h [
      | inl d ↦ b.change.1 (inl (a.change.1 (inl d)))
      | inr w ↦ elim (Turns-cases dim p q s.0.cur w) [
        | inl l ↦ b.change.1 (inl (a.change.1 (inr l)))
        | inr r ↦ b.change.1 (inr (subst (Turns dim q) (sym a.cur) r))
      ]
    ],
  );
}

-- A loop whose rounds each compute a region.
pub for_from-Computes :
    (dim : ℕ) (p : ℕ → Region) (body : ℕ → Images × Bool → Images × Bool)
    → ((i : ℕ) (s : Images × Bool) → Computes dim (p i) s (body i s))
    → (k i : ℕ) (s : Images × Bool) → Computes dim (union p k i) s (for_from body k i s)
unfolding for_from union
for_from-Computes dim p body h zero i s = Computes-none dim s
for_from-Computes dim p body h (suc k) i s =
    Computes-then (h i s) (for_from-Computes dim p body h k (i + 1) (body i s))

pub union-intro :
    (p : ℕ → Region) (k i j y x : ℕ) → i ≤ j → j < i + k → p j y x ≡ true → union p k i y x ≡ true
unfolding union
union-intro p zero i j y x lo hi h = absurd (omega arith)
union-intro p (suc k) i j y x lo hi h = elim (ℕ_discrete i j) [
  | yes e ↦ rw (e, h) refl
  | no ne ↦ ground (arith, union-intro p k (i + 1) j y x (omega arith) (omega arith) h)
]

Turns-same :
    (dim : ℕ) (p q : Region) (img : ℕ → ℕ → ℕ)
    → ((y x : ℕ) → interior dim y x ≡ true → p y x ≡ q y x)
    → Turns dim p img
    → Turns dim q img
Turns-same dim p q img same (y, x, e, f, r) = (y, x, sym (same y x f) ∙ e, f, r)

pub true_iff-eq : (b c : Bool) → (b ≡ true → c ≡ true) → (c ≡ true → b ≡ true) → b ≡ c
true_iff-eq true c f g = sym (f refl)
true_iff-eq false true f g = g refl
true_iff-eq false false f g = refl

Images-eq : (s t : Images) → s.cur ≡ t.cur → s.next ≡ t.next → s ≡ t
Images-eq s t e f = ap₂ (λ c n. record { cur = c; next = n }) e f

-- What computes regions that are the same inside the border computes the same.
pub Computes-eq :
    {dim : ℕ} {p q : Region} {s t u : Images × Bool}
    → Computes dim p s t
    → Computes dim q s u
    → ((y x : ℕ) → interior dim y x ≡ true → p y x ≡ q y x)
    → t ≡ u
Computes-eq {dim} {p} {q} {s} {t} {u} a b same =
    ap₂ (λ i c. (i, c))
      (Images-eq t.0 u.0 (a.cur ∙ sym b.cur) (fun_ext (λ y. fun_ext (λ x. next y x))))
      (true_iff-eq t.1 u.1 (λ h. b.change.1 (through p q same (a.change.0 h)))
        (λ h. a.change.1 (through q p (λ y x i. sym (same y x i)) (b.change.0 h))))
  where
    next : (y x : ℕ) → t.0.next y x ≡ u.0.next y x
    next y x = elim (Bool-cases (interior dim y x)) [
      | inl i ↦ a.next y x ∙ rw (same y x i) (sym (b.next y x))
      | inr o ↦ a.next y x ∙ ground (arith, b.next y x)
    ]

    through :
        (v w : Region)
        → ((y x : ℕ) → interior dim y x ≡ true → v y x ≡ w y x)
        → (s.1 ≡ true) ⊎ Turns dim v s.0.cur
        → (s.1 ≡ true) ⊎ Turns dim w s.0.cur
    through v w e h = elim h [ inl c ↦ inl c | inr k ↦ inr (Turns-same dim v w s.0.cur e k) ]
