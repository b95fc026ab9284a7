-- ===== src/Life/Lazy/Rounds.antt =====
-- The version of vie.c with lazy tiles against the basic one.
use my_enseirb_matmeca_proje.Base.{
  ℕ, zero, suc, ◌+◌, ◌-◌, ◌*◌, ◌/◌, ◌≤◌, ◌<◌, ◌≡◌, ◌⊎◌, refl, sym, ap, inl, inr, true, false, ◌==◌,
  if◌then◌else◌, List, [], ◌∷◌, Bool-cases,
}
use my_enseirb_matmeca_proje.Life.{
  Images, yellow, interior, swap_images, iterate, traiter_tuile_basic, vie_compute_seq_basic,
}
use my_enseirb_matmeca_proje.Life.Lazy.{
  Lazy, sweep, iterate_lazy, vie_compute_seq_tuilee_opti, opti_rounds, vie_init, vie_refresh_img,
}
use my_enseirb_matmeca_proje.Life.Lazy.Ready.{IsReady, sweep-basic, sweep_all-basic}
use my_enseirb_matmeca_proje.Life.Lazy.Kept.{refresh-IsReady, init-IsReady}

-- The same loop with the basic version.
unfoldable pub basic_rounds : ℕ → ℕ → Images → Images × List ℕ
unfolding vie_compute_seq_basic
basic_rounds dim zero s = (s, [])
basic_rounds dim (suc n) s =
    let (s', it) = vie_compute_seq_basic dim 1 s in
    let (s'', its) = basic_rounds dim n s' in if it == 0 then (s'', it ∷ its) else (s', it ∷ [])

abbrev after_sweep : ℕ → ℕ → Lazy → Lazy
after_sweep dim grain l =
    let w = sweep dim grain l in record l { images = swap_images w.images; after = w.marks }

one_iteration :
    (dim grain : ℕ) (l : Lazy)
    → vie_compute_seq_tuilee_opti dim grain 1 l
      ≡ (after_sweep dim grain l, if (sweep dim grain l).change then 0 else 1)
unfolding vie_compute_seq_tuilee_opti iterate_lazy
one_iteration dim grain l = elim (Bool-cases (sweep dim grain l).change) [
  | inl e ↦ rw (vie_compute_seq_tuilee_opti, iterate_lazy, e) refl
  | inr e ↦ rw (vie_compute_seq_tuilee_opti, iterate_lazy, e) refl
]

basic_iteration :
    (dim : ℕ) (s : Images)
    → let (t, change) = traiter_tuile_basic dim 0 0 (dim - 1) (dim - 1) s in
      vie_compute_seq_basic dim 1 s ≡ (swap_images t, if change then 0 else 1)
unfolding vie_compute_seq_basic iterate
basic_iteration dim s = elim (Bool-cases (traiter_tuile_basic dim 0 0 (dim - 1) (dim - 1) s).1) [
  | inl e ↦ rw (vie_compute_seq_basic, iterate, e) refl
  | inr e ↦ rw (vie_compute_seq_basic, iterate, e) refl
]

rounds_lem :
    (dim grain n : ℕ) (l : Lazy)
    → 0 < grain
    → dim ≤ grain * (dim / grain) + 2
    → IsReady dim grain l
    → let (l', its) = opti_rounds dim grain n l in (l'.images, its) ≡ basic_rounds dim n l.images
unfolding opti_rounds basic_rounds
rounds_lem dim grain zero l p f r = refl
rounds_lem dim grain (suc n) l p f r =
    let w = sweep dim grain l in
    rw
      (
        opti_rounds,
        basic_rounds,
        one_iteration dim grain l,
        basic_iteration dim l.images,
        sym (sweep-basic dim grain p f l r),
      )
      (elim (Bool-cases w.change) [
        | inl c ↦ rw c (
            ap (λ q. (q.0, 0 ∷ q.1))
              (rounds_lem dim grain n (vie_refresh_img (after_sweep dim grain l)) p f
                (refresh-IsReady dim grain p f l r)))
        | inr c ↦ rw c refl
      ])

-- An image that is shown after each iteration, until one finds it stable, `n` times at most: when GRAIN is positive, the tiles leave at most two
-- rows and columns uncovered, the cells inside the border are dead (0) or alive (0xFFFF00FF) and the
-- two images have the same border, then the version that skips the tiles around which nothing has
-- changed shows the same images as the basic one, and returns the same numbers.
pub opti_rounds-basic_eq :
    (dim grain n : ℕ) (s : Images)
    → 0 < grain
    → dim ≤ grain * (dim / grain) + 2
    → ((y x : ℕ) → interior dim y x ≡ true → (s.cur y x ≡ 0) ⊎ (s.cur y x ≡ yellow))
    → ((y x : ℕ) → interior dim y x ≡ false → s.cur y x ≡ s.next y x)
    → let (l, its) = opti_rounds dim grain n (vie_init s) in (l.images, its) ≡ basic_rounds dim n s
opti_rounds-basic_eq dim grain n s p f painted border =
    rounds_lem dim grain n (vie_init s) p f (init-IsReady dim grain s painted border)

batch_lem :
    (dim grain k it : ℕ) (l : Lazy)
    → 0 < grain
    → dim ≤ grain * (dim / grain) + 2
    → l.before ≡ (λ i j. true)
    → let (l', n) = iterate_lazy dim grain k it l in
      (l'.images, n) ≡ iterate (traiter_tuile_basic dim 0 0 (dim - 1) (dim - 1)) k it l.images
unfolding iterate_lazy iterate
batch_lem dim grain zero it l p f e = refl
batch_lem dim grain (suc k) it l p f e =
    let rest = batch_lem dim grain k (it + 1) (after_sweep dim grain l) p f e in
    rw (iterate, sym (sweep_all-basic dim grain p f l e))
      (elim (Bool-cases (sweep dim grain l).change) [
        | inl c ↦ rw (iterate_lazy, c) rest
        | inr c ↦ rw (iterate_lazy, c) refl
      ])

-- An image that is never shown, so that no mark is read after the first ones: when GRAIN is positive
-- and the tiles leave at most two rows and columns uncovered, any number of iterations of the
-- version with lazy tiles computes the same images, and returns the same number, as the basic one.
pub tuilee_opti-basic_eq :
    (dim grain nb_iter : ℕ) (s : Images)
    → 0 < grain
    → dim ≤ grain * (dim / grain) + 2
    → let (l, n) = vie_compute_seq_tuilee_opti dim grain nb_iter (vie_init s) in
      (l.images, n) ≡ vie_compute_seq_basic dim nb_iter s
unfolding vie_compute_seq_tuilee_opti vie_compute_seq_basic
tuilee_opti-basic_eq dim grain nb_iter s p f = batch_lem dim grain nb_iter 1 (vie_init s) p f refl
