-- ===== src/Life/Lazy/Tests.antt =====
-- The lazy tiles of vie.c at a blinker.
use my_enseirb_matmeca_proje.Base.{
  ℕ, ◌≡◌, ◌⊎◌, refl, inl, inr, true, false, ◌&&◌, ◌||◌, ◌==◌, Bool-cases, arith,
}
use my_enseirb_matmeca_proje.Life.{yellow, interior, vie_compute_seq_basic}
use my_enseirb_matmeca_proje.Life.Tests.{blinker}
use my_enseirb_matmeca_proje.Life.Lazy.{opti_rounds, vie_compute_seq_tuilee_opti, vie_init}
use my_enseirb_matmeca_proje.Life.Lazy.Rounds.{
  basic_rounds, opti_rounds-basic_eq, tuilee_opti-basic_eq,
}

blinker_painted :
    (y x : ℕ) → interior 5 y x ≡ true → (blinker.cur y x ≡ 0) ⊎ (blinker.cur y x ≡ yellow)
blinker_painted y x h = elim (Bool-cases (y == 2 && (x == 1 || x == 2 || x == 3))) [
  | inl e ↦ inr (rw e refl)
  | inr e ↦ inl (rw e refl)
]

blinker_border : (y x : ℕ) → interior 5 y x ≡ false → blinker.cur y x ≡ blinker.next y x
blinker_border y x h = ground arith

opti_rounds-basic_eq_example :
    let (l, its) = opti_rounds 5 2 4 (vie_init blinker) in
    (l.images, its) ≡ basic_rounds 5 4 blinker
opti_rounds-basic_eq_example =
    opti_rounds-basic_eq 5 2 4 blinker (omega arith) (omega arith) blinker_painted blinker_border

tuilee_opti-basic_eq_example :
    let (l, n) = vie_compute_seq_tuilee_opti 5 2 3 (vie_init blinker) in
    (l.images, n) ≡ vie_compute_seq_basic 5 3 blinker
tuilee_opti-basic_eq_example = tuilee_opti-basic_eq 5 2 3 blinker (omega arith) (omega arith)
