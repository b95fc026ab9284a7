-- ===== src/Aquarium/Commands/Saved.antt =====
-- The lines that command.c writes for an aquarium, read again.
pub mod Loaded
use my_enseirb_matmeca_proje.Base.{
  ℕ, suc, ◌+◌, ◌^◌, true, ◌&&◌, ◌<◌, ◌≤◌, ◌≡◌, refl, ap, sym, ◌∙◌, List, [], ◌∷◌, ◌++◌,
  append_assoc, append-nil, length, length-append, get_or, Option, none, some, arith,
}
use my_enseirb_matmeca_proje.Base.Int.{ℤ, pos, pos_part}
use my_enseirb_matmeca_proje.Aquarium.{String, View, Aquarium}
use my_enseirb_matmeca_proje.Aquarium.Text.{
  newline, line, digits, decimal, atoi, print_int, regex_match,
}
use my_enseirb_matmeca_proje.Aquarium.Text.Numbers.{length-digits, atoi-decimal, digits-all_digits}
use my_enseirb_matmeca_proje.Aquarium.Text.Patterns.{
  match-end, match-number, match-char, match-name,
}
use my_enseirb_matmeca_proje.Aquarium.Text.Lines.{
  one_line, one_line-append, one_line-digits, IsLine,
}
use my_enseirb_matmeca_proje.Aquarium.Commands.{
  Entry, entry, size_pattern, view_pattern, print_size, print_view,
}

-- A number of at most four digits.
pub record IsSmall (z : ℤ) : Type 0 where
  pub natural : z ≡ pos (pos_part z)
  pub bound : pos_part z < 10000

-- A view as the administrator's commands make it.
pub record IsShort (v : View) : Type 0 where
  pub number : ℕ
  pub one_digit : number < 10
  pub id : v.id ≡ 78 ∷ (48 + number) ∷ []
  pub x : IsSmall v.x
  pub y : IsSmall v.y
  pub width : IsSmall v.width
  pub height : IsSmall v.height

abbrev pub entry_of : View → Entry
entry_of v = record {
  id = v.id;
  x = pos_part v.x;
  y = pos_part v.y;
  width = pos_part v.width;
  height = pos_part v.height;
}

print_small : (z : ℤ) → IsSmall z → print_int z ≡ decimal (pos_part z)
print_small z s = rw s.natural refl

small_length : (z : ℤ) → IsSmall z → length (decimal (pos_part z)) ≤ 4
small_length z s = length-digits (suc (pos_part z)) (pos_part z) 3 (omega (arith, s.bound))

-- The line of a view with its end, for what the numbers print.
view_line :
    (id a b c d t : String)
    → (id ++ (32 ∷ a ++ (120 ∷ b ++ (43 ∷ c ++ (43 ∷ d))))) ++ t
      ≡ id ++ (32 ∷ a ++ (120 ∷ b ++ (43 ∷ c ++ (43 ∷ d ++ t))))
view_line id a b c d t = simp append_assoc refl

pub match-view :
    (v : View)
    → IsShort v
    → regex_match view_pattern (line (print_view v))
      ≡ some (
          v.id
          ∷ decimal (pos_part v.x)
          ∷ decimal (pos_part v.y)
          ∷ decimal (pos_part v.width)
          ∷ decimal (pos_part v.height)
          ∷ [])
match-view v s =
    rw
      (
        view_line v.id (print_int v.x) (print_int v.y) (print_int v.width) (print_int v.height)
            (newline ∷ []),
        print_small v.x s.x,
        print_small v.y s.y,
        print_small v.width s.width,
        print_small v.height s.height,
        s.id,
      )
      (match-name _ _ 78 s.number _ s.one_digit (
        match-char _ _ 32 _ (
          match-number _ _ (pos_part v.x) _ (some 4) (small_length v.x s.x) refl (
            match-char _ _ 120 _ (
              match-number _ _ (pos_part v.y) _ (some 4) (small_length v.y s.y) refl (
                match-char _ _ 43 _ (
                  match-number _ _ (pos_part v.width) _ (some 4) (small_length v.width s.width) refl
                    (match-char _ _ 43 _ (
                      match-number [] [] (pos_part v.height) _ (some 4)
                        (small_length v.height s.height) refl (match-end _))))))))))

-- The parameters are the view's numbers.
pub entry-view :
    (v : View)
    → entry (
        v.id
        ∷ decimal (pos_part v.x)
        ∷ decimal (pos_part v.y)
        ∷ decimal (pos_part v.width)
        ∷ decimal (pos_part v.height)
        ∷ [])
      ≡ entry_of v
entry-view v =
    rw
      (
        atoi-decimal (pos_part v.x),
        atoi-decimal (pos_part v.y),
        atoi-decimal (pos_part v.width),
        atoi-decimal (pos_part v.height),
      )
      refl

pub match-size :
    (q : Aquarium)
    → regex_match size_pattern (line (print_size q))
      ≡ some (decimal q.width ∷ decimal q.height ∷ [])
match-size q = rw (append_assoc (decimal q.width) (120 ∷ decimal q.height) (newline ∷ [])) (
    match-number _ _ q.width _ none (omega arith) refl
      (match-char _ _ 120 _ (match-number [] [] q.height _ none (omega arith) refl (match-end _))))

-- A printed number is a part of a line.
decimal-one_line : (n : ℕ) → one_line (decimal n) ≡ true
decimal-one_line n = one_line-digits (decimal n) (digits-all_digits (suc n) n)

print_view-shape :
    (id a b c d : String)
    → one_line (id ++ (32 ∷ a ++ (120 ∷ b ++ (43 ∷ c ++ (43 ∷ d)))))
      ≡ one_line id && (one_line a && (one_line b && (one_line c && one_line d)))
print_view-shape id a b c d =
    one_line-append id (32 ∷ a ++ (120 ∷ b ++ (43 ∷ c ++ (43 ∷ d))))
    ∙ ap (λ r. one_line id && r) (one_line-append a (120 ∷ b ++ (43 ∷ c ++ (43 ∷ d))))
    ∙ ap (λ r. one_line id && (one_line a && r)) (one_line-append b (43 ∷ c ++ (43 ∷ d)))
    ∙ ap (λ r. one_line id && (one_line a && (one_line b && r))) (one_line-append c (43 ∷ d))

print_view-length :
    (id a b c d : String)
    → length (id ++ (32 ∷ a ++ (120 ∷ b ++ (43 ∷ c ++ (43 ∷ d)))))
      ≡ length id + length a + length b + length c + length d + 4
print_view-length id a b c d = omega (
  arith,
  length-append id (32 ∷ a ++ (120 ∷ b ++ (43 ∷ c ++ (43 ∷ d)))),
  length-append a (120 ∷ b ++ (43 ∷ c ++ (43 ∷ d))),
  length-append b (43 ∷ c ++ (43 ∷ d)),
  length-append c (43 ∷ d),
)

pub print_view-IsLine : (v : View) → IsShort v → IsLine (print_view v)
print_view-IsLine v s =
    rw
      (
        print_small v.x s.x,
        print_small v.y s.y,
        print_small v.width s.width,
        print_small v.height s.height,
      )
      record {
        whole =
            print_view-shape v.id _ _ _ _
            ∙ ground (
              arith,
              ap one_line s.id,
              s.one_digit,
              decimal-one_line (pos_part v.x),
              decimal-one_line (pos_part v.y),
              decimal-one_line (pos_part v.width),
              decimal-one_line (pos_part v.height),
            );
        short = omega (
          arith,
          print_view-length v.id (decimal (pos_part v.x)) (decimal (pos_part v.y))
              (decimal (pos_part v.width)) (decimal (pos_part v.height)),
          ap length s.id,
          small_length v.x s.x,
          small_length v.y s.y,
          small_length v.width s.width,
          small_length v.height s.height,
        );
      }

pub print_size-IsLine :
    (q : Aquarium) → q.width < 10 ^ 10 → q.height < 10 ^ 10 → IsLine (print_size q)
print_size-IsLine q w h = record {
  whole = ground (
    arith,
    one_line-append (decimal q.width) (120 ∷ decimal q.height),
    decimal-one_line q.width,
    decimal-one_line q.height,
  );
  short = omega (
    arith,
    length-append (decimal q.width) (120 ∷ decimal q.height),
    length-digits (suc q.width) q.width 9 w,
    length-digits (suc q.height) q.height 9 h,
  );
}
