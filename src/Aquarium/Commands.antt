-- ===== src/Aquarium/Commands.antt =====
-- command.c of the controller: the administrator's commands. Files are what `fopen` finds, and the
-- colours of what is printed are left out.
pub mod Saved
pub mod Execute
mod Tests
use my_enseirb_matmeca_proje.Base.{
  ℕ, zero, suc, ◌+◌, Bool, true, false, not, ◌&&◌, ◌==◌, if◌then◌else◌, ◌⊎◌, inl, inr, List, [],
  ◌∷◌, ◌++◌, length, drop, get_or, Option, none, some,
}
use my_enseirb_matmeca_proje.Base.Int.{ℤ, pos}
use my_enseirb_matmeca_proje.Aquarium.{String, str_eq, init, View, Aquarium, init_aquarium}
use my_enseirb_matmeca_proje.Aquarium.Views.{add_view, remove_view}
use my_enseirb_matmeca_proje.Aquarium.Text.{
  line, lines, decimal, print_int, atoi, char, digit, digit_or, Part, plain, group, regex_match,
}

-- The file system: the text of a file that can be read, and the files that can be written.
pub record Files : Type 0 where
  pub reads : String → Option String
  pub writes : String → Bool

-- What a command prints.
pub data Answer : Type 0 where
  no_name no_file bad_size bad_add bad_del view_added : Answer
  bad_line loaded saved : ℕ → Answer
  shown view_exists view_deleted unknown_view unknown_command : String → Answer

-- The text that was written to a file, if any.
pub record Outcome : Type 0 where
  pub aquarium : Aquarium
  pub written : Option String
  pub answer : Answer

abbrev quiet : Aquarium → Answer → Outcome
quiet q a = record { aquarium = q; written = none; answer = a }

-- `x`, `+` and a space between the numbers.
abbrev pub size_pattern : List Part
size_pattern = group (digit 1 none ∷ []) ∷ plain (char 120) ∷ group (digit 1 none ∷ []) ∷ []

abbrev short_number : Part
short_number = group (digit 1 (some 4) ∷ [])

abbrev pub view_pattern : List Part
view_pattern =
    group (char 78 ∷ digit 1 (some 1) ∷ [])
    ∷ plain (char 32)
    ∷ short_number
    ∷ plain (char 120)
    ∷ short_number
    ∷ plain (char 43)
    ∷ short_number
    ∷ plain (char 43)
    ∷ short_number
    ∷ []

-- A view as the loop of `command_load` reads it.
pub record Entry : Type 0 where
  pub id : String
  pub x : ℕ
  pub y : ℕ
  pub width : ℕ
  pub height : ℕ

abbrev pub entry : List String → Entry
entry ps = record {
  id = get_or ps 0 [];
  x = atoi (get_or ps 1 []);
  y = atoi (get_or ps 2 []);
  width = atoi (get_or ps 3 []);
  height = atoi (get_or ps 4 []);
}

-- The second loop's lines: the views, or the number of views before the line that is wrong.
unfoldable pub read_views : ℕ → List String → ℕ ⊎ List Entry
unfolding regex_match
read_views n [] = inr []
read_views n (l ∷ ls) = elim (regex_match view_pattern l) [
  | none ↦ inl n
  | some ps ↦ elim (read_views (n + 1) ls) [ inl k ↦ inl k | inr es ↦ inr (entry ps ∷ es) ]
]

unfoldable pub add_views : ℤ → List Entry → Aquarium → Aquarium
unfolding add_view
add_views now [] q = q
add_views now (e ∷ es) q =
    add_views now es (add_view now e.id (pos e.x) (pos e.y) (pos e.width) (pos e.height) q).0

abbrev pub load_into : ℤ → ℕ → ℕ → List Entry → Outcome
load_into now width height es =
    let q = add_views now es (init_aquarium width height) in quiet q (loaded (length q.views))

-- What `command_load` does with the lines of the file; `garbage` is what stands in `width`, which is
-- not initialised when the file is empty.
unfoldable pub load_lines : ℤ → ℕ → List String → Aquarium → Outcome
unfolding regex_match read_views add_views init_aquarium
load_lines now garbage [] q = load_into now garbage 0 []
load_lines now garbage (first ∷ rest) q = elim (regex_match size_pattern first) [
  | none ↦ quiet q bad_size
  | some ps ↦ elim (read_views 0 rest) [
    | inl n ↦ quiet q (bad_line n)
    | inr es ↦ load_into now (atoi (get_or ps 0 [])) (atoi (get_or ps 1 [])) es
  ]
]

unfoldable pub command_load : Files → ℤ → ℕ → String → Aquarium → Outcome
unfolding load_lines lines
command_load files now garbage [] q = quiet q no_name
command_load files now garbage (c ∷ s) q = elim (files.reads (c ∷ s)) [
  | none ↦ quiet q no_file
  | some text ↦ load_lines now garbage (lines (length text) text) q
]

abbrev pub print_size : Aquarium → String
print_size q = decimal q.width ++ (120 ∷ decimal q.height)

abbrev pub print_view : View → String
print_view v =
    v.id
    ++ (32 ∷ print_int v.x
        ++ (120 ∷ print_int v.y ++ (43 ∷ print_int v.width ++ (43 ∷ print_int v.height))))

-- A line for each view, after a prefix.
unfoldable pub print_views : String → List View → String
print_views prefix [] = []
print_views prefix (v ∷ vs) = prefix ++ line (print_view v) ++ print_views prefix vs

abbrev pub saved_text : Aquarium → String
saved_text q = line (print_size q) ++ print_views [] q.views

unfoldable pub command_save : Files → String → Aquarium → Outcome
unfolding print_views
command_save files [] q = quiet q no_name
command_save files (c ∷ s) q =
    if files.writes (c ∷ s)
    then record { aquarium = q; written = some (saved_text q); answer = saved (length q.views) }
    else quiet q no_file

unfoldable pub command_show : Aquarium → Outcome
unfolding print_views
command_show q =
    let two : String = 32 ∷ 32 ∷ [] in
    quiet q (shown (two ++ line (print_size q) ++ print_views two q.views))

-- "view ".
abbrev pub view_word : List Part
view_word =
    plain (char 118) ∷ plain (char 105) ∷ plain (char 101) ∷ plain (char 119) ∷ plain (char 32) ∷ []

unfoldable pub command_add_view : ℤ → String → Aquarium → Outcome
unfolding regex_match add_view
command_add_view now message q = elim (regex_match (view_word ++ view_pattern) message) [
  | none ↦ quiet q bad_add
  | some ps ↦
      let id = get_or ps 0 [] in
      let number : ℕ → ℤ = λ i. pos (atoi (get_or ps i [])) in
      let (q', failed) = add_view now id (number 3) (number 4) (number 1) (number 2) q in
      quiet q' (if failed == 0 then view_added else view_exists id)
]

-- The class in the expression is `[` or a digit.
abbrev pub del_pattern : List Part
del_pattern = view_word ++ (group (char 78 ∷ digit_or 91 ∷ []) ∷ [])

unfoldable pub command_del_view : String → Aquarium → Outcome
unfolding regex_match remove_view
command_del_view message q = elim (regex_match del_pattern message) [
  | none ↦ quiet q bad_del
  | some ps ↦
      let id = get_or ps 0 [] in
      let (q', failed) = remove_view id q in
      quiet q' (if failed == 0 then view_deleted id else unknown_view id)
]

-- The first word of a text, with the blanks before it.
unfoldable pub verb_of : Bool → String → String
verb_of before [] = []
verb_of before (c ∷ s) =
    let rest = verb_of (before && c == 32) s in if c == 32 && not before then [] else c ∷ rest

abbrev pub load_word : String
load_word = 108 ∷ 111 ∷ 97 ∷ 100 ∷ []

abbrev pub show_word : String
show_word = 115 ∷ 104 ∷ 111 ∷ 119 ∷ []

abbrev pub add_word : String
add_word = 97 ∷ 100 ∷ 100 ∷ []

abbrev pub del_word : String
del_word = 100 ∷ 101 ∷ 108 ∷ []

abbrev pub save_word : String
save_word = 115 ∷ 97 ∷ 118 ∷ 101 ∷ []

-- What is done for a verb and the rest of the line.
unfoldable pub dispatch : Files → ℤ → ℕ → String → String → Aquarium → Outcome
unfolding str_eq command_load command_show command_add_view command_del_view command_save
dispatch files now garbage verb rest q =
    if str_eq verb load_word
    then command_load files now garbage rest q
    else if str_eq verb show_word
    then command_show q
    else if str_eq verb add_word
    then command_add_view now rest q
    else if str_eq verb del_word
    then command_del_view rest q
    else if str_eq verb save_word
    then command_save files rest q
    else quiet q (unknown_command verb)

-- The command that stands in the line `c ∷ s`, whose last character is the newline.
unfoldable pub command_execute : Files → ℤ → ℕ → ℕ → String → Aquarium → Outcome
unfolding verb_of init dispatch
command_execute files now garbage c s q =
    let message = init c s in
    let verb = verb_of true message in
    dispatch files now garbage verb (drop (length verb + 1) message) q
