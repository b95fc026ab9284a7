-- ===== src/Aquarium/Commands/Execute.antt =====
-- The commands of command.c keep the arrays of the aquarium.
use my_enseirb_matmeca_proje.Base.{
  ℕ, ◌+◌, ◌≡◌, refl, true, ◌⊎◌, inl, inr, List, [], ◌∷◌, ◌++◌, length, drop, some, Bool-cases,
  Option-cases, if_both,
}
use my_enseirb_matmeca_proje.Base.Int.{ℤ, pos}
use my_enseirb_matmeca_proje.Aquarium.{String, str_eq, init, Aquarium, init_aquarium, any}
use my_enseirb_matmeca_proje.Aquarium.Views.{has_id, has_view_by_id, add_view, remove_view}
use my_enseirb_matmeca_proje.Aquarium.Views.Validity.{
  IsValid, init-IsValid, add_view-IsValid, remove_view-IsValid,
}
use my_enseirb_matmeca_proje.Aquarium.Fishes.Names.{IsStocked, init-IsStocked}
use my_enseirb_matmeca_proje.Aquarium.Text.{lines, regex_match, short_numbers}
use my_enseirb_matmeca_proje.Aquarium.Commands.{
  Files, Outcome, Entry, size_pattern, view_pattern, view_word, del_pattern, add_views, read_views,
  load_lines, load_into, command_load, command_save, command_show, command_add_view,
  command_del_view, command_execute, dispatch, load_word, show_word, add_word, del_word, save_word,
  verb_of,
}

-- Both arrays are within their bounds, and their keys are unique.
abbrev pub IsSound : Aquarium → Type 0
IsSound q = IsValid q × IsStocked q

abbrev KeepsArrays : Outcome → Type 0
KeepsArrays o = IsSound o.aquarium

add_view-IsStocked :
    (now : ℤ) (id : String) (x y width height : ℤ) (q : Aquarium)
    → IsStocked q
    → IsStocked (add_view now id x y width height q).0
unfolding add_view
add_view-IsStocked now id x y width height q k = elim (Bool-cases (has_view_by_id id q)) [
  | inl there ↦ rw there k
  | inr new ↦ rw new record { room = k.room; names = k.names }
]

pub add_view-IsSound :
    (now : ℤ) (id : String) (x y width height : ℤ) (q : Aquarium)
    → IsSound q
    → IsSound (add_view now id x y width height q).0
add_view-IsSound now id x y width height q (v, k) = (
  (add_view-IsValid now id x y width height q v).0,
  add_view-IsStocked now id x y width height q k,
)

remove_view-IsStocked : (id : String) (q : Aquarium) → IsStocked q → IsStocked (remove_view id q).0
unfolding remove_view
remove_view-IsStocked id q k = elim (Bool-cases (any (has_id id) q.views)) [
  | inl there ↦ rw there record { room = k.room; names = k.names }
  | inr nowhere ↦ rw nowhere k
]

remove_view-IsSound : (id : String) (q : Aquarium) → IsSound q → IsSound (remove_view id q).0
remove_view-IsSound id q (v, k) = ((remove_view-IsValid id q v).0, remove_view-IsStocked id q k)

add_views-IsSound :
    (now : ℤ) (es : List Entry) (q : Aquarium) → IsSound q → IsSound (add_views now es q)
unfolding add_views
add_views-IsSound now [] q k = k
add_views-IsSound now (e ∷ es) q k =
    add_views-IsSound now es _
      (add_view-IsSound now e.id (pos e.x) (pos e.y) (pos e.width) (pos e.height) q k)

load_into-IsSound :
    (now : ℤ) (width height : ℕ) (es : List Entry)
    → IsSound (load_into now width height es).aquarium
load_into-IsSound now width height es =
    add_views-IsSound now es (init_aquarium width height)
      (init-IsValid width height, init-IsStocked width height)

load_lines-IsSound :
    (now : ℤ) (garbage : ℕ) (ls : List String) (q : Aquarium)
    → IsSound q
    → IsSound (load_lines now garbage ls q).aquarium
unfolding load_lines
load_lines-IsSound now garbage [] q k = load_into-IsSound now garbage 0 []
load_lines-IsSound now garbage (first ∷ rest) q k =
    elim (Option-cases (regex_match size_pattern first)) [
      | inl e ↦ rw (load_lines, e) k
      | inr (ps, e) ↦ go (read_views 0 rest) ps e refl
    ]
  where
    go :
        (r : ℕ ⊎ List Entry) (ps : List String)
        → regex_match size_pattern first ≡ some ps
        → read_views 0 rest ≡ r
        → IsSound (load_lines now garbage (first ∷ rest) q).aquarium
    go (inl n) ps e f = rw (load_lines, e, f) k
    go (inr es) ps e f = rw (load_lines, e, f) (load_into-IsSound now _ _ es)

command_load-IsSound :
    (files : Files) (now : ℤ) (garbage : ℕ) (s : String) (q : Aquarium)
    → IsSound q
    → IsSound (command_load files now garbage s q).aquarium
unfolding command_load
command_load-IsSound files now garbage [] q k = k
command_load-IsSound files now garbage (c ∷ s) q k = elim (Option-cases (files.reads (c ∷ s))) [
  | inl e ↦ rw (command_load, e) k
  | inr (text, e) ↦
      rw (command_load, e) (load_lines-IsSound now garbage (lines (length text) text) q k)
]

command_save-IsSound :
    (files : Files) (s : String) (q : Aquarium)
    → IsSound q
    → IsSound (command_save files s q).aquarium
unfolding command_save
command_save-IsSound files [] q k = k
command_save-IsSound files (c ∷ s) q k = if_both KeepsArrays (files.writes (c ∷ s)) _ _ k k

command_add_view-IsSound :
    (now : ℤ) (s : String) (q : Aquarium) → IsSound q → IsSound (command_add_view now s q).aquarium
unfolding command_add_view
command_add_view-IsSound now s q k =
    elim (Option-cases (regex_match (view_word ++ view_pattern) s)) [
      | inl e ↦ rw (command_add_view, e) k
      | inr (ps, e) ↦ rw (command_add_view, e) (add_view-IsSound now _ _ _ _ _ q k)
    ]

command_del_view-IsSound :
    (s : String) (q : Aquarium) → IsSound q → IsSound (command_del_view s q).aquarium
unfolding command_del_view
command_del_view-IsSound s q k = elim (Option-cases (regex_match del_pattern s)) [
  | inl e ↦ rw (command_del_view, e) k
  | inr (ps, e) ↦ rw (command_del_view, e) (remove_view-IsSound _ q k)
]

dispatch-IsSound :
    (files : Files) (now : ℤ) (garbage : ℕ) (verb rest : String) (q : Aquarium)
    → IsSound q
    → IsSound (dispatch files now garbage verb rest q).aquarium
unfolding dispatch command_show
dispatch-IsSound files now garbage verb rest q k = elim (Bool-cases (str_eq verb load_word)) [
  | inl a ↦ rw (dispatch, a) (command_load-IsSound files now garbage rest q k)
  | inr a ↦ elim (Bool-cases (str_eq verb show_word)) [
    | inl b ↦ rw (dispatch, a, b, command_show) k
    | inr b ↦ elim (Bool-cases (str_eq verb add_word)) [
      | inl c ↦ rw (dispatch, a, b, c) (command_add_view-IsSound now rest q k)
      | inr c ↦ elim (Bool-cases (str_eq verb del_word)) [
        | inl d ↦ rw (dispatch, a, b, c, d) (command_del_view-IsSound rest q k)
        | inr d ↦
            rw (dispatch, a, b, c, d)
              (if_both KeepsArrays (str_eq verb save_word) _ _ (command_save-IsSound files rest q k)
                k)
      ]
    ]
  ]
]

-- What a line and the files must be for `regex_match` to stay within its buffers, and `atoi` within
-- the range of an `int`.
abbrev pub HasShortNumbers : Files → String → Type 0
HasShortNumbers files s =
    (short_numbers s ≡ true)
    × ((name t : String) → files.reads name ≡ some t → short_numbers t ≡ true)

-- Whatever line the administrator types, and whatever the files are, as long as no number in them has
-- ten digits or more: the arrays of views and fishes stay within their bounds, with the next cell
-- allocated, two views have never the same id, two fishes never the same name, and no client has two
-- views.
pub command_execute-IsSound :
    (files : Files) (now : ℤ) (garbage c : ℕ) (s : String) (q : Aquarium)
    → HasShortNumbers files (c ∷ s)
    → IsSound q
    → IsSound (command_execute files now garbage c s q).aquarium
unfolding command_execute
command_execute-IsSound files now garbage c s q short k =
    let message = init c s in
    let verb = verb_of true message in
    dispatch-IsSound files now garbage verb (drop (length verb + 1) message) q k
