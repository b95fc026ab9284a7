-- ===== src/Aquarium/Commands/Saved/Loaded.antt =====
-- The aquarium that command.c loads from the lines that it has written.
use my_enseirb_matmeca_proje.Base.{
  ℕ, suc, ◌+◌, ◌^◌, ◌<◌, ◌≤◌, ◌≡◌, refl, ap, sym, ◌∙◌, true, false, inl, inr, List, [], ◌∷◌, ◌++◌,
  append_assoc, append-nil, length, count_if, count_if-append, none, some, arith, Bool-cases,
  if_some,
}
use my_enseirb_matmeca_proje.Base.Int.{ℤ, pos}
use my_enseirb_matmeca_proje.Aquarium.{String, View, Aquarium, init_aquarium, any, grow}
use my_enseirb_matmeca_proje.Aquarium.Tables.{str_eq_refl, any-count_if}
use my_enseirb_matmeca_proje.Aquarium.Tables.Keys.{Unique}
use my_enseirb_matmeca_proje.Aquarium.Views.{has_id, no_socket, has_view_by_id, add_view}
use my_enseirb_matmeca_proje.Aquarium.Text.{line, lines}
use my_enseirb_matmeca_proje.Aquarium.Text.Numbers.{atoi-decimal}
use my_enseirb_matmeca_proje.Aquarium.Text.Lines.{text, AllLines, end, next, all_lines, lines-text}
use my_enseirb_matmeca_proje.Aquarium.Commands.{
  Files, Outcome, Entry, read_views, add_views, load_lines, command_load, command_save, print_size,
  print_view, print_views, saved_text, loaded,
}
use my_enseirb_matmeca_proje.Aquarium.Commands.Saved.{
  IsShort, entry_of, match-view, entry-view, match-size, print_view-IsLine, print_size-IsLine,
}

pub data AllShort : List View → Type 0 where
  end_short : AllShort []
  next_short : (v : View) (vs : List View) → IsShort v → AllShort vs → AllShort (v ∷ vs)

-- A view that was just added: no client has it.
abbrev pub fresh : ℤ → View → View
fresh now v = record v { fd_socket = no_socket; last_ping_timestamp = now }

abbrev pub all_fresh : ℤ → List View → List View
all_fresh now [] = []
all_fresh now (v ∷ vs) = fresh now v ∷ all_fresh now vs

abbrev entries : List View → List Entry
entries [] = []
entries (v ∷ vs) = entry_of v ∷ entries vs

abbrev bodies : List View → List String
bodies [] = []
bodies (v ∷ vs) = print_view v ∷ bodies vs

print_views-text : (vs : List View) → print_views [] vs ≡ text (bodies vs)
unfolding print_views text
print_views-text [] = refl
print_views-text (v ∷ vs) = ap (λ t. line (print_view v) ++ t) (print_views-text vs)

bodies-AllLines : (vs : List View) → AllShort vs → AllLines (bodies vs)
bodies-AllLines [] a = end
bodies-AllLines (v ∷ vs) (next_short _ _ s a) =
    next (print_view v) (bodies vs) (print_view-IsLine v s) (bodies-AllLines vs a)

read_views-lines :
    (n : ℕ) (vs : List View) → AllShort vs → read_views n (all_lines (bodies vs)) ≡ inr (entries vs)
unfolding read_views
read_views-lines n [] a = refl
read_views-lines n (v ∷ vs) (next_short _ _ s a) =
    rw (read_views, match-view v s, read_views-lines (n + 1) vs a, entry-view v) refl

-- The view that is added for an entry.
new_view :
    (now : ℤ) (v : View) (q : Aquarium)
    → IsShort v
    → has_view_by_id v.id q ≡ false
    → let e = entry_of v in
      (add_view now e.id (pos e.x) (pos e.y) (pos e.width) (pos e.height) q).0 ≡ record q {
        views_size = grow (length q.views) q.views_size;
        views = q.views ++ (fresh now v ∷ []);
      }
unfolding add_view
new_view now v q s h = rw (h, s.x.natural, s.y.natural, s.width.natural, s.height.natural) refl

absent_lem :
    (acc vs : List View) (v : View)
    → ((k : String) → count_if (has_id k) acc + count_if (has_id k) (v ∷ vs) ≤ 1)
    → any (has_id v.id) acc ≡ false
absent_lem acc vs v u = ground (arith, any-count_if (has_id v.id) acc, u v.id, str_eq_refl v.id)

-- The views are added one after the other.
add_views-entries :
    (now : ℤ) (vs : List View) (q : Aquarium)
    → AllShort vs
    → ((k : String) → count_if (has_id k) q.views + count_if (has_id k) vs ≤ 1)
    → let q' = add_views now (entries vs) q in
      (q'.views ≡ q.views ++ all_fresh now vs)
      × (q'.width ≡ q.width)
      × (q'.height ≡ q.height)
      × (q'.fishes ≡ q.fishes)
unfolding add_views has_view_by_id
add_views-entries now [] q a u = (sym (append-nil q.views), refl, refl, refl)
add_views-entries now (v ∷ vs) q (next_short _ _ s a) u =
    let one : Aquarium = record q {
      views_size = grow (length q.views) q.views_size;
      views = q.views ++ (fresh now v ∷ []);
    } in
    let apart : (k : String)
        → count_if (has_id k) (q.views ++ (fresh now v ∷ [])) + count_if (has_id k) vs ≤ 1 =
      λ k. omega (arith, u k, count_if-append (has_id k) q.views (fresh now v ∷ [])) in
    let (views, w, h, f) = add_views-entries now vs one a apart in
    rw (add_views, new_view now v q s (absent_lem q.views vs v u))
      (views ∙ append_assoc q.views (fresh now v ∷ []) (all_fresh now vs), w, h, f)

length-all_fresh : (now : ℤ) (vs : List View) → length (all_fresh now vs) ≡ length vs
length-all_fresh now [] = refl
length-all_fresh now (v ∷ vs) = ap suc (length-all_fresh now vs)

-- What `command_load` makes of the lines of a saved text.
pub record IsLoaded (now : ℤ) (q : Aquarium) (out : Outcome) : Type 0 where
  pub width : out.aquarium.width ≡ q.width
  pub height : out.aquarium.height ≡ q.height
  pub views : out.aquarium.views ≡ all_fresh now q.views
  pub fishes : out.aquarium.fishes ≡ []
  pub answer : out.answer ≡ loaded (length q.views)

load_lines-saved :
    (now : ℤ) (garbage : ℕ) (q other : Aquarium)
    → AllShort q.views
    → Unique (λ v. v.id) q.views
    → IsLoaded now q
        (load_lines now garbage (line (print_size q) ∷ all_lines (bodies q.views)) other)
unfolding load_lines init_aquarium
load_lines-saved now garbage q other a u =
    let (views, w, h, f) =
      add_views-entries now q.views (init_aquarium q.width q.height) a (λ k. omega (arith, u k)) in
    rw
      (
        load_lines,
        match-size q,
        read_views-lines 0 q.views a,
        atoi-decimal q.width,
        atoi-decimal q.height,
      )
      record {
        width = w;
        height = h;
        views = views;
        fishes = f;
        answer = ap (λ n. loaded n) (ap length views ∙ length-all_fresh now q.views);
      }

lines-saved :
    (q : Aquarium)
    → q.width < 10 ^ 10
    → q.height < 10 ^ 10
    → AllShort q.views
    → lines (length (saved_text q)) (saved_text q)
      ≡ line (print_size q) ∷ all_lines (bodies q.views)
unfolding text
lines-saved q w h a =
    let ss : List String = print_size q ∷ bodies q.views in
    rw (print_views-text q.views) (
      lines-text (length (text ss)) ss
        (next _ _ (print_size-IsLine q w h) (bodies-AllLines q.views a)) (omega arith))

command_save-written :
    (files : Files) (c : ℕ) (s t : String) (q : Aquarium)
    → (command_save files (c ∷ s) q).written ≡ some t
    → saved_text q ≡ t
unfolding command_save
command_save-written files c s t q e = elim (Bool-cases (files.writes (c ∷ s))) [
  | inl ok ↦
      let known : (command_save files (c ∷ s) q).written ≡ some (saved_text q) =
        rw (command_save, ok) refl in
      sym (if_some true (saved_text q) t (sym known ∙ e)).1
  | inr bad ↦
      let known : (command_save files (c ∷ s) q).written ≡ none = rw (command_save, bad) refl in
      absurd cc
]

-- An aquarium is saved, and the file is loaded later, whatever the aquarium is then. When the ids of
-- the saved views are distinct, each an "N" and a digit, when their positions and sizes are between
-- 0 and 9999, and when the sizes of the aquarium are each an `int`, the loaded aquarium has
-- the same size, and the same views in the same order, each with no client; it has no fish.
pub save-load :
    (files later : Files) (now : ℤ) (garbage c : ℕ) (s t : String) (q other : Aquarium)
    → q.width < 2 ^ 31
    → q.height < 2 ^ 31
    → AllShort q.views
    → Unique (λ v. v.id) q.views
    → (command_save files (c ∷ s) q).written ≡ some t
    → later.reads (c ∷ s) ≡ some t
    → IsLoaded now q (command_load later now garbage (c ∷ s) other)
unfolding command_load
save-load files later now garbage c s t q other w h a u saves reads =
    rw
      (
        command_load,
        reads,
        sym (command_save-written files c s t q saves),
        lines-saved q (omega arith) (omega arith) a,
      )
      (load_lines-saved now garbage q other a u)
