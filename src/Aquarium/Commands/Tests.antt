-- ===== src/Aquarium/Commands/Tests.antt =====
-- The commands of the administrator at small aquariums.
use my_enseirb_matmeca_proje.Base.{◌≡◌, refl, true, [], ◌∷◌, some, none, arith}
use my_enseirb_matmeca_proje.Base.Int.{pos}
use my_enseirb_matmeca_proje.Aquarium.{String, str_eq, init, View, Aquarium, init_aquarium, any}
use my_enseirb_matmeca_proje.Aquarium.Views.{no_socket, has_view_by_id, add_view}
use my_enseirb_matmeca_proje.Aquarium.Views.Validity.{init-IsValid}
use my_enseirb_matmeca_proje.Aquarium.Fishes.Names.{init-IsStocked}
use my_enseirb_matmeca_proje.Aquarium.Text.{
  value_from, digits_upto, match_atom, match_atoms, regex_match, short_from,
}
use my_enseirb_matmeca_proje.Aquarium.Commands.{
  Files, command_load, command_save, command_add_view, command_execute, dispatch, verb_of,
  saved_text,
}
use my_enseirb_matmeca_proje.Aquarium.Commands.Saved.{IsShort}
use my_enseirb_matmeca_proje.Aquarium.Commands.Saved.Loaded.{
  end_short, next_short, IsLoaded, save-load,
}
use my_enseirb_matmeca_proje.Aquarium.Commands.Execute.{
  IsSound, HasShortNumbers, command_execute-IsSound,
}

-- "add view N1 10x20+3+4" with the newline, after its first letter.
abbrev dd_view : String
dd_view =
    100 ∷ 100 ∷ 32 ∷ 118 ∷ 105 ∷ 101 ∷ 119 ∷ 32 ∷ 78 ∷ 49 ∷ 32 ∷ 49 ∷ 48 ∷ 120 ∷ 50 ∷ 48 ∷ 43 ∷ 51
    ∷ 43 ∷ 52 ∷ 10 ∷ []

abbrev no_files : Files
no_files = record { reads = λ s. none; writes = λ s. true }

abbrev view_n1 : View
view_n1 = record {
  id = 78 ∷ 49 ∷ [];
  x = pos 3;
  y = pos 4;
  width = pos 10;
  height = pos 20;
  fd_socket = pos 7;
  last_ping_timestamp = pos 5;
}

abbrev one_view : Aquarium
one_view = record (init_aquarium 1000 1000) { views = view_n1 ∷ [] }

add_n1_test :
    (command_execute no_files (pos 5) 0 97 dd_view (init_aquarium 1000 1000)).aquarium.views
    ≡ record view_n1 { fd_socket = no_socket } ∷ []
unfolding command_execute dispatch verb_of str_eq init command_add_view regex_match match_atoms
    match_atom digits_upto add_view has_view_by_id any value_from init_aquarium
add_n1_test = refl

view_n1-IsShort : IsShort view_n1
view_n1-IsShort = record {
  number = 1;
  one_digit = omega arith;
  id = refl;
  x = record { natural = refl; bound = omega arith };
  y = record { natural = refl; bound = omega arith };
  width = record { natural = refl; bound = omega arith };
  height = record { natural = refl; bound = omega arith };
}

save-load_example : IsLoaded (pos 6) one_view (
    command_load
      (record { reads = λ s. some (saved_text one_view); writes = λ s. true })
      (pos 6)
      0
      (97 ∷ [])
      (init_aquarium 10 10))
unfolding command_save init_aquarium
save-load_example =
    save-load no_files (record { reads = λ s. some (saved_text one_view); writes = λ s. true })
      (pos 6) 0 97 [] (saved_text one_view) one_view (init_aquarium 10 10) (omega arith)
      (omega arith) (next_short view_n1 [] view_n1-IsShort end_short) (λ k. ground arith) refl refl

short_line : HasShortNumbers no_files (97 ∷ dd_view)
unfolding short_from
short_line = (refl, λ name t e. absurd cc)

command_execute-IsSound_example :
    IsSound (command_execute no_files (pos 5) 0 97 dd_view (init_aquarium 1000 1000)).aquarium
command_execute-IsSound_example =
    command_execute-IsSound no_files (pos 5) 0 97 dd_view (init_aquarium 1000 1000) short_line
      (init-IsValid 1000 1000, init-IsStocked 1000 1000)
