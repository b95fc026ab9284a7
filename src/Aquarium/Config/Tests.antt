-- ===== src/Aquarium/Config/Tests.antt =====
-- Configuration files.
use my_enseirb_matmeca_proje.Base.{◌≡◌, refl, [], ◌∷◌, some, none, arith, List}
use my_enseirb_matmeca_proje.Aquarium.Text.Lines.{text}
use my_enseirb_matmeca_proje.Aquarium.Config.{get_config, checked, blank}
use my_enseirb_matmeca_proje.Aquarium.Config.Reading.{
  Item, comment, empty, port, timeout, interval, set_all, texts, AllFit, done, also,
  get_config-items,
}

abbrev items : List Item
items = comment (32 ∷ 65 ∷ []) ∷ timeout 45 ∷ empty ∷ port 12345 ∷ interval 1 ∷ port 80 ∷ []

items-AllFit : AllFit items
items-AllFit =
    also _ _ record { whole = refl; short = omega arith }
      (also _ _ (omega arith) (
        also _ _ tt
          (also _ _ (omega arith) (also _ _ (omega arith) (also _ _ (omega arith) done)))))

get_config-items_example : get_config (some (text (texts items))) ≡ checked (set_all items blank)
get_config-items_example = get_config-items items items-AllFit

items_config :
    checked (set_all items blank)
    ≡ some record { controller_port = 80; display_timeout_value = 45; fish_update_interval = 1 }
items_config = refl

-- Without a port the program exits.
no_port : checked (set_all (timeout 45 ∷ interval 1 ∷ []) blank) ≡ none
no_port = refl
