-- ===== src/Aquarium/Config/Words.antt =====
-- What the expression of config.c finds in a setting.
use my_enseirb_matmeca_proje.Base.{ℕ, ◌≡◌, refl, true, ◌==◌, List, [], ◌∷◌, ◌++◌, none, some, arith}
use my_enseirb_matmeca_proje.Aquarium.{String}
use my_enseirb_matmeca_proje.Aquarium.Text.{
  decimal, Part, group, match_atom, match_atoms, regex_match,
}
use my_enseirb_matmeca_proje.Aquarium.Text.Patterns.{match-end, match-number, match-char}
use my_enseirb_matmeca_proje.Aquarium.Config.{
  port_name, timeout_name, interval_name, chars, value_pattern, match_setting,
}

match-chars : (w t : String) → match_atoms (chars w) (w ++ t) ≡ some (w, t)
unfolding match_atoms match_atom
match-chars [] t = refl
match-chars (c ∷ w) t =
    let same : (c == c) ≡ true = ground arith in
    rw (match_atoms, match_atom, same, match-chars w t) refl

match-word :
    (w t : String) (ps : List Part) (out : List String)
    → regex_match ps t ≡ some out
    → regex_match (group (chars w) ∷ ps) (w ++ t) ≡ some (w ∷ out)
unfolding regex_match
match-word w t ps out h = rw (regex_match, match-chars w t, h) refl

module _ (v : ℕ) where
  abbrev pub value : String
  value = 32 ∷ 61 ∷ 32 ∷ (decimal v ++ (10 ∷ []))

  match-value : regex_match value_pattern value ≡ some (decimal v ∷ [])
  match-value = match-char _ _ 32 _ (
      match-char _ _ 61 _ (
        match-char _ _ 32 _
          (match-number [] [] v (10 ∷ []) none (omega arith) refl (match-end (10 ∷ [])))))

  pub match_setting-port : match_setting (port_name ++ value) ≡ some (port_name ∷ decimal v ∷ [])
  unfolding match_setting
  match_setting-port =
      rw (match_setting, match-word port_name value value_pattern (decimal v ∷ []) match-value) refl

  pub match_setting-timeout :
      match_setting (timeout_name ++ value) ≡ some (timeout_name ∷ decimal v ∷ [])
  unfolding match_setting
  match_setting-timeout =
      rw (match_setting, match-word timeout_name value value_pattern (decimal v ∷ []) match-value)
        refl

  pub match_setting-interval :
      match_setting (interval_name ++ value) ≡ some (interval_name ∷ decimal v ∷ [])
  unfolding match_setting
  match_setting-interval =
      rw (match_setting, match-word interval_name value value_pattern (decimal v ∷ []) match-value)
        refl
