-- ===== src/Aquarium/Config.antt =====
-- config.c of the controller: the configuration file.
pub mod Words
pub mod Reading
mod Tests
use my_enseirb_matmeca_proje.Base.{
  ℕ, zero, suc, Bool, true, false, not, ◌&&◌, ◌||◌, ◌==◌, ◌>>=◌, if◌then◌else◌, List, [], ◌∷◌, ◌++◌,
  length, get_or, Option, none, some,
}
use my_enseirb_matmeca_proje.Aquarium.{String, str_eq}
use my_enseirb_matmeca_proje.Aquarium.Text.{
  newline, lines, atoi, Atom, char, digit, Part, plain, group, regex_match,
}

-- `config_t`.
pub record Config : Type 0 where
  pub controller_port : ℕ
  pub display_timeout_value : ℕ
  pub fish_update_interval : ℕ

-- "controller-port".
abbrev pub port_name : String
port_name =
    99 ∷ 111 ∷ 110 ∷ 116 ∷ 114 ∷ 111 ∷ 108 ∷ 108 ∷ 101 ∷ 114 ∷ 45 ∷ 112 ∷ 111 ∷ 114 ∷ 116 ∷ []

-- "display-timeout-value".
abbrev pub timeout_name : String
timeout_name =
    100 ∷ 105 ∷ 115 ∷ 112 ∷ 108 ∷ 97 ∷ 121 ∷ 45 ∷ 116 ∷ 105 ∷ 109 ∷ 101 ∷ 111 ∷ 117 ∷ 116 ∷ 45 ∷ 118
    ∷ 97 ∷ 108 ∷ 117 ∷ 101 ∷ []

-- "fish-update-interval".
abbrev pub interval_name : String
interval_name =
    102 ∷ 105 ∷ 115 ∷ 104 ∷ 45 ∷ 117 ∷ 112 ∷ 100 ∷ 97 ∷ 116 ∷ 101 ∷ 45 ∷ 105 ∷ 110 ∷ 116 ∷ 101 ∷ 114
    ∷ 118 ∷ 97 ∷ 108 ∷ []

abbrev pub chars : String → List Atom
chars [] = []
chars (c ∷ s) = char c ∷ chars s

-- " = " and a number.
abbrev pub value_pattern : List Part
value_pattern = plain (char 32) ∷ plain (char 61) ∷ plain (char 32) ∷ group (digit 1 none ∷ []) ∷ []

abbrev pub first_of : Option (List String) → Option (List String) → Option (List String)
first_of none o = o
first_of (some ps) o = some ps

-- `regex_match` with the expression for a line. No name begins another, so that the first
-- alternative that matches is the only one.
pub match_setting : String → Option (List String)
unfolding regex_match
match_setting s = first_of (regex_match (group (chars port_name) ∷ value_pattern) s) (
    first_of (regex_match (group (chars timeout_name) ∷ value_pattern) s)
      (regex_match (group (chars interval_name) ∷ value_pattern) s))

-- What is done with the parameters; `none` is that the program exits.
pub assign : String → String → Config → Option Config
unfolding str_eq
assign name value c =
    if str_eq name port_name
    then some (record c { controller_port = atoi value })
    else if str_eq name timeout_name
    then some (record c { display_timeout_value = atoi value })
    else if str_eq name interval_name
    then some (record c { fish_update_interval = atoi value })
    else none

abbrev pub is_skipped : String → Bool
is_skipped [] = false
is_skipped (c ∷ s) = c == 35 || c == newline

pub read_line : String → Config → Option Config
unfolding match_setting assign
read_line s c =
    if is_skipped s
    then some c
    else (do ps ← match_setting s; assign (get_or ps 0 []) (get_or ps 1 []) c)

pub read_lines : List String → Config → Option Config
unfolding read_line
read_lines [] c = some c
read_lines (s ∷ ss) c = do c' ← read_line s c; read_lines ss c'

abbrev pub is_complete : Config → Bool
is_complete c =
    not (c.controller_port == 0)
    && not (c.display_timeout_value == 0)
    && not (c.fish_update_interval == 0)

abbrev pub checked : Config → Option Config
checked c = if is_complete c then some c else none

abbrev pub blank : Config
blank = record { controller_port = 0; display_timeout_value = 0; fish_update_interval = 0 }

-- `get_config` with the text of the file, if it can be read. `none` is that the program exits.
pub get_config : Option String → Option Config
unfolding read_lines
get_config none = none
get_config (some text) = read_lines (lines (length text) text) blank >>= checked
