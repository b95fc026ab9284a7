-- ===== src/Aquarium/Config/Reading.antt =====
-- What `get_config` makes of a configuration file.
use my_enseirb_matmeca_proje.Base.{
  ℕ, suc, ◌<◌, ◌^◌, ◌≡◌, refl, ap, ◌∙◌, true, ◌>>=◌, List, [], ◌∷◌, ◌++◌, length, length-append,
  some, arith,
}
use my_enseirb_matmeca_proje.Aquarium.{String, str_eq}
use my_enseirb_matmeca_proje.Aquarium.Text.{line, decimal}
use my_enseirb_matmeca_proje.Aquarium.Text.Numbers.{digits-all_digits, length-digits, atoi-decimal}
use my_enseirb_matmeca_proje.Aquarium.Text.Lines.{
  one_line, one_line-append, one_line-digits, text, IsLine, AllLines, all_lines, lines-text,
}
use my_enseirb_matmeca_proje.Aquarium.Config.{
  Config, port_name, timeout_name, interval_name, assign, read_line, read_lines, checked, blank,
  get_config,
}
use my_enseirb_matmeca_proje.Aquarium.Config.Words.{
  match_setting-port, match_setting-timeout, match_setting-interval,
}

-- A line of the file.
pub data Item : Type 0 where
  comment : String → Item
  empty : Item
  port timeout interval : ℕ → Item

abbrev setting : String → ℕ → String
setting name v = name ++ (32 ∷ 61 ∷ 32 ∷ decimal v)

-- Without the newline.
abbrev pub item_text : Item → String
item_text (comment s) = 35 ∷ s
item_text empty = []
item_text (port v) = setting port_name v
item_text (timeout v) = setting timeout_name v
item_text (interval v) = setting interval_name v

-- What a line sets.
abbrev pub set_by : Item → Config → Config
set_by (comment s) c = c
set_by empty c = c
set_by (port v) c = record c { controller_port = v }
set_by (timeout v) c = record c { display_timeout_value = v }
set_by (interval v) c = record c { fish_update_interval = v }

abbrev pub set_all : List Item → Config → Config
set_all [] c = c
set_all (i ∷ is) c = set_all is (set_by i c)

abbrev pub texts : List Item → List String
texts [] = []
texts (i ∷ is) = item_text i ∷ texts is

-- A comment is one line that fits in the buffer; a number is an `int`.
abbrev pub Fits : Item → Type 0
Fits (comment s) = IsLine (35 ∷ s)
Fits empty = Unit
Fits (port v) = v < 2 ^ 31
Fits (timeout v) = v < 2 ^ 31
Fits (interval v) = v < 2 ^ 31

pub data AllFit : List Item → Type 0 where
  done : AllFit []
  also : (i : Item) (is : List Item) → Fits i → AllFit is → AllFit (i ∷ is)

setting-IsLine :
    (name : String) (v : ℕ)
    → one_line name ≡ true
    → length name < 30
    → v < 2 ^ 31
    → IsLine (setting name v)
setting-IsLine name v one short h = record {
  whole = ground (
    arith,
    one_line-append name (32 ∷ 61 ∷ 32 ∷ decimal v),
    one_line-digits (decimal v) (digits-all_digits (suc v) v),
    one,
  );
  short = omega (
    arith,
    length-append name (32 ∷ 61 ∷ 32 ∷ decimal v),
    length-digits (suc v) v 9 (omega arith),
  );
}

item-IsLine : (i : Item) → Fits i → IsLine (item_text i)
item-IsLine (comment s) f = f
item-IsLine empty f = record { whole = refl; short = omega arith }
item-IsLine (port v) f = setting-IsLine port_name v refl (omega arith) f
item-IsLine (timeout v) f = setting-IsLine timeout_name v refl (omega arith) f
item-IsLine (interval v) f = setting-IsLine interval_name v refl (omega arith) f

texts-AllLines : (is : List Item) → AllFit is → AllLines (texts is)
texts-AllLines [] f = AllLines.end
texts-AllLines (i ∷ is) (also _ _ f fs) = AllLines.next _ _ (item-IsLine i f) (texts-AllLines is fs)

read_line-item : (i : Item) (c : Config) → read_line (line (item_text i)) c ≡ some (set_by i c)
unfolding read_line assign str_eq
read_line-item (comment s) c = refl
read_line-item empty c = refl
read_line-item (port v) c = rw (read_line, match_setting-port v, atoi-decimal v) refl
read_line-item (timeout v) c = rw (read_line, match_setting-timeout v, atoi-decimal v) refl
read_line-item (interval v) c = rw (read_line, match_setting-interval v, atoi-decimal v) refl

read_lines-items :
    (is : List Item) (c : Config) → read_lines (all_lines (texts is)) c ≡ some (set_all is c)
unfolding read_lines
read_lines-items [] c = refl
read_lines-items (i ∷ is) c = rw (read_lines, read_line-item i c) (read_lines-items is (set_by i c))

-- A file of comments, empty lines and settings, in any order, each number an `int` and each comment
-- shorter than the buffer, gives the configuration in which each value is the last that was set,
-- when all three are set to other than 0; otherwise the program exits.
pub get_config-items :
    (is : List Item) → AllFit is → get_config (some (text (texts is))) ≡ checked (set_all is blank)
unfolding get_config
get_config-items is f =
    ap (λ ls. read_lines ls blank >>= checked)
      (lines-text (length (text (texts is))) (texts is) (texts-AllLines is f) (omega arith))
    ∙ ap (λ o. o >>= checked) (read_lines-items is blank)
