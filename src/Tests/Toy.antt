-- ===== src/Tests/Toy.antt =====
-- A JSON library for the runs: an object is a list of members that are texts, also under the paths
-- of pointers, and everything is written as one text.
use my_tiny_im.Base.{Bool, true, false, Option, none, some, [], ◌∷◌}
use my_tiny_im.Base.Text.{Text, bytes}
use my_tiny_im.Base.Int.{ℤ, stoi}
use my_tiny_im.Base.Eq.{text_Eq}
use my_tiny_im.Base.Map.{Map, lookup}
use my_tiny_im.Json.{JsonLib, dumped}

pub data Toy : Type 0 where
  nothing : Toy
  number_toy : ℤ → Toy
  text_toy : Text → Toy
  members : Map Text Text → Toy

abbrev toy_lookup : Toy → Text → Option Text
toy_lookup (members m) key = lookup key m
toy_lookup v key = none

abbrev is_some : Option Text → Bool
is_some none = false
is_some (some s) = true

abbrev some_text : Option Text → Toy
some_text none = nothing
some_text (some s) = text_toy s

abbrev toy_string : Toy → Option Text
toy_string (text_toy s) = some s
toy_string v = none

abbrev string_or : Option Text → Text → Option Text
string_or none default = some default
string_or (some s) default = some s

abbrev int_or : Option Text → ℤ → Option ℤ
int_or none default = some default
int_or (some s) default = stoi s

abbrev pub ann_json : Toy
ann_json = members (
    (bytes "username", bytes "ann")
    ∷ (bytes "password", bytes "pw")
    ∷ (bytes "user_id", bytes "7")
    ∷ (bytes "/redis/host", bytes "cache")
    ∷ [])

-- Only the empty text is no JSON.
abbrev parse_toy : Text → Option Toy
parse_toy [] = none
parse_toy (c ∷ s) = some ann_json

abbrev pub toy : JsonLib
toy = record {
  Value = Toy;
  null = nothing;
  parse = parse_toy;
  contains = λ v key. is_some (toy_lookup v key);
  member = λ v key. some_text (toy_lookup v key);
  Pointer = Text;
  pointer = λ path. some path;
  contains_at = λ v p. some (is_some (toy_lookup v p));
  member_at = λ v p. some_text (toy_lookup v p);
  get_string = toy_string;
  get_int = λ v. none;
  elements = λ v. none;
  value_string = λ v key default. string_or (toy_lookup v key) default;
  value_int = λ v key default. int_or (toy_lookup v key) default;
  number = λ x. number_toy x;
  text = λ s. text_toy s;
  object = λ ms. nothing;
  dump = λ v. dumped (bytes "json");
}
