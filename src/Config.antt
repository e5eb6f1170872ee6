-- ===== src/Config.antt =====
-- The configuration, src/common/config.h: a JSON value that is loaded once and read by keys, with a
-- dot for each level.
pub mod Paths
use my_tiny_im.Base.{
  ℕ, Bool, true, false, Option, none, some, List, [], ◌∷◌, ◌==◌, if◌then◌else◌, map,
}
use my_tiny_im.Base.Text.{Text, bytes}
use my_tiny_im.Base.Int.{ℤ}
use my_tiny_im.Json.{JsonLib}

abbrev dot_to_slash : ℕ → ℕ
dot_to_slash c = if c == b'.' then b'/' else c

-- if (path[0] != '/') path = "/" + path; path[0] of an empty string is NUL.
abbrev pub with_slash : Text → Text
with_slash [] = b'/' ∷ []
with_slash (c ∷ s) = if c == b'/' then c ∷ s else b'/' ∷ c ∷ s

-- "mysql.host" → "/mysql/host"
unfoldable pub path_of : Text → Text
path_of key = with_slash (map dot_to_slash key)

-- What looking for a key comes to: a value, no value, or an exception.
pub data Found (V : Type 0) : Type 0 where
  found : V → Found V
  missing : Found V
  raised : Found V

abbrev pub value_or : {A : Type 0} → Option A → A → A
value_or none default = default
value_or (some a) default = a

module _ (js : JsonLib) where
  abbrev at_pointer : js.Value → js.Pointer → Option Bool → Found js.Value
  at_pointer json p none = raised
  at_pointer json p (some true) = found (js.member_at json p)
  at_pointer json p (some false) = missing

  abbrev pub by_pointer : js.Value → Option js.Pointer → Found js.Value
  by_pointer json none = raised
  by_pointer json (some p) = at_pointer json p (js.contains_at json p)

  -- json_pointer ptr(path); if (data_.contains(ptr)) … data_[ptr]
  unfoldable pub resolve : js.Value → Text → Found js.Value
  resolve json path = by_pointer json (js.pointer path)

  -- The order of GetString and GetInt.
  unfoldable pub located : js.Value → Text → Found js.Value
  located json key =
      if js.contains json key then found (js.member json key) else resolve json (path_of key)

  abbrev or_default : {A : Type 0} → (js.Value → Option A) → A → Found js.Value → A
  or_default get default (found v) = value_or (get v) default
  or_default get default missing = default
  or_default get default raised = default

  unfoldable pub get_string : js.Value → Text → Text → Text
  get_string json key default = or_default js.get_string default (located json key)

  unfoldable pub get_int : js.Value → Text → ℤ → ℤ
  get_int json key default = or_default js.get_int default (located json key)

  -- The loop over the elements; an exception leaves what has been read.
  unfoldable pub read_strings : List js.Value → List Text
  read_strings [] = []
  read_strings (v ∷ vs) =
      let rest = read_strings vs in elim (js.get_string v) [ none ↦ [] | some s ↦ s ∷ rest ]

  abbrev pub read_array : Option (List js.Value) → List Text
  read_array none = []
  read_array (some vs) = read_strings vs

  abbrev read_found : Found js.Value → List Text
  read_found (found v) = read_array (js.elements v)
  read_found missing = []
  read_found raised = []

  abbrev is_array : js.Value → Bool
  is_array v = elim (js.elements v) [ none ↦ false | some vs ↦ true ]

  unfoldable pub get_string_list : js.Value → Text → List Text
  get_string_list json key =
      if js.contains json key
      then if is_array (js.member json key)
        then read_found (found (js.member json key))
        else read_found (resolve json (path_of key))
      else read_found (resolve json (path_of key))

  abbrev parsed : Option js.Value → js.Value → Bool × js.Value
  parsed none json = (false, json)
  parsed (some json') json = (true, json')

  -- Load, with what the file holds if it can be opened.
  unfoldable pub load : Option Text → js.Value → Bool × js.Value
  load none json = (false, json)
  load (some content) json = parsed (js.parse content) json

  -- How each server starts: "config.json", and "../config.json" if that fails.
  unfoldable pub load_either : (Text → Option Text) → js.Value → js.Value
  load_either files json =
      let first = load (files (bytes "config.json")) json in
      if first.0 then first.1 else (load (files (bytes "../config.json")) first.1).1
