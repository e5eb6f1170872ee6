-- ===== src/Json.antt =====
-- The JSON library (nlohmann::json) as the servers use it: a parameter. A call that raises gives
-- `none`.
use my_tiny_im.Base.{Bool, Option, List}
use my_tiny_im.Base.Text.{Text}
use my_tiny_im.Base.Int.{ℤ}

-- What dump() gives: the text, or the message of an exception.
pub data Dump : Type 0 where
  dumped : Text → Dump
  undumped : Text → Dump

pub record JsonLib : Type 1 where
  pub Value : Type 0
  -- what a json holds by default
  pub null : Value
  pub parse : Text → Option Value
  -- contains(key), and operator[] on a key that is contained
  pub contains : Value → Text → Bool
  pub member : Value → Text → Value
  -- json_pointer(text); contains(pointer); operator[] on a pointer that is contained
  pub Pointer : Type 0
  pub pointer : Text → Option Pointer
  pub contains_at : Value → Pointer → Option Bool
  pub member_at : Value → Pointer → Value
  -- get<std::string>(), get<int>()
  pub get_string : Value → Option Text
  pub get_int : Value → Option ℤ
  -- the elements, if is_array()
  pub elements : Value → Option (List Value)
  -- value(key, default) with a default that is a string, or an int
  pub value_string : Value → Text → Text → Option Text
  pub value_int : Value → Text → ℤ → Option ℤ
  -- json of a number and of a string; an object of its members; dump()
  pub number : ℤ → Value
  pub text : Text → Value
  pub object : List (Text × Value) → Value
  pub dump : Value → Dump
