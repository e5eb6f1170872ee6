-- ===== src/Http.antt =====
-- Requests and responses of the two HTTP servers (boost::beast), and the fields of the JSON bodies
-- that both read.
use my_tiny_im.Base.{ℕ, Bool, true, false, Option, none, some, []}
use my_tiny_im.Base.Text.{Text, bytes}
use my_tiny_im.Json.{JsonLib, Dump, dumped, undumped}
use my_tiny_im.Auth.Account.{RegisterReq}
use my_tiny_im.Auth.Login.{LoginReq}

pub data Verb : Type 0 where
  get post options other_verb : Verb

abbrev pub is_get : Verb → Bool
is_get get = true
is_get _ = false

abbrev pub is_post : Verb → Bool
is_post post = true
is_post _ = false

abbrev pub is_options : Verb → Bool
is_options options = true
is_options _ = false

pub record Request : Type 0 where
  pub verb : Verb
  pub target : Text
  pub version : ℕ
  pub keep_alive : Bool
  pub body : Text

-- `prepared` is whether prepare_payload() has set the length.
pub record Response : Type 0 where
  pub status : ℕ
  pub version : ℕ
  pub keep_alive : Bool
  pub server : Text
  pub body : Text
  pub prepared : Bool

-- A status with a body.
abbrev pub Reply : Type 0
Reply = ℕ × Text

infixl 5 ◌>>=◌
abbrev ◌>>=◌ : {A B : Type 0} → Option A → (A → Option B) → Option B
none >>= f = none
some a >>= f = f a

-- dump() of what is then the body
abbrev pub dump_text : Dump → Option Text
dump_text (dumped s) = some s
dump_text (undumped what) = none

module _ (js : JsonLib) where
  -- The body of a login request.
  unfoldable pub read_login : Text → Option LoginReq
  read_login body = do
    json ← js.parse body
    username ← js.value_string json (bytes "username") []
    password ← js.value_string json (bytes "password") []
    device ← js.value_string json (bytes "device") (bytes "PC")
    some (record { username = username; password = password; device = device })

  unfoldable pub read_register : Text → Option RegisterReq
  read_register body = do
    json ← js.parse body
    username ← js.value_string json (bytes "username") []
    password ← js.value_string json (bytes "password") []
    nickname ← js.value_string json (bytes "nickname") []
    some (record { username = username; password = password; nickname = nickname })
