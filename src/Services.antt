-- ===== src/Services.antt =====
-- What the servers call and the repository does not contain: the MySQL client library and server,
-- hiredis and the Redis server, gRPC channels, the clock. They are parameters: each call is answered
-- as a function of the call and of everything that was called before it, so that an answer may also
-- depend on what other processes did in between.
pub mod Mysql
pub mod Redis
pub mod Trace
pub mod Leaves
pub mod Memory
pub mod Pool
pub mod Subscribe
use my_tiny_im.Base.{ℕ, Bool, Option, none, some, List, [], ◌∷◌}
use my_tiny_im.Base.Text.{Text}
use my_tiny_im.Base.Int.{ℤ}

-- The two types of a DBConn: a connection to the master, or to a replica.
pub data DbKind : Type 0 where
  write_db read_db : DbKind

-- A row of a result set; `none` is NULL.
abbrev pub Row : Type 0
Row = List (Option Text)

-- mysql_query failed with an error number; or it succeeded, and mysql_store_result gives rows; or
-- it gives no result set, and mysql_insert_id is as said.
pub data SqlAnswer : Type 0 where
  sql_failed : ℕ → SqlAnswer
  sql_rows : List Row → SqlAnswer
  sql_done : ℤ → SqlAnswer

-- A redisReply, as far as the source looks into it.
pub data RedisReply : Type 0 where
  integer_reply : ℤ → RedisReply
  string_reply : Text → RedisReply
  status_reply : Text → RedisReply
  array_reply : List (Option Text) → RedisReply
  nil_reply : RedisReply
  error_reply : RedisReply

-- A call to the outside, with its answer where the source uses one.
pub data Event : Type 0 where
  db_opened : DbKind → Bool → Event
  sql_query : DbKind → Text → SqlAnswer → Event
  redis_opened : Bool → Event
  redis_command : List Text → Option RedisReply → Event
  -- stub->PushNotify at an address: user_id, max_seq, msg_type
  push_notify : Text → ℤ → ℤ → ℤ → Event
  -- stub->SendMessage at the chat server: sender_id, receiver_id, group_id, type, content
  chat_send : ℤ → ℤ → ℤ → ℤ → Text → Event
  -- stub->Register, Login and Logout at the auth server's address: username, password, nickname;
  -- username, password, device; user_id, token, device
  register_sent : Text → Text → Text → Text → Event
  login_sent : Text → Text → Text → Text → Event
  logout_sent : Text → ℤ → Text → Text → Event

-- Newest first.
abbrev pub History : Type 0
History = List Event

pub record Services : Type 0 where
  -- whether a DBConn of this type is valid()
  pub db_connect : History → DbKind → Bool
  -- mysql_query on such a connection, of a C string
  pub mysql : History → DbKind → Text → SqlAnswer
  -- mysql_real_escape_string, with its terminating NUL left off
  pub escape : Text → Text
  -- whether a RedisConn has a context
  pub redis_connect : History → Bool
  -- redisCommand, with its arguments put in the format; `none` is a null pointer
  pub redis : History → List Text → Option RedisReply
  -- system_clock::now().time_since_epoch().count()
  pub now : History → ℤ
  -- a uniform_int_distribution from 0 to a number
  pub pick : History → ℕ → ℕ

-- How a piece of code ends: with a value, with an exception, or in undefined behaviour (a null
-- pointer that is used).
pub data Outcome {ℓ} (A : Type ℓ) : Type ℓ where
  ok : A → Outcome A
  thrown : Outcome A
  fault : Outcome A

abbrev pub M {ℓ} : Type ℓ → Type ℓ
M A = History → Outcome A × History

abbrev pub after {ℓ κ} :
    {A : Type ℓ} {B : Type κ}
    → Outcome A × History
    → (A → History → Outcome B × History)
    → Outcome B × History
after (ok a, h) f = f a h
after (thrown, h) f = (thrown, h)
after (fault, h) f = (fault, h)

infixl 5 ◌>>=◌ ◌>>◌
abbrev pub ◌>>=◌ {ℓ κ} : {A : Type ℓ} {B : Type κ} → M A → (A → M B) → M B
◌>>=◌ m f h = after (m h) f

abbrev pub ◌>>◌ {ℓ κ} : {A : Type ℓ} {B : Type κ} → M A → M B → M B
◌>>◌ m k h = after (m h) (λ _. k)

abbrev pub pure {ℓ} : {A : Type ℓ} → A → M A
pure a h = (ok a, h)

abbrev pub lift {ℓ} : {A : Type ℓ} → Outcome A → M A
lift r h = (r, h)

-- A call that raises where it gives nothing.
abbrev pub or_throw {ℓ} : {A : Type ℓ} → Option A → Outcome A
or_throw none = thrown
or_throw (some a) = ok a

abbrev pub rescue {ℓ} : {A : Type ℓ} → Outcome A × History → M A → Outcome A × History
rescue (ok a, h) handler = (ok a, h)
rescue (thrown, h) handler = handler h
rescue (fault, h) handler = (fault, h)

-- try { m } catch (...) { handler }
abbrev pub attempt {ℓ} : {A : Type ℓ} → M A → M A → M A
attempt m handler h = rescue (m h) handler

-- A call whose answer is not used.
abbrev pub emit : Event → M (Unit {0})
emit e h = (ok tt, e ∷ h)

-- The same without a history.
abbrev pub bind {ℓ κ} : {A : Type ℓ} {B : Type κ} → Outcome A → (A → Outcome B) → Outcome B
bind (ok a) f = f a
bind thrown f = thrown
bind fault f = fault
