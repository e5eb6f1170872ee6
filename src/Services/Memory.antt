-- ===== src/Services/Memory.antt =====
-- What Redis holds in a field of a hash, by the commands that were executed: the documented
-- behaviour of HSET and HGET, for a server that is called by no other process.
use my_tiny_im.Base.{
  ◌≡◌, refl, Bool, true, false, not, ◌&&◌, ◌||◌, Option, none, some, List, [], ◌∷◌, ◌++◌, All,
  if◌then◌else◌,
}
use my_tiny_im.Base.Int.{ℤ}
use my_tiny_im.Base.Text.{Text, bytes, text_eq}
use my_tiny_im.Services.{
  Event, db_opened, sql_query, redis_opened, redis_command, push_notify, chat_send, register_sent,
  login_sent, logout_sent, RedisReply, integer_reply, string_reply, History, Services,
}

-- The commands of the source that write nothing.
abbrev pub is_read : List Text → Bool
is_read [] = false
is_read (cmd ∷ args) =
    text_eq cmd (bytes "GET")
    || text_eq cmd (bytes "HGET")
    || text_eq cmd (bytes "HGETALL")
    || text_eq cmd (bytes "EXISTS")
    || text_eq cmd (bytes "KEYS")
    || text_eq cmd (bytes "PUBLISH")

-- HSET of another key, or of another field.
abbrev pub writes_other : Text → Text → List Text → Bool
writes_other key field (cmd ∷ k ∷ f ∷ v ∷ []) =
    text_eq cmd (bytes "HSET") && not (text_eq k key && text_eq f field)
writes_other key field args = false

-- EXPIRE of a day.
abbrev pub lasts_day : List Text → Bool
lasts_day (cmd ∷ k ∷ seconds ∷ []) = text_eq cmd (bytes "EXPIRE") && text_eq seconds (bytes "86400")
lasts_day args = false

abbrev pub spares : Text → Text → List Text → Bool
spares key field args = is_read args || writes_other key field args || lasts_day args

-- The value that a command stores, which does not spare the field.
abbrev stores : List Text → Option RedisReply → Option Text
stores (cmd ∷ k ∷ f ∷ v ∷ []) (some (integer_reply n)) =
    if text_eq cmd (bytes "HSET") then some v else none
stores args reply = none

-- What a field is known to hold; a command that may write it another way leaves this open.
unfoldable pub last_stored : Text → Text → History → Option Text
last_stored key field [] = none
last_stored key field (redis_command args reply ∷ h) =
    let before = last_stored key field h in
    if spares key field args then before else stores args reply
last_stored key field (redis_opened b ∷ h) = last_stored key field h
last_stored key field (db_opened kind b ∷ h) = last_stored key field h
last_stored key field (sql_query kind sql answer ∷ h) = last_stored key field h
last_stored key field (push_notify addr u s t ∷ h) = last_stored key field h
last_stored key field (chat_send s r g t c ∷ h) = last_stored key field h
last_stored key field (register_sent a u p n ∷ h) = last_stored key field h
last_stored key field (login_sent a u p d ∷ h) = last_stored key field h
last_stored key field (logout_sent a u t d ∷ h) = last_stored key field h

-- Redis can be reached, HSET of a string is done, and HGET gives what a field is known to hold.
pub record Remembers (sv : Services) : Type 0 where
  pub connects : (h : History) → sv.redis_connect h ≡ true
  pub hset_done :
      (h : History) (key field value : Text)
      → (n : ℤ) × (sv.redis h (bytes "HSET" ∷ key ∷ field ∷ value ∷ []) ≡ some (integer_reply n))
  pub hget_gives :
      (h : History) (key field value : Text)
      → last_stored key field h ≡ some value
      → sv.redis h (bytes "HGET" ∷ key ∷ field ∷ []) ≡ some (string_reply value)

-- A call that writes nothing.
abbrev pub IsRead : Event → Type 0
IsRead (redis_command args reply) = is_read args ≡ true
IsRead _ = Unit

-- A call that leaves a field alone.
abbrev pub Spares : Text → Text → Event → Type 0
Spares key field (redis_command args reply) = spares key field args ≡ true
Spares key field _ = Unit

pub last_stored-spared :
    (key field : Text) (new h : History)
    → All (Spares key field) new
    → last_stored key field (new ++ h) ≡ last_stored key field h
unfolding last_stored
last_stored-spared key field [] h a = refl
last_stored-spared key field (redis_command args reply ∷ new) h a =
    rw a.0 (last_stored-spared key field new h a.1)
last_stored-spared key field (e ∷ new) h a = last_stored-spared key field new h a.1

Spares-read : (key field : Text) (e : Event) → IsRead e → Spares key field e
Spares-read key field (redis_command args reply) r = rw r refl
Spares-read key field e r = tt

pub All-Spares : (key field : Text) (new : History) → All IsRead new → All (Spares key field) new
All-Spares key field [] a = tt
All-Spares key field (e ∷ new) a = (Spares-read key field e a.0, All-Spares key field new a.1)
