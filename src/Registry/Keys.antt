-- ===== src/Registry/Keys.antt =====
-- What Redis holds under a key, by the commands that were executed: the documented behaviour of SET,
-- GET and KEYS before the key expires, for a server that no other process calls.
use my_tiny_im.Base.{
  ◌≡◌, refl, true, ◌&&◌, Option, none, some, List, [], ◌∷◌, ◌++◌, map, All, if◌then◌else◌,
}
use my_tiny_im.Base.Text.{Text, bytes, c_str, text_eq}
use my_tiny_im.Services.{
  db_opened, sql_query, redis_opened, redis_command, push_notify, chat_send, register_sent,
  login_sent, logout_sent, RedisReply, status_reply, string_reply, array_reply, History, Services,
  ok,
}
use my_tiny_im.Services.Redis.{with_conn, keys, get}
use my_tiny_im.Services.Trace.{Adds, Emits, with_conn-Emits_of}
use my_tiny_im.Services.Memory.{is_read, IsRead}
use my_tiny_im.Registry.{contains_text}

-- The value that a command stores under a key.
abbrev pub sets : Text → List Text → Option RedisReply → Option Text
sets key (cmd ∷ k ∷ value ∷ more) (some (status_reply s)) =
    if text_eq cmd (bytes "SET") && text_eq k key then some value else none
sets key args reply = none

-- What a key is known to hold: SET stored it, and only reads came after.
unfoldable pub last_value : Text → History → Option Text
last_value key [] = none
last_value key (redis_command args reply ∷ h) =
    let before = last_value key h in if is_read args then before else sets key args reply
last_value key (redis_opened b ∷ h) = last_value key h
last_value key (db_opened kind b ∷ h) = last_value key h
last_value key (sql_query kind sql answer ∷ h) = last_value key h
last_value key (push_notify addr u s t ∷ h) = last_value key h
last_value key (chat_send s r g t c ∷ h) = last_value key h
last_value key (register_sent a u p n ∷ h) = last_value key h
last_value key (login_sent a u p d ∷ h) = last_value key h
last_value key (logout_sent a u t d ∷ h) = last_value key h

-- Redis can be reached; SET is done; a key that has not expired is read by GET, and is listed by KEYS
-- for a pattern that is a part at its front and an asterisk.
pub record KeepsKeys (sv : Services) : Type 0 where
  pub connects : (h : History) → sv.redis_connect h ≡ true
  pub set_done :
      (h : History) (key value seconds : Text)
      → sv.redis h (bytes "SET" ∷ key ∷ value ∷ bytes "EX" ∷ seconds ∷ [])
        ≡ some (status_reply (bytes "OK"))
  pub get_gives :
      (h : History) (key value : Text)
      → last_value key h ≡ some value
      → sv.redis h (bytes "GET" ∷ key ∷ []) ≡ some (string_reply value)
  pub keys_list :
      (h : History) (front rest value : Text)
      → last_value (front ++ rest) h ≡ some value
      → (found : List Text) × (sv.redis h (bytes "KEYS" ∷ (front ++ b'*' ∷ []) ∷ [])
          ≡ some (array_reply (map (λ (k : Text). some k) found)))
        × (contains_text (front ++ rest) found ≡ true)

pub last_value-reads :
    (key : Text) (new h : History) → All IsRead new → last_value key (new ++ h) ≡ last_value key h
unfolding last_value
last_value-reads key [] h a = refl
last_value-reads key (redis_command args reply ∷ new) h a = rw a.0 (last_value-reads key new h a.1)
last_value-reads key (e ∷ new) h a = last_value-reads key new h a.1

module _ (sv : Services) where
  pub get-Adds : (k : Text) (h : History) → Adds IsRead h (get sv k h)
  unfolding get bytes text_eq
  get-Adds k h = (with_conn-Emits_of sv _ _ _ (λ b. tt) (λ reply. refl)).at h

  pub get-Emits : (k : Text) → Emits IsRead (get sv k)
  get-Emits k = record { at = get-Adds k }

  pub keys-Emits : (p : Text) → Emits IsRead (keys sv p)
  unfolding keys bytes text_eq
  keys-Emits p = with_conn-Emits_of sv _ _ _ (λ b. tt) (λ reply. refl)

module _ (sv : Services) (memory : KeepsKeys sv) (key value : Text) (plain : c_str key ≡ key) where
  pub get-known :
      (h : History)
      → last_value key h ≡ some value
      → (new : History) × (get sv key h ≡ (ok (c_str value), new ++ h)) × All IsRead new
  unfolding get with_conn last_value
  get-known h e = (
    redis_command (bytes "GET" ∷ c_str key ∷ []) (some (string_reply value))
        ∷ redis_opened true
        ∷ [],
    rw (memory.connects h, plain, memory.get_gives (redis_opened true ∷ h) key value e) refl,
    unfold bytes text_eq in (refl, (tt, tt)),
  )
