-- ===== src/Tests/Discovery.antt =====
-- A run from the registration of a gateway to the list of the dispatch server, with a Redis that
-- keeps the keys that it was given.
use my_tiny_im.Base.{
  ◌≡◌, refl, true, Option, some, none, List, [], ◌∷◌, ◌++◌, map, arith, Bool-cases, inl, inr,
  if◌then◌else◌,
}
use my_tiny_im.Base.Text.{Text, bytes, c_str, text_eq}
use my_tiny_im.Base.Int.{pos, to_string}
use my_tiny_im.Services.{
  redis_command, redis_opened, RedisReply, status_reply, string_reply, array_reply, nil_reply,
  History, Services, ok,
}
use my_tiny_im.Services.Memory.{is_read}
use my_tiny_im.Registry.{Registry, contains_text, register_service, update_gateways}
use my_tiny_im.Registry.Keys.{sets, last_value, KeepsKeys}
use my_tiny_im.Registry.Discovery.{gateway_at, registered_is_discovered}
use my_tiny_im.Tests.Stub.{stub}

-- The first arguments of all commands.
abbrev with_key : List Text → List Text → List Text
with_key (cmd ∷ k ∷ more) ks = k ∷ ks
with_key args ks = ks

abbrev known_keys : History → List Text
known_keys [] = []
known_keys (redis_command args reply ∷ h) = with_key args (known_keys h)
known_keys (e ∷ h) = known_keys h

contains_text-with_key :
    (key : Text) (args : List Text) (ks : List Text)
    → contains_text key ks ≡ true
    → contains_text key (with_key args ks) ≡ true
unfolding contains_text
contains_text-with_key key [] ks c = c
contains_text-with_key key (cmd ∷ []) ks c = c
contains_text-with_key key (cmd ∷ k ∷ more) ks c = ground arith

contains_text-sets :
    (key value : Text) (args : List Text) (reply : Option RedisReply) (ks : List Text)
    → sets key args reply ≡ some value
    → contains_text key (with_key args ks) ≡ true
unfolding contains_text
contains_text-sets key value (cmd ∷ k ∷ v ∷ more) (some (status_reply s)) ks e = ground arith
contains_text-sets key value args reply ks e = cc

known_keys-contains :
    (key value : Text) (h : History)
    → last_value key h ≡ some value
    → contains_text key (known_keys h) ≡ true
unfolding last_value
known_keys-contains key value [] e = absurd (ground arith)
known_keys-contains key value (redis_command args reply ∷ h) e = elim (Bool-cases (is_read args)) [
  | inl r ↦
      contains_text-with_key key args (known_keys h) (known_keys-contains key value h (rw r at e))
  | inr r ↦ contains_text-sets key value args reply (known_keys h) (rw r at e)
]
known_keys-contains key value (e' ∷ h) e = known_keys-contains key value h e

abbrev remembered : Option Text → Option RedisReply
remembered none = some nil_reply
remembered (some value) = some (string_reply value)

abbrev answer : History → List Text → Option RedisReply
answer h (cmd ∷ key ∷ []) =
    if text_eq cmd (bytes "GET")
    then remembered (last_value key h)
    else some (array_reply (map (λ (k : Text). some k) (known_keys h)))
answer h args = some (status_reply (bytes "OK"))

abbrev keeper : Services
keeper = record (stub []) { redis = λ h args. answer h args }

keeper-KeepsKeys : KeepsKeys keeper
unfolding bytes text_eq
keeper-KeepsKeys = record {
  connects = λ h. refl;
  set_done = λ h key value seconds. refl;
  get_gives = λ h key value e. rw e refl;
  keys_list =
      λ h front rest value e. (known_keys h, refl, known_keys-contains (front ++ rest) value h e);
}

abbrev registry : Registry
registry = record { registered = none; observed_services = []; cache = []; rr_index = [] }

-- Somebody looks at a location.
abbrev one_read : History
one_read =
    redis_command (bytes "HGETALL" ∷ bytes "im:location:7" ∷ []) (some (array_reply []))
    ∷ redis_opened true
    ∷ []

registered_is_discovered_example :
    (later end : History) × (gateways : List Text) × (register_service keeper
        (bytes "gateway")
        (bytes "127.0.0.1")
        (pos 8080)
        registry
        []
      ≡ (
        ok (record registry { registered = some (gateway_at (bytes "127.0.0.1") (pos 8080)) }),
        later,
      ))
    × (update_gateways keeper (one_read ++ later) ≡ (ok gateways, end))
    × (contains_text (bytes "127.0.0.1" ++ (bytes ":" ++ to_string (pos 8080))) gateways ≡ true)
unfolding bytes c_str text_eq
registered_is_discovered_example =
    registered_is_discovered keeper (bytes "127.0.0.1") (pos 8080) registry [] one_read
      keeper-KeepsKeys refl (refl, (tt, tt))
