-- ===== src/Services/Redis.antt =====
-- src/common/redis_client.cpp: the commands of RedisClient. Each takes a context for its duration
-- (RedisConn) and gives a default where there is none, or no reply. Replies are read as C strings.
use my_tiny_im.Base.{Bool, true, false, Option, none, some, List, [], ◌∷◌, if◌then◌else◌}
use my_tiny_im.Base.Text.{Text, bytes, c_str, text_eq}
use my_tiny_im.Base.Int.{ℤ, pos, int_eq, to_string}
use my_tiny_im.Base.Eq.{text_Eq}
use my_tiny_im.Base.Map.{Map, insert}
use my_tiny_im.Services.{
  RedisReply, integer_reply, string_reply, status_reply, array_reply, error_reply, redis_opened,
  redis_command, Services, ok, M, pure, ◌>>=◌,
}

module _ (sv : Services) where
  -- RedisConn conn
  unfoldable pub open_redis : M Bool
  open_redis h = let valid = sv.redis_connect h in (ok valid, redis_opened valid ∷ h)

  -- redisCommand(ctx, format, args...), each %s being a C string
  unfoldable pub command : List Text → M (Option RedisReply)
  command args h = let reply = sv.redis h args in (ok reply, redis_command args reply ∷ h)

  -- What every method has in common: no context gives the default.
  unfoldable pub with_conn {ℓ} : {A : Type ℓ} → List Text → A → (Option RedisReply → A) → M A
  unfolding open_redis command
  with_conn args default read = do
    valid ← open_redis
    if valid then (do reply ← command args; pure (read reply)) else pure default

  abbrev has_reply : Option RedisReply → Bool
  has_reply none = false
  has_reply (some r) = true

  abbrev not_error : Option RedisReply → Bool
  not_error none = false
  not_error (some error_reply) = false
  not_error (some r) = true

  unfoldable pub set : Text → Text → M Bool
  set key value = with_conn (bytes "SET" ∷ c_str key ∷ c_str value ∷ []) false not_error

  abbrev is_ok_status : Option RedisReply → Bool
  is_ok_status (some (status_reply s)) = text_eq (c_str s) (bytes "OK")
  is_ok_status _ = false

  unfoldable pub set_ex : Text → Text → ℤ → M Bool
  set_ex key value seconds =
      with_conn (bytes "SET" ∷ c_str key ∷ c_str value ∷ bytes "EX" ∷ to_string seconds ∷ []) false
        is_ok_status

  abbrev pub strings : List (Option Text) → List Text
  strings [] = []
  strings (none ∷ es) = strings es
  strings (some s ∷ es) = c_str s ∷ strings es

  abbrev key_list : Option RedisReply → List Text
  key_list (some (array_reply es)) = strings es
  key_list _ = []

  unfoldable pub keys : Text → M (List Text)
  keys pattern_ = with_conn (bytes "KEYS" ∷ c_str pattern_ ∷ []) [] key_list

  abbrev string_or_empty : Option RedisReply → Text
  string_or_empty (some (string_reply s)) = c_str s
  string_or_empty _ = []

  unfoldable pub get : Text → M Text
  get key = with_conn (bytes "GET" ∷ c_str key ∷ []) [] string_or_empty

  unfoldable pub del : Text → M Bool
  del key = with_conn (bytes "DEL" ∷ c_str key ∷ []) false has_reply

  abbrev is_one : Option RedisReply → Bool
  is_one (some (integer_reply n)) = int_eq n (pos 1)
  is_one _ = false

  unfoldable pub exists : Text → M Bool
  exists key = with_conn (bytes "EXISTS" ∷ c_str key ∷ []) false is_one

  -- freeReplyObject of a null reply does nothing.
  unfoldable pub expire : Text → ℤ → M Bool
  expire key seconds =
      with_conn (bytes "EXPIRE" ∷ c_str key ∷ to_string seconds ∷ []) false (λ _. true)

  unfoldable pub hset : Text → Text → Text → M Bool
  hset key field value =
      with_conn (bytes "HSET" ∷ c_str key ∷ c_str field ∷ c_str value ∷ []) false has_reply

  unfoldable pub hget : Text → Text → M Text
  hget key field = with_conn (bytes "HGET" ∷ c_str key ∷ c_str field ∷ []) [] string_or_empty

  unfoldable pub hdel : Text → Text → M Bool
  hdel key field = with_conn (bytes "HDEL" ∷ c_str key ∷ c_str field ∷ []) false has_reply

  -- The loop of HGetAll, two elements at a time; res[field] = value. A map is walked in the order
  -- of insertion, one of the orders that an unordered_map may have.
  abbrev pairs : Map Text Text → List (Option Text) → Map Text Text
  pairs res (some f ∷ some v ∷ es) = pairs (insert (c_str f) (c_str v) res) es
  pairs res (some f ∷ none ∷ es) = pairs res es
  pairs res (none ∷ v ∷ es) = pairs res es
  pairs res (e ∷ []) = res
  pairs res [] = res

  abbrev field_map : Option RedisReply → Map Text Text
  field_map (some (array_reply es)) = pairs [] es
  field_map _ = []

  unfoldable pub hgetall : Text → M (Map Text Text)
  hgetall key = with_conn (bytes "HGETALL" ∷ c_str key ∷ []) [] field_map

  unfoldable pub publish : Text → Text → M Bool
  publish channel message =
      with_conn (bytes "PUBLISH" ∷ c_str channel ∷ c_str message ∷ []) false has_reply
