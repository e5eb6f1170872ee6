-- ===== src/Auth/Login/Session.antt =====
-- `Login` of src/auth_server/auth_service_impl.cpp once the password is right.
use my_tiny_im.Base.{◌≡◌, refl, Bool, true, Option, List, [], ◌∷◌, ◌++◌, All}
use my_tiny_im.Base.Text.{Text, bytes, c_str, text_eq_self}
use my_tiny_im.Base.Int.{ℤ, pos, to_string}
use my_tiny_im.Services.{
  Event, read_db, db_opened, sql_query, redis_opened, redis_command, RedisReply, Row, sql_rows,
  History, Services, ok,
}
use my_tiny_im.Services.Mysql.{open_db, query, stoll_column, text_column}
use my_tiny_im.Services.Redis.{keys, get, expire, hset, hget, publish}
use my_tiny_im.Services.Trace.{Emits, with_conn-Emits_of, emits_rules}
use my_tiny_im.Chat.{status_ok}
use my_tiny_im.Auth.Account.{kick_channel, kick_message, session_key}
use my_tiny_im.Auth.Login.{
  LoginReq, device_or_pc, login_sql, token_of, location_key, kick_if, look_for_gateway, choose,
  session_calls, open_session, check_row, check_answer, login,
}

-- The calls of a login of a user on a device with a new token, and of the look for a gateway.
pub data LoginCall (user_id : ℤ) (device token : Text) : Event → Type 0 where
  takes_context : (b : Bool) → LoginCall user_id device token (redis_opened b)
  reads_location :
      (reply : Option RedisReply)
      → LoginCall user_id device token
          (redis_command (bytes "HGET" ∷ c_str (location_key user_id) ∷ c_str device ∷ []) reply)
  reads_token :
      (reply : Option RedisReply)
      → LoginCall user_id device token
          (redis_command (bytes "HGET" ∷ c_str (session_key user_id) ∷ c_str device ∷ []) reply)
  kicks_device :
      (reply : Option RedisReply)
      → LoginCall user_id device token (
          redis_command
            (bytes "PUBLISH" ∷ c_str kick_channel ∷ c_str (kick_message user_id device) ∷ [])
            reply)
  stores_token :
      (reply : Option RedisReply)
      → LoginCall user_id device token (
          redis_command
            (bytes "HSET" ∷ c_str (session_key user_id) ∷ c_str device ∷ c_str token ∷ [])
            reply)
  refreshes :
      (reply : Option RedisReply)
      → LoginCall user_id device token (
          redis_command
            (bytes "EXPIRE" ∷ c_str (session_key user_id) ∷ to_string (pos 86400) ∷ [])
            reply)
  lists_gateways :
      (reply : Option RedisReply)
      → LoginCall user_id device token
          (redis_command (bytes "KEYS" ∷ c_str (bytes "im:gateway:*") ∷ []) reply)
  reads_gateway :
      (key : Text) (reply : Option RedisReply)
      → LoginCall user_id device token (redis_command (bytes "GET" ∷ c_str key ∷ []) reply)

module _ (sv : Services) (user_id : ℤ) (device token : Text) where
  abbrev P : Event → Type 0
  P = LoginCall user_id device token

  pub hget_location-Emits : Emits P (hget sv (location_key user_id) device)
  unfolding hget
  hget_location-Emits = with_conn-Emits_of sv _ _ _ takes_context reads_location

  pub hget_token-Emits : Emits P (hget sv (session_key user_id) device)
  unfolding hget
  hget_token-Emits = with_conn-Emits_of sv _ _ _ takes_context reads_token

  pub publish-Emits : Emits P (publish sv kick_channel (kick_message user_id device))
  unfolding publish
  publish-Emits = with_conn-Emits_of sv _ _ _ takes_context kicks_device

  hset-Emits : Emits P (hset sv (session_key user_id) device token)
  unfolding hset
  hset-Emits = with_conn-Emits_of sv _ _ _ takes_context stores_token

  expire-Emits : Emits P (expire sv (session_key user_id) (pos 86400))
  unfolding expire
  expire-Emits = with_conn-Emits_of sv _ _ _ takes_context refreshes

  keys-Emits : Emits P (keys sv (bytes "im:gateway:*"))
  unfolding keys
  keys-Emits = with_conn-Emits_of sv _ _ _ takes_context lists_gateways

  get-Emits : (key : Text) → Emits P (get sv key)
  unfolding get
  get-Emits key = with_conn-Emits_of sv _ _ _ takes_context (reads_gateway key)

  pub kick_if-Emits : (b : Bool) → Emits P (kick_if sv b user_id device)
  unfolding kick_if
  kick_if-Emits b = search (emits_rules, publish-Emits)

  pub choose-Emits : (xs : List Text) → Emits P (choose sv xs)
  unfolding choose
  choose-Emits xs = record { at = λ h. record { value = _; new = []; result = refl; all = tt } }

  look_for_gateway-Emits : Emits P (look_for_gateway sv)
  unfolding look_for_gateway
  look_for_gateway-Emits = search (emits_rules, keys-Emits, choose-Emits, get-Emits) depth 12

  session_calls-Emits : Emits P (session_calls sv user_id device token)
  unfolding session_calls
  session_calls-Emits =
      search
        (
          emits_rules, hget_location-Emits, kick_if-Emits, hget_token-Emits, hset-Emits,
          expire-Emits, look_for_gateway-Emits,
        )
        depth 16

-- With a connection, and the row of the user with a number and with the password that was sent,
-- login succeeds whatever Redis answers: the reply has the user's number, the nickname of the row
-- and the token of this moment; and all that follows the query are calls of Redis: for this user
-- and this device HGET of the location and of the session's token, PUBLISH of a kick, HSET of the
-- token in the reply and EXPIRE of the session, and KEYS of "im:gateway:*" and GETs. So the only
-- device that is kicked is this one, and the only token that is stored is the one in the reply.
pub login_opens_session :
    (sv : Services) (req : LoginReq) (h : History) (row : Row) (rows : List Row) (user_id : ℤ)
    → sv.db_connect h read_db ≡ true
    → sv.mysql (db_opened read_db true ∷ h) read_db (c_str (login_sql req.username))
      ≡ sql_rows (row ∷ rows)
    → stoll_column row 0 ≡ ok user_id
    → text_column row 2 ≡ req.password
    → let found =
        sql_query read_db (c_str (login_sql req.username)) (sql_rows (row ∷ rows))
        ∷ db_opened read_db true
        ∷ h in
      let token = token_of user_id (sv.now found) in
      (new : History) × (login sv req h ≡ (
        ok (
          status_ok,
          record {
            user_id = user_id;
            token = token;
            nickname = text_column row 1;
            success = true;
            error_message = [];
          },
        ),
        new ++ found,
      ))
      × All (LoginCall user_id (device_or_pc req.device) token) new
unfolding login check_answer check_row open_db query open_session
login_opens_session sv req h row rows user_id w a i p =
    let found =
      sql_query read_db (c_str (login_sql req.username)) (sql_rows (row ∷ rows))
      ∷ db_opened read_db true
      ∷ h in
    let calls =
      (session_calls-Emits sv user_id (device_or_pc req.device)
          (token_of user_id (sv.now found))).at
        found in
    (calls.new, rw (w, a, i, p, text_eq_self req.password, calls.result), calls.all)
