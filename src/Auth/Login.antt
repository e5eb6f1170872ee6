-- ===== src/Auth/Login.antt =====
-- `Login` of src/auth_server/auth_service_impl.cpp: the password of the row is compared, a device
-- that is logged in is kicked, and the new token is stored.
pub mod Query
pub mod Session
use my_tiny_im.Base.{
  ℕ, ◌-◌, Bool, true, false, not, Option, none, some, List, [], ◌∷◌, ◌++◌, length, take, get_elem?,
  is_nil, if◌then◌else◌,
}
use my_tiny_im.Base.Text.{Text, bytes, c_str, is_empty, text_eq}
use my_tiny_im.Base.Int.{ℤ, pos, to_string}
use my_tiny_im.Services.{
  read_db, Row, SqlAnswer, sql_failed, sql_rows, sql_done, Services, Outcome, ok, M, ◌>>=◌, ◌>>◌,
  pure, lift,
}
use my_tiny_im.Services.Mysql.{open_db, query, stoll_column, text_column}
use my_tiny_im.Services.Redis.{keys, get, expire, hset, hget, publish}
use my_tiny_im.Chat.{Status, status_ok, internal}
use my_tiny_im.Auth.Account.{kick_channel, kick_message, session_key}

pub record LoginReq : Type 0 where
  pub username : Text
  pub password : Text
  pub device : Text

pub record LoginResp : Type 0 where
  pub user_id : ℤ
  pub token : Text
  pub nickname : Text
  pub success : Bool
  pub error_message : Text

abbrev pub rejected : Text → LoginResp
rejected message = record {
  user_id = pos 0;
  token = [];
  nickname = [];
  success = false;
  error_message = message;
}

abbrev pub device_or_pc : Text → Text
device_or_pc device = if is_empty device then bytes "PC" else device

-- sizeof(sql)
abbrev pub sql_size : ℕ
sql_size = 256

unfoldable pub sql_prefix : Text
sql_prefix = bytes "SELECT user_id, nickname, password_hash FROM im_user WHERE username='"

-- The statement that is meant.
unfoldable pub login_statement : Text → Text
login_statement username = sql_prefix ++ (c_str username ++ b'\'' ∷ [])

-- snprintf keeps what fits, with room for the NUL.
unfoldable pub login_sql : Text → Text
login_sql username = take (sql_size - 1) (login_statement username)

-- GenerateToken
unfoldable pub token_of : ℤ → ℤ → Text
token_of user_id now = bytes "token_" ++ (to_string user_id ++ (bytes "_" ++ to_string now))

unfoldable pub location_key : ℤ → Text
location_key user_id = bytes "im:location:" ++ to_string user_id

abbrev pub nth : List Text → ℕ → Text
nth xs i = elim (get_elem? xs i) [ none ↦ [] | some x ↦ x ]

module _ (sv : Services) where
  abbrev read_now : M ℤ
  read_now h = (ok (sv.now h), h)

  unfoldable pub choose : List Text → M Text
  choose xs h = (ok (nth xs (sv.pick h (length xs - 1))), h)

  -- Published if the device has a location, and again if it has a token.
  unfoldable pub kick_if : Bool → ℤ → Text → M (Unit {0})
  kick_if b user_id device =
      if b then (do publish sv kick_channel (kick_message user_id device); pure tt) else pure tt

  -- The address of a gateway; what it gives is not used.
  unfoldable pub look_for_gateway : M (Unit {0})
  look_for_gateway = do
    gateways ← keys sv (bytes "im:gateway:*")
    if is_nil gateways then pure tt else do chosen ← choose gateways; get sv chosen; pure tt

  -- The calls of Redis for a user, a device and its new token.
  unfoldable pub session_calls : ℤ → Text → Text → M (Unit {0})
  session_calls user_id device token = do
    existing_addr ← hget sv (location_key user_id) device
    kick_if (not (is_empty existing_addr)) user_id device
    old_token ← hget sv (session_key user_id) device
    kick_if (not (is_empty old_token)) user_id device
    hset sv (session_key user_id) device token
    expire sv (session_key user_id) (pos 86400)
    look_for_gateway

  -- From the password's comparison on.
  unfoldable pub open_session : ℤ → Text → Text → M (Status × LoginResp)
  open_session user_id nickname device = do
    now ← read_now
    session_calls user_id device (token_of user_id now)
    pure (
      status_ok,
      record {
        user_id = user_id;
        token = token_of user_id now;
        nickname = nickname;
        success = true;
        error_message = [];
      },
    )

  -- The row that was found.
  unfoldable pub check_row : LoginReq → Row → M (Status × LoginResp)
  check_row req row = do
    user_id ← lift (stoll_column row 0)
    if not (text_eq (text_column row 2) req.password)
        then pure (status_ok, rejected (bytes "Invalid password"))
        else open_session user_id (text_column row 1) (device_or_pc req.device)

  unfoldable pub check_answer : LoginReq → SqlAnswer → M (Status × LoginResp)
  check_answer req (sql_failed errno) = pure (status_ok, rejected (bytes "DB Query Error"))
  check_answer req (sql_done id) = pure (status_ok, rejected (bytes "User not found"))
  check_answer req (sql_rows []) = pure (status_ok, rejected (bytes "User not found"))
  check_answer req (sql_rows (row ∷ rows)) = check_row req row

  unfoldable pub login : LoginReq → M (Status × LoginResp)
  login req = do
    conn ← open_db sv read_db
    if not conn.valid
        then pure (internal (bytes "Database error"), rejected [])
        else do answer ← query sv conn (login_sql req.username); check_answer req answer
