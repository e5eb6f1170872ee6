-- ===== src/Auth/Account.antt =====
-- `Register` and `Logout` of src/auth_server/auth_service_impl.cpp.
use my_tiny_im.Base.{
  ◌≡◌, Bool, true, false, not, ◌||◌, [], ◌∷◌, ◌++◌, if◌then◌else◌, Bool-cases, inl, inr, ◌⊎◌,
}
use my_tiny_im.Base.Text.{Text, bytes, c_str, is_empty}
use my_tiny_im.Base.Int.{ℤ, pos, to_string}
use my_tiny_im.Services.{
  write_db, db_opened, sql_query, History, Services, ok, M, ◌>>=◌, ◌>>◌, pure,
}
use my_tiny_im.Services.Mysql.{open_db, query, is_failed, insert_id}
use my_tiny_im.Services.Redis.{del, hdel, publish}
use my_tiny_im.Chat.{Status, status_ok, internal}

pub record RegisterReq : Type 0 where
  pub username : Text
  pub password : Text
  pub nickname : Text

pub record RegisterResp : Type 0 where
  pub user_id : ℤ
  pub success : Bool
  pub error_message : Text

abbrev pub unregistered : Text → RegisterResp
unregistered message = record { user_id = pos 0; success = false; error_message = message }

unfoldable pub sql_user : Text → Text → Text → Text
sql_user username password nickname =
    bytes "INSERT INTO im_user (username, password_hash, nickname) VALUES ('"
    ++ (username ++ (bytes "', '" ++ (password ++ (bytes "', '" ++ (nickname ++ bytes "')")))))

abbrev pub kick_channel : Text
kick_channel = bytes "im:kick"

-- "user_id:device"
unfoldable pub kick_message : ℤ → Text → Text
kick_message user_id device = to_string user_id ++ b':' ∷ device

unfoldable pub session_key : ℤ → Text
session_key user_id = bytes "im:session:" ++ to_string user_id

pub record LogoutReq : Type 0 where
  pub user_id : ℤ
  pub token : Text
  pub device : Text

module _ (sv : Services) where
  unfoldable pub register : RegisterReq → M (Status × RegisterResp)
  register req =
      if is_empty req.username || is_empty req.password
      then pure (status_ok, unregistered (bytes "Username or password cannot be empty"))
      else do
        conn ← open_db sv write_db
        if not conn.valid then pure (internal (bytes "Database error"), unregistered []) else do
          stored ← query sv conn (sql_user req.username req.password req.nickname)
          if is_failed stored
              then pure (status_ok, unregistered (bytes "Register failed: User may exist"))
              else pure (
                status_ok,
                record { user_id = insert_id stored; success = true; error_message = [] },
              )

  -- The reply's success.
  unfoldable pub logout : LogoutReq → M (Status × Bool)
  logout req =
      if is_empty req.device
      then (do del sv (session_key req.user_id); pure (status_ok, true))
      else (do
        hdel sv (session_key req.user_id) req.device
        publish sv kick_channel (kick_message req.user_id req.device)
        pure (status_ok, true))

-- A name and a password that are not empty, on a connection that is there: one statement is
-- executed, and the reply is a success with the new user's id exactly if it did not fail.
pub register_stores :
    (sv : Services) (req : RegisterReq) (h : History)
    → is_empty req.username ≡ false
    → is_empty req.password ≡ false
    → sv.db_connect h write_db ≡ true
    → let sql = c_str (sql_user req.username req.password req.nickname) in
      let answer = sv.mysql (db_opened write_db true ∷ h) write_db sql in
      let after = sql_query write_db sql answer ∷ db_opened write_db true ∷ h in
      ((is_failed answer ≡ true)
        × (register sv req h
            ≡ (ok (status_ok, unregistered (bytes "Register failed: User may exist")), after)))
      ⊎ ((is_failed answer ≡ false)
          × (register sv req h ≡ (
            ok (
              status_ok,
              record { user_id = insert_id answer; success = true; error_message = [] },
            ),
            after,
          )))
unfolding register open_db query
register_stores sv req h u p w =
    elim (Bool-cases (
      is_failed (
        sv.mysql (db_opened write_db true ∷ h) write_db
          (c_str (sql_user req.username req.password req.nickname))))) [
            | inl e ↦ inl (e, rw (u, p, w, e))
            | inr e ↦ inr (e, rw (u, p, w, e))
          ]
