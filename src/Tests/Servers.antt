-- ===== src/Tests/Servers.antt =====
-- Runs of the auth server, of a gateway's listener, and of service discovery.
use my_tiny_im.Base.{
  ℕ, ◌+◌, ◌%◌, ◌≡◌, ◌≤◌, ◌↔◌, refl, true, false, ◌&&◌, ◌||◌, List, [], ◌∷◌, ◌++◌, All, ◌⊎◌, some,
  none, length, arith, if◌then◌else◌,
}
use my_tiny_im.Base.Text.{Text, bytes, c_str, text_eq, is_empty}
use my_tiny_im.Base.Int.{ℤ, pos, stoll}
use my_tiny_im.Base.Eq.{text_Eq}
use my_tiny_im.Base.Map.{lookup}
use my_tiny_im.Services.{
  write_db, read_db, sql_query, db_opened, sql_rows, History, Services, Row, ok,
}
use my_tiny_im.Services.Mysql.{is_failed, insert_id, text_column, stoll_column}
use my_tiny_im.Chat.{status_ok}
use my_tiny_im.Auth.Account.{
  RegisterReq, unregistered, sql_user, register, register_stores, kick_message,
}
use my_tiny_im.Auth.Login.{
  LoginReq, device_or_pc, login_sql, login_statement, sql_prefix, token_of, login,
}
use my_tiny_im.Auth.Login.Query.{login_sql-fits}
use my_tiny_im.Auth.Login.Session.{LoginCall, login_opens_session}
use my_tiny_im.Gateway.Connections.{SessionCall}
use my_tiny_im.Gateway.Connections.Table.{is_joined, TableCall, joins, run, run-IsTable}
use my_tiny_im.Gateway.Connections.Delivery.{kicked}
use my_tiny_im.Gateway.Service.{on_kick}
use my_tiny_im.Gateway.Service.Kick.{on_kick-kicked}
use my_tiny_im.Registry.{Registry, observe}
use my_tiny_im.Registry.Rotation.{
  index_of, selections, rotation, selections-rotation, selections-round,
}
use my_tiny_im.Registry.Cache.{IsCache, observe_twice}
use my_tiny_im.Tests.Stub.{stub}

abbrev ann : RegisterReq
ann = record { username = bytes "ann"; password = bytes "pw"; nickname = bytes "Ann" }

register_stores_example :
    let sql = c_str (sql_user (bytes "ann") (bytes "pw") (bytes "Ann")) in
    let answer = (stub []).mysql (db_opened write_db true ∷ []) write_db sql in
    let after = sql_query write_db sql answer ∷ db_opened write_db true ∷ [] in
    ((is_failed answer ≡ true)
      × (register (stub []) ann []
          ≡ (ok (status_ok, unregistered (bytes "Register failed: User may exist")), after)))
    ⊎ ((is_failed answer ≡ false)
        × (register (stub []) ann [] ≡ (
          ok (status_ok, record { user_id = insert_id answer; success = true; error_message = [] }),
          after,
        )))
unfolding bytes
register_stores_example = register_stores (stub []) ann [] refl refl refl

login_sql-fits_example :
    (login_sql (bytes "ann") ≡ login_statement (bytes "ann")) ↔ (length (c_str (bytes "ann")) ≤ 185)
login_sql-fits_example = login_sql-fits (bytes "ann")

abbrev ann_row : Row
ann_row = some (bytes "7") ∷ some (bytes "Ann") ∷ some (bytes "pw") ∷ []

abbrev one_user : Services
one_user = stub (ann_row ∷ [])

abbrev wrong : LoginReq
wrong = record { username = bytes "ann"; password = []; device = [] }

abbrev right : LoginReq
right = record { username = bytes "ann"; password = bytes "pw"; device = [] }

login_opens_session_example :
    let found =
      sql_query read_db (c_str (login_sql (bytes "ann"))) (sql_rows (ann_row ∷ []))
      ∷ db_opened read_db true
      ∷ [] in
    let token = token_of (pos 7) (one_user.now found) in
    (new : History) × (login one_user right [] ≡ (
      ok (
        status_ok,
        record {
          user_id = pos 7;
          token = token;
          nickname = text_column ann_row 1;
          success = true;
          error_message = [];
        },
      ),
      new ++ found,
    ))
    × All (LoginCall (pos 7) (device_or_pc []) token) new
unfolding text_eq c_str bytes login_sql login_statement sql_prefix stoll_column stoll text_column
login_opens_session_example =
    login_opens_session one_user right [] ann_row [] (pos 7) refl refl refl refl

abbrev one_session : List TableCall
one_session = joins (pos 7) 2 ∷ []

abbrev device_of : ℕ → Text
device_of s = bytes "PC"

on_kick-kicked_example :
    (calls : List SessionCall) × (on_kick device_of
        (c_str (kick_message (pos 7) (bytes "PC")))
        (run [] one_session)
      ≡ ok calls)
    × (kicked 2 calls ≡ (
        if is_joined (run [] one_session) (pos 7) 2
          && (is_empty (bytes "PC") || text_eq (device_of 2) (bytes "PC"))
        then 1
        else 0))
unfolding c_str bytes
on_kick-kicked_example =
    on_kick-kicked device_of (pos 7) (bytes "PC") (run [] one_session) 2 (omega arith) refl
      (run-IsTable [] one_session tt)

abbrev serialize_notify : ℤ → ℤ → Text
serialize_notify max_seq type = bytes "n"

abbrev chat : Text
chat = bytes "chat"

abbrev two_addresses : List Text
two_addresses = bytes "127.0.0.1:1" ∷ bytes "127.0.0.1:2" ∷ []

selections-rotation_example :
    ((selections 3 chat two_addresses []).0 ≡ rotation 3 0 two_addresses)
    × (index_of chat (selections 3 chat two_addresses []).1 ≡ (0 + 3) % 2)
unfolding lookup
selections-rotation_example = selections-rotation 3 chat two_addresses [] (omega arith)

selections-round_example :
    ((selections 2 chat two_addresses []).0 ≡ two_addresses)
    × (index_of chat (selections 2 chat two_addresses []).1 ≡ 0)
unfolding lookup
selections-round_example = selections-round chat two_addresses [] (λ e. cc e) refl

abbrev registry : Registry
registry = record {
  registered = none;
  observed_services = chat ∷ [];
  cache = (chat, two_addresses) ∷ [];
  rr_index = [];
}

registry-IsCache : IsCache registry
unfolding bytes
registry-IsCache = ((refl, (refl, tt)), tt)

observe_twice_example : observe chat (observe chat registry) ≡ observe chat registry
observe_twice_example = observe_twice chat registry
