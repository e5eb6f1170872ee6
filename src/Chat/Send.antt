-- ===== src/Chat/Send.antt =====
-- `ChatServiceImpl::SendMessage` of src/chat_server/chat_service_impl.cpp: the body is stored once,
-- then an index row for each recipient, and each location of a recipient that is online is notified.
pub mod Single
pub mod Group
pub mod Notified
pub mod Refused
use my_tiny_im.Base.{
  Bool, true, false, not, ◌&&◌, ◌||◌, is_nil, Option, none, some, List, [], ◌∷◌, ◌++◌,
  if◌then◌else◌,
}
use my_tiny_im.Base.Text.{Text, bytes, c_str}
use my_tiny_im.Base.Int.{ℤ, pos, is_positive, int_eq, to_string}
use my_tiny_im.Services.{
  write_db, read_db, Row, SqlAnswer, sql_failed, sql_rows, sql_done, RedisReply, integer_reply,
  push_notify, Services, Outcome, ok, thrown, fault, M, ◌>>=◌, ◌>>◌, pure, lift, emit,
}
use my_tiny_im.Services.Mysql.{DbConn, open_db, query, is_failed, insert_id, stoll_column}
use my_tiny_im.Services.Redis.{with_conn, exists, hgetall}
use my_tiny_im.Chat.{SendMessageReq, SendMessageResp, blank, Status, status_ok, internal}

unfoldable pub sql_body : ℤ → ℤ → ℤ → Text → Text
sql_body sender_id group_id type safe_content =
    bytes "INSERT INTO im_message_body (sender_id, group_id, msg_type, msg_content) VALUES ("
    ++ (to_string sender_id
        ++ (bytes ", "
            ++ (to_string group_id
                ++ (bytes ", "
                    ++ (to_string type ++ (bytes ", '" ++ (safe_content ++ bytes "')")))))))

unfoldable pub sql_members : ℤ → Text
sql_members group_id =
    bytes "SELECT user_id FROM im_group_member WHERE group_id=" ++ to_string group_id

unfoldable pub sql_relation : ℤ → ℤ → Text
sql_relation user_id friend_id =
    bytes "SELECT status FROM im_relation WHERE user_id="
    ++ (to_string user_id ++ (bytes " AND friend_id=" ++ to_string friend_id))

unfoldable pub sql_index_head : Text
sql_index_head =
    bytes "INSERT INTO im_message_index (owner_id, other_id, msg_id, seq_id, is_sender) VALUES "

-- (owner, other, msg, seq, 0)
unfoldable pub index_tuple : ℤ → ℤ → ℤ → ℤ → Text
index_tuple owner_id other_id msg_id seq_id =
    bytes "("
    ++ (to_string owner_id
        ++ (bytes ", "
            ++ (to_string other_id
                ++ (bytes ", "
                    ++ (to_string msg_id ++ (bytes ", " ++ (to_string seq_id ++ bytes ", 0)")))))))

unfoldable pub seq_key : ℤ → Text
seq_key uid = bytes "im:seq:" ++ to_string uid

unfoldable pub session_key : ℤ → Text
session_key uid = bytes "im:session:" ++ to_string uid

unfoldable pub location_key : ℤ → Text
location_key uid = bytes "im:location:" ++ to_string uid

abbrev pub success_reply : ℤ → ℤ → SendMessageResp
success_reply msg_id seq_id = record blank { msg_id = msg_id; seq_id = seq_id; success = true }

-- The rows of the member query; a user_id that is no number raises.
unfoldable read_members : List Row → Outcome (List ℤ)
read_members [] = ok []
read_members (row ∷ rows) =
    let rest = read_members rows in
    elim (stoll_column row 0) [
      | ok uid ↦ elim rest [ ok uids ↦ ok (uid ∷ uids) | thrown ↦ thrown | fault ↦ fault ]
      | thrown ↦ thrown
      | fault ↦ fault
    ]

unfoldable pub members_of : SqlAnswer → Outcome (List ℤ)
unfolding read_members
members_of (sql_failed errno) = ok []
members_of (sql_done id) = ok []
members_of (sql_rows rows) = read_members rows

abbrev pub status_is_one : Outcome ℤ → Outcome Bool
status_is_one (ok status) = ok (int_eq status (pos 1))
status_is_one thrown = thrown
status_is_one fault = fault

-- Whether the first row of the relation query has status 1.
unfoldable pub friend_of : SqlAnswer → Outcome Bool
friend_of (sql_failed errno) = ok false
friend_of (sql_done id) = ok false
friend_of (sql_rows []) = ok false
friend_of (sql_rows (row ∷ rows)) = status_is_one (stoll_column row 0)

abbrev pub integer_or_zero : Option RedisReply → ℤ
integer_or_zero (some (integer_reply n)) = n
integer_or_zero _ = pos 0

module _ (sv : Services) where
  -- INCR of a user's sequence; 0 where Redis gives no number.
  unfoldable pub next_seq : ℤ → M ℤ
  next_seq uid = with_conn sv (bytes "INCR" ∷ c_str (seq_key uid) ∷ []) (pos 0) integer_or_zero

  -- One PushNotify for each device's address; what it returns or raises is dropped.
  unfoldable pub push_all : ℤ → ℤ → ℤ → List (Text × Text) → M (Unit {0})
  push_all uid seq type [] = pure tt
  push_all uid seq type ((device, addr) ∷ locations) = do
    emit (push_notify addr uid seq type)
    push_all uid seq type locations

  -- The loop that numbers the members and builds the batch statement.
  unfoldable pub number_members : ℤ → ℤ → List ℤ → Text → M (Text × List (ℤ × ℤ))
  number_members group_id msg_id [] batch_sql = pure (batch_sql, [])
  number_members group_id msg_id (uid ∷ members) batch_sql = do
    seq ← next_seq uid
    let appended = batch_sql ++ index_tuple uid group_id msg_id seq
    (sql, targets) ←
        number_members group_id msg_id members
          (if is_nil members then appended else appended ++ bytes ",")
    pure (sql, (uid, seq) ∷ targets)

  -- The push to one member of a group: to every location, if the member has a session.
  unfoldable pub push_member : ℤ → ℤ × ℤ → M (Unit {0})
  push_member type (uid, seq) = do
    online ← exists sv (session_key uid)
    if online
        then (do locations ← hgetall sv (location_key uid); push_all uid seq type locations)
        else pure tt

  unfoldable pub push_members : ℤ → List (ℤ × ℤ) → M (Unit {0})
  push_members type [] = pure tt
  push_members type (target ∷ targets) = do push_member type target; push_members type targets

  -- The branch for a group, once the body is stored.
  unfoldable pub send_group : DbConn → DbConn → SendMessageReq → ℤ → M (Status × SendMessageResp)
  send_group conn read_conn req msg_id = do
    found ← query sv read_conn (sql_members req.group_id)
    members ← lift (members_of found)
    if is_nil members then pure (status_ok, success_reply msg_id (pos 0)) else do
      (batch_sql, targets) ← number_members req.group_id msg_id members sql_index_head
      query sv conn batch_sql
      push_members req.type targets
      pure (status_ok, success_reply msg_id (pos 0))

  -- The push of a single chat: to every location, if there is one.
  unfoldable pub push_receiver : SendMessageReq → ℤ → M (Unit {0})
  push_receiver req seq_id = do
    online ← exists sv (location_key req.receiver_id)
    if online
        then (do
          locations ← hgetall sv (location_key req.receiver_id)
          push_all req.receiver_id seq_id req.type locations)
        else pure tt

  -- The branch for a single receiver, once the body is stored.
  unfoldable pub send_single : DbConn → SendMessageReq → ℤ → M (Status × SendMessageResp)
  send_single conn req msg_id = do
    relation ← query sv conn (sql_relation req.sender_id req.receiver_id)
    is_friend ← lift (friend_of relation)
    if not is_friend && (not (int_eq req.type (pos 3)) && not (int_eq req.type (pos 4)))
        then pure (status_ok, record blank { error_message = bytes "Not friends" })
        else do
          seq_id ← next_seq req.receiver_id
          stored ←
              query sv conn
                (sql_index_head ++ index_tuple req.receiver_id req.sender_id msg_id seq_id)
          if is_failed stored
              then pure (status_ok, blank)
              else do push_receiver req seq_id; pure (status_ok, success_reply msg_id seq_id)

  unfoldable pub send_message : SendMessageReq → M (Status × SendMessageResp)
  send_message req = do
    conn ← open_db sv write_db
    read_conn ← open_db sv read_db
    if not conn.valid || not read_conn.valid
        then pure (internal (bytes "Database Error"), blank)
        else do
          let safe_content = c_str (sv.escape req.content)
          body ← query sv conn (sql_body req.sender_id req.group_id req.type safe_content)
          if is_failed body
              then pure (status_ok, record blank { error_message = bytes "Save Body Failed" })
              else if is_positive req.group_id
              then send_group conn read_conn req (insert_id body)
              else send_single conn req (insert_id body)
