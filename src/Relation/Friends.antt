-- ===== src/Relation/Friends.antt =====
-- `ApplyFriend`, `AcceptFriend` and `GetFriendList` of src/user_server/relation_service_impl.cpp.
pub mod Requests
use my_tiny_im.Base.{Bool, true, false, not, List, [], ◌∷◌, ◌++◌, if◌then◌else◌}
use my_tiny_im.Base.Text.{Text, bytes}
use my_tiny_im.Base.Int.{ℤ, pos, int_eq, to_string}
use my_tiny_im.Services.{
  write_db, read_db, Row, SqlAnswer, sql_failed, sql_rows, sql_done, Services, Outcome, ok, thrown,
  fault, M, ◌>>=◌, ◌>>◌, pure, lift, bind,
}
use my_tiny_im.Services.Mysql.{open_db, query, is_failed, insert_id, stoll_column, text_column}
use my_tiny_im.Chat.{Status, status_ok, internal}
use my_tiny_im.Relation.{system_type, friend_req_type, send_chat, has_row, read_rows}

pub record ApplyFriendReq : Type 0 where
  pub user_id : ℤ
  pub friend_id : ℤ
  pub remark : Text

pub record ApplyFriendResp : Type 0 where
  pub success : Bool
  pub error_message : Text
  pub apply_id : ℤ

abbrev pub refused : Text → ApplyFriendResp
refused message = record { success = false; error_message = message; apply_id = pos 0 }

unfoldable pub sql_pending : ℤ → ℤ → Text
sql_pending user_id friend_id =
    bytes "SELECT id FROM im_friend_request WHERE user_id="
    ++ (to_string user_id
        ++ (bytes " AND friend_id=" ++ (to_string friend_id ++ bytes " AND status=0")))

unfoldable pub sql_request : ℤ → ℤ → Text → Text
sql_request user_id friend_id remark =
    bytes "INSERT INTO im_friend_request (user_id, friend_id, remark) VALUES ("
    ++ (to_string user_id
        ++ (bytes ", " ++ (to_string friend_id ++ (bytes ", '" ++ (remark ++ bytes "')")))))

pub record AcceptFriendReq : Type 0 where
  pub user_id : ℤ
  pub requester_id : ℤ
  pub accept : Bool

pub record AcceptFriendResp : Type 0 where
  pub success : Bool
  pub error_message : Text

unfoldable pub sql_befriend : ℤ → ℤ → Text
sql_befriend user_id requester_id =
    bytes "INSERT IGNORE INTO im_relation (user_id, friend_id, status) VALUES "
    ++ (bytes "("
        ++ (to_string user_id
            ++ (bytes ","
                ++ (to_string requester_id
                    ++ (bytes ",1), "
                        ++ (bytes "("
                            ++ (to_string requester_id
                                ++ (bytes "," ++ (to_string user_id ++ bytes ",1)")))))))))

pub record FriendInfo : Type 0 where
  pub user_id : ℤ
  pub nickname : Text

pub record GetFriendListResp : Type 0 where
  pub friends : List FriendInfo
  pub success : Bool

unfoldable pub sql_friends : ℤ → Text
sql_friends user_id =
    bytes
      "SELECT r.friend_id, u.nickname, u.username FROM im_relation r JOIN im_user u ON r.friend_id = u.user_id WHERE r.user_id = "
    ++ (to_string user_id ++ bytes " AND r.status = 1")

unfoldable pub read_friend : Row → Outcome FriendInfo
read_friend row =
    bind (stoll_column row 0) λ uid. ok (record { user_id = uid; nickname = text_column row 1 })

unfoldable pub friends_reply : SqlAnswer → Outcome GetFriendListResp
friends_reply (sql_failed errno) = ok (record { friends = []; success = false })
friends_reply (sql_done id) = ok (record { friends = []; success = true })
friends_reply (sql_rows rows) =
    bind (read_rows read_friend rows) λ items. ok (record { friends = items; success = true })

module _ (sv : Services) where
  unfoldable pub apply_friend : ApplyFriendReq → M (Status × ApplyFriendResp)
  apply_friend req =
      if int_eq req.user_id req.friend_id
      then pure (status_ok, refused (bytes "Cannot add self"))
      else do
        conn ← open_db sv write_db
        if not conn.valid then pure (internal (bytes "DB Error"), refused []) else do
          pending ← query sv conn (sql_pending req.user_id req.friend_id)
          if has_row pending
              then pure (status_ok, refused (bytes "Request already pending"))
              else do
                stored ← query sv conn (sql_request req.user_id req.friend_id req.remark)
                if is_failed stored then pure (status_ok, refused (bytes "Apply failed")) else do
                  send_chat req.user_id req.friend_id (pos 0) friend_req_type
                      (bytes "Friend Request")
                  pure (
                    status_ok,
                    record { success = true; error_message = []; apply_id = insert_id stored },
                  )

  unfoldable pub accept_friend : AcceptFriendReq → M (Status × AcceptFriendResp)
  accept_friend req = do
    conn ← open_db sv write_db
    if req.accept
        then (do
          query sv conn (sql_befriend req.user_id req.requester_id)
          send_chat (pos 0) req.requester_id (pos 0) system_type (bytes "Friend Request Accepted")
          pure (status_ok, record { success = true; error_message = [] }))
        else pure (status_ok, record { success = true; error_message = [] })

  unfoldable pub get_friend_list : ℤ → M (Status × GetFriendListResp)
  get_friend_list user_id = do
    conn ← open_db sv read_db
    answer ← query sv conn (sql_friends user_id)
    reply ← lift (friends_reply answer)
    pure (status_ok, reply)
