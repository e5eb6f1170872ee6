-- ===== src/Relation/Groups.antt =====
-- `CreateGroup`, `JoinGroup`, `GetGroupList`, `ApplyGroup` and `AcceptGroup` of
-- src/user_server/relation_service_impl.cpp.
pub mod Members
use my_tiny_im.Base.{
  ℕ, Bool, true, false, not, Option, none, some, List, [], ◌∷◌, ◌++◌, ◌==◌, if◌then◌else◌,
}
use my_tiny_im.Base.Text.{Text, bytes}
use my_tiny_im.Base.Int.{ℤ, pos, int_eq, to_string}
use my_tiny_im.Services.{
  write_db, read_db, Row, SqlAnswer, sql_failed, sql_rows, sql_done, Services, Outcome, ok, thrown,
  fault, M, ◌>>=◌, ◌>>◌, pure, lift, bind,
}
use my_tiny_im.Services.Mysql.{
  DbConn, open_db, query, is_failed, insert_id, stoll_column, text_column,
}
use my_tiny_im.Chat.{Status, status_ok}
use my_tiny_im.Relation.{system_type, friend_req_type, send_chat, has_row, first_row, read_rows}

pub record CreateGroupReq : Type 0 where
  pub owner_id : ℤ
  pub group_name : Text
  pub initial_members : List ℤ

pub record CreateGroupResp : Type 0 where
  pub group_id : ℤ
  pub success : Bool

unfoldable pub sql_group : Text → ℤ → Text
sql_group name owner_id =
    bytes "INSERT INTO im_group (group_name, owner_id) VALUES ('"
    ++ (name ++ (bytes "', " ++ (to_string owner_id ++ bytes ")")))

-- The row of a member; role 2 is the owner, 1 a member.
unfoldable pub sql_member : ℤ → ℤ → ℤ → Text
sql_member group_id user_id role =
    bytes "INSERT INTO im_group_member (group_id, user_id, role) VALUES ("
    ++ (to_string group_id
        ++ (bytes ", " ++ (to_string user_id ++ (bytes ", " ++ (to_string role ++ bytes ")")))))

unfoldable pub sql_is_member : ℤ → ℤ → Text
sql_is_member group_id user_id =
    bytes "SELECT id FROM im_group_member WHERE group_id="
    ++ (to_string group_id ++ (bytes " AND user_id=" ++ to_string user_id))

pub record JoinGroupReq : Type 0 where
  pub user_id : ℤ
  pub group_id : ℤ

pub record JoinGroupResp : Type 0 where
  pub success : Bool
  pub error_message : Text

abbrev pub joined : Bool → JoinGroupResp
joined success = record { success = success; error_message = [] }

-- mysql_errno(conn) == 1062, the number of a duplicate entry
abbrev pub is_duplicate : SqlAnswer → Bool
is_duplicate (sql_failed errno) = errno == 1062
is_duplicate (sql_rows rows) = false
is_duplicate (sql_done id) = false

pub record GroupInfo : Type 0 where
  pub group_id : ℤ
  pub group_name : Text
  pub owner_id : ℤ

pub record GetGroupListResp : Type 0 where
  pub groups : List GroupInfo
  pub success : Bool

unfoldable pub sql_groups : ℤ → Text
sql_groups user_id =
    bytes
      "SELECT g.group_id, g.group_name, g.owner_id FROM im_group_member m JOIN im_group g ON m.group_id = g.group_id WHERE m.user_id = "
    ++ to_string user_id

unfoldable pub read_group : Row → Outcome GroupInfo
read_group row = bind (stoll_column row 0) λ group_id. bind (stoll_column row 2) λ owner_id.
    ok (record { group_id = group_id; group_name = text_column row 1; owner_id = owner_id })

unfoldable pub groups_reply : SqlAnswer → Outcome GetGroupListResp
groups_reply (sql_failed errno) = ok (record { groups = []; success = false })
groups_reply (sql_done id) = ok (record { groups = []; success = true })
groups_reply (sql_rows rows) =
    bind (read_rows read_group rows) λ items. ok (record { groups = items; success = true })

pub record ApplyGroupReq : Type 0 where
  pub user_id : ℤ
  pub group_id : ℤ
  pub remark : Text

pub record ApplyGroupResp : Type 0 where
  pub success : Bool
  pub error_message : Text
  pub apply_id : ℤ

unfoldable pub sql_group_request : ℤ → ℤ → Text → Text
sql_group_request group_id user_id remark =
    bytes "INSERT INTO im_group_request (group_id, user_id, remark, status) VALUES ("
    ++ (to_string group_id
        ++ (bytes ", " ++ (to_string user_id ++ (bytes ", '" ++ (remark ++ bytes "', 0)")))))

unfoldable pub sql_owner : ℤ → Text
sql_owner group_id = bytes "SELECT owner_id FROM im_group WHERE group_id=" ++ to_string group_id

pub record AcceptGroupReq : Type 0 where
  pub user_id : ℤ
  pub requester_id : ℤ
  pub group_id : ℤ
  pub accept : Bool

pub record AcceptGroupResp : Type 0 where
  pub success : Bool
  pub error_message : Text

abbrev pub accepted : AcceptGroupResp
accepted = record { success = true; error_message = [] }

module _ (sv : Services) where
  -- One round of the loop over the initial members, which leaves out the owner.
  unfoldable pub add_member : DbConn → ℤ → ℤ → ℤ → M (Unit {0})
  add_member conn group_id owner_id uid =
      if int_eq uid owner_id
      then pure tt
      else do query sv conn (sql_member group_id uid (pos 1)); pure tt

  unfoldable pub add_members : DbConn → ℤ → ℤ → List ℤ → M (Unit {0})
  add_members conn group_id owner_id [] = pure tt
  add_members conn group_id owner_id (uid ∷ uids) = do
    add_member conn group_id owner_id uid
    add_members conn group_id owner_id uids

  unfoldable pub create_group : CreateGroupReq → M (Status × CreateGroupResp)
  create_group req = do
    conn ← open_db sv write_db
    stored ← query sv conn (sql_group req.group_name req.owner_id)
    if is_failed stored then pure (status_ok, record { group_id = pos 0; success = false }) else do
      let group_id = insert_id stored
      query sv conn (sql_member group_id req.owner_id (pos 2))
      add_members conn group_id req.owner_id req.initial_members
      pure (status_ok, record { group_id = group_id; success = true })

  unfoldable pub join_group : JoinGroupReq → M (Status × JoinGroupResp)
  join_group req = do
    conn ← open_db sv write_db
    found ← query sv conn (sql_is_member req.group_id req.user_id)
    if has_row found then pure (status_ok, joined true) else do
      stored ← query sv conn (sql_member req.group_id req.user_id (pos 1))
      if is_failed stored then pure (status_ok, joined (is_duplicate stored)) else do
        send_chat req.user_id (pos 0) req.group_id system_type
            (bytes "User " ++ (to_string req.user_id ++ bytes " joined the group"))
        pure (status_ok, joined true)

  unfoldable pub get_group_list : ℤ → M (Status × GetGroupListResp)
  get_group_list user_id = do
    conn ← open_db sv read_db
    answer ← query sv conn (sql_groups user_id)
    reply ← lift (groups_reply answer)
    pure (status_ok, reply)

  -- The message to the owner of the group, if the query gives one.
  unfoldable pub notify_owner : Option Row → M (Unit {0})
  notify_owner none = pure tt
  notify_owner (some row) = do
    owner_id ← lift (stoll_column row 0)
    send_chat (pos 0) owner_id (pos 0) friend_req_type (bytes "Group Join Request")

  unfoldable pub apply_group : ApplyGroupReq → M (Status × ApplyGroupResp)
  apply_group req = do
    conn ← open_db sv write_db
    found ← query sv conn (sql_is_member req.group_id req.user_id)
    if has_row found
        then pure (
          status_ok,
          record { success = false; error_message = bytes "Already a member"; apply_id = pos 0 },
        )
        else do
          stored ← query sv conn (sql_group_request req.group_id req.user_id req.remark)
          if is_failed stored
              then pure (
                status_ok,
                record { success = false; error_message = bytes "Apply failed"; apply_id = pos 0 },
              )
              else do
                owner ← query sv conn (sql_owner req.group_id)
                notify_owner (first_row owner)
                pure (
                  status_ok,
                  record { success = true; error_message = []; apply_id = insert_id stored },
                )

  unfoldable pub accept_group : AcceptGroupReq → M (Status × AcceptGroupResp)
  accept_group req = do
    conn ← open_db sv write_db
    if req.accept
        then (do
          query sv conn (sql_member req.group_id req.requester_id (pos 1))
          send_chat (pos 0) req.requester_id (pos 0) system_type
              (bytes "Your group join request was accepted")
          pure (status_ok, accepted))
        else pure (status_ok, accepted)
