-- ===== src/Tests/Relation.antt =====
-- Runs of the relation server's handlers.
use my_tiny_im.Base.{◌≡◌, ◌≢◌, refl, true, false, List, [], ◌∷◌, All, ◌⊎◌, arith}
use my_tiny_im.Base.Text.{bytes, c_str, text_eq}
use my_tiny_im.Base.Int.{ℤ, pos}
use my_tiny_im.Services.{write_db, read_db, sql_query, db_opened, chat_send, sql_rows, Services, ok}
use my_tiny_im.Services.Mysql.{is_failed, insert_id}
use my_tiny_im.Services.Leaves.{Grows}
use my_tiny_im.Chat.{status_ok}
use my_tiny_im.Relation.{has_row, friend_req_type}
use my_tiny_im.Relation.Friends.{
  ApplyFriendReq, AcceptFriendReq, refused, apply_friend, FriendInfo, sql_friends, get_friend_list,
}
use my_tiny_im.Relation.Friends.Requests.{
  pending_text, request_text, asked, apply_friend_once, apply_friend_self, friend_row,
  get_friend_list_returns,
}
use my_tiny_im.Relation.Groups.{
  CreateGroupReq, sql_group, sql_member, create_group, JoinGroupReq, GroupInfo, sql_groups,
  get_group_list,
}
use my_tiny_im.Relation.Groups.Members.{
  others, written, executed, create_group_writes, group_row, get_group_list_returns,
}
use my_tiny_im.Relation.Notify.{
  PassesCheck, applies_friend, accepts_friend, history_after, history_after-Grows,
}
use my_tiny_im.Relation.Unconnected.{faults, is_untested, faults_unconnected}
use my_tiny_im.Tests.Stub.{stub}

abbrev request : ApplyFriendReq
request = record { user_id = pos 1; friend_id = pos 2; remark = bytes "hi" }

abbrev own_request : ApplyFriendReq
own_request = record { user_id = pos 1; friend_id = pos 1; remark = [] }

abbrev no_rows : Services
no_rows = stub []

apply_friend_once_example :
    let found =
      no_rows.mysql (db_opened write_db true ∷ []) write_db (pending_text no_rows request []) in
    let answer =
      no_rows.mysql (asked no_rows request []) write_db (request_text no_rows request []) in
    let stored =
      sql_query write_db (request_text no_rows request []) answer ∷ asked no_rows request [] in
    ((has_row found ≡ true)
      × (apply_friend no_rows request []
          ≡ (ok (status_ok, refused (bytes "Request already pending")), asked no_rows request [])))
    ⊎ (((has_row found ≡ false)
          × (is_failed answer ≡ true)
          × (apply_friend no_rows request []
              ≡ (ok (status_ok, refused (bytes "Apply failed")), stored)))
        ⊎ ((has_row found ≡ false)
            × (is_failed answer ≡ false)
            × (apply_friend no_rows request [] ≡ (
              ok (
                status_ok,
                record { success = true; error_message = []; apply_id = insert_id answer },
              ),
              chat_send (pos 1) (pos 2) (pos 0) friend_req_type (bytes "Friend Request") ∷ stored,
            ))))
apply_friend_once_example = apply_friend_once no_rows request [] refl (λ e. cc e)

apply_friend_self_example :
    apply_friend no_rows own_request [] ≡ (ok (status_ok, refused (bytes "Cannot add self")), [])
apply_friend_self_example = apply_friend_self no_rows own_request [] refl

abbrev bob : FriendInfo
bob = record { user_id = pos 2; nickname = bytes "bob" }

get_friend_list_returns_example : get_friend_list (stub (friend_row bob ∷ [])) (pos 1) [] ≡ (
  ok (status_ok, record { friends = bob ∷ []; success = true }),
  sql_query read_db (c_str (sql_friends (pos 1))) (sql_rows (friend_row bob ∷ []))
      ∷ db_opened read_db true
      ∷ [],
)
unfolding text_eq c_str bytes sql_friends
get_friend_list_returns_example =
    get_friend_list_returns (stub (friend_row bob ∷ [])) (pos 1) [] (bob ∷ []) refl refl
      ((omega arith, refl), tt)

abbrev new_group : CreateGroupReq
new_group = record {
  owner_id = pos 1;
  group_name = bytes "team";
  initial_members = pos 1 ∷ pos 2 ∷ [];
}

create_group_writes_example :
    let opened = db_opened write_db true ∷ [] in
    let sql = sql_group (bytes "team") (pos 1) in
    let answer = no_rows.mysql opened write_db (c_str sql) in
    (members : List ℤ) × (members ≡ others (pos 1) (pos 1 ∷ pos 2 ∷ []))
    × All (λ uid. uid ≢ pos 1) members
    × (create_group no_rows new_group [] ≡ (
      ok (status_ok, record { group_id = insert_id answer; success = true }),
      written no_rows (insert_id answer) members (
          executed no_rows
            (sql_member (insert_id answer) (pos 1) (pos 2))
            (executed no_rows sql opened)),
    ))
unfolding text_eq c_str bytes sql_group
create_group_writes_example = create_group_writes no_rows new_group [] refl refl

abbrev join_team : JoinGroupReq
join_team = record { user_id = pos 2; group_id = pos 77 }

abbrev team : GroupInfo
team = record { group_id = pos 77; group_name = bytes "team"; owner_id = pos 1 }

get_group_list_returns_example : get_group_list (stub (group_row team ∷ [])) (pos 1) [] ≡ (
  ok (status_ok, record { groups = team ∷ []; success = true }),
  sql_query read_db (c_str (sql_groups (pos 1))) (sql_rows (group_row team ∷ []))
      ∷ db_opened read_db true
      ∷ [],
)
unfolding text_eq c_str bytes sql_groups
get_group_list_returns_example =
    get_group_list_returns (stub (group_row team ∷ [])) (pos 1) [] (team ∷ []) refl refl
      ((omega arith, omega arith, refl), tt)

history_after-Grows_example :
    Grows PassesCheck [] (history_after no_rows (applies_friend request) [])
history_after-Grows_example = history_after-Grows no_rows (applies_friend request) []

abbrev no_database : Services
no_database = record (stub []) { db_connect = λ h kind. false }

abbrev acceptance : AcceptFriendReq
acceptance = record { user_id = pos 2; requester_id = pos 1; accept = true }

faults_unconnected_example :
    faults no_database (accepts_friend acceptance) [] ≡ is_untested (accepts_friend acceptance)
faults_unconnected_example = faults_unconnected no_database (accepts_friend acceptance) [] refl
