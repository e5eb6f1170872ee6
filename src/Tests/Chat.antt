-- ===== src/Tests/Chat.antt =====
-- Runs of the chat server's handlers.
use my_tiny_im.Base.{
  replicate, if◌then◌else◌, ◌≡◌, refl, true, false, List, [], ◌∷◌, ◌++◌, map, All, ◌⊎◌, inl, some,
  arith,
}
use my_tiny_im.Base.Text.{Text, bytes, c_str, text_eq}
use my_tiny_im.Base.Int.{ℤ, pos, stoll}
use my_tiny_im.Services.{
  write_db, read_db, sql_query, db_opened, sql_rows, sql_done, integer_reply, array_reply,
  nil_reply, History, Services, ok, fault,
}
use my_tiny_im.Services.Mysql.{is_failed, stoll_column}
use my_tiny_im.Chat.{SendMessageReq, blank, status_ok, SyncMessagesReq, MessageItem}
use my_tiny_im.Chat.Send.{
  send_message, next_seq, location_key, success_reply, sql_body, sql_members, sql_relation,
  sql_index_head, friend_of, members_of,
}
use my_tiny_im.Chat.Send.Single.{PushesOnly, msg_id_of, index_text, related, single_delivers}
use my_tiny_im.Chat.Send.Refused.{Refused, LetThrough, delivery_needs_friend}
use my_tiny_im.Chat.Send.Notified.{notice, online_receiver_notified}
use my_tiny_im.Chat.Send.Group.{batch_rows, RedisOnly, PushesGiven, queried, group_fans_out}
use my_tiny_im.Base.Bag.{bag, map_bag}
use my_tiny_im.Base.Map.{insert}
use my_tiny_im.Chat.Sync.{sync_messages, sync_sql, sql_columns, sql_after}
use my_tiny_im.Chat.Sync.Page.{row_of, IsStored, max_seq_of, sync_returns_page}
use my_tiny_im.Chat.Sync.Errors.{dangling_row, sync_dangling}
use my_tiny_im.Services.Redis.{with_conn, exists, hgetall}
use my_tiny_im.Packet.{packet_bytes}
use my_tiny_im.Packet.Commands.{cmd_msg_push_notify}
use my_tiny_im.Gateway.Connections.{Users}
use my_tiny_im.Gateway.Connections.Table.{is_joined, IsTable}
use my_tiny_im.Gateway.Connections.Delivery.{received}
use my_tiny_im.Notification.{calls_at, devices_at, message_reaches_sessions}
use my_tiny_im.Tests.Stub.{stub}

abbrev to_bob : SendMessageReq
to_bob = record {
  sender_id = pos 1;
  receiver_id = pos 2;
  group_id = pos 0;
  type = pos 1;
  content = bytes "hi";
}

abbrev to_group : SendMessageReq
to_group = record {
  sender_id = pos 1;
  receiver_id = pos 0;
  group_id = pos 5;
  type = pos 1;
  content = bytes "hi";
}

abbrev friends : Services
friends = stub ((some (bytes "1") ∷ []) ∷ [])

delivery_needs_friend_example :
    Refused (stub []) to_bob [] (send_message (stub []) to_bob []) ⊎ LetThrough (stub []) to_bob []
delivery_needs_friend_example = delivery_needs_friend (stub []) to_bob [] refl

single_delivers_example :
    let answer =
      friends.mysql
        (next_seq friends (pos 2) (related friends to_bob [])).1
        write_db
        (index_text friends to_bob [] (pos 1)) in
    let indexed =
      sql_query write_db (index_text friends to_bob [] (pos 1)) answer
      ∷ (next_seq friends (pos 2) (related friends to_bob [])).1 in
    ((is_failed answer ≡ true)
      × (send_message friends to_bob [] ≡ (ok (status_ok, blank), indexed)))
    ⊎ ((is_failed answer ≡ false)
        × ((new : History) × (send_message friends to_bob [] ≡ (
          ok (status_ok, success_reply (msg_id_of friends to_bob []) (pos 1)),
          new ++ indexed,
        ))
            × All (PushesOnly (pos 2) (pos 1) (pos 1)) new))
unfolding text_eq c_str bytes sql_body sql_relation friend_of stoll_column stoll next_seq with_conn
single_delivers_example =
    single_delivers friends to_bob [] true (pos 1)
      (next_seq friends (pos 2) (related friends to_bob [])).1 (refl, refl) refl refl refl
      (inl refl) refl

-- A Redis in which everybody is online on two devices.
abbrev two_devices : Services
two_devices = record friends {
  redis = λ h args. elim args [
    | [] ↦ some nil_reply
    | cmd ∷ rest ↦
        if text_eq cmd (bytes "HGETALL")
        then some (
            array_reply (
              some (bytes "PC")
              ∷ some (bytes "127.0.0.1:50054")
              ∷ some (bytes "Phone")
              ∷ some (bytes "10.0.0.2:50054")
              ∷ []))
        else some (integer_reply (pos 1))
  ];
}

abbrev two_locations : List (Text × Text)
two_locations = (bytes "PC", bytes "127.0.0.1:50054") ∷ (bytes "Phone", bytes "10.0.0.2:50054") ∷ []

abbrev bob_numbered : History
bob_numbered = (next_seq two_devices (pos 2) (related two_devices to_bob [])).1

abbrev bob_indexed : History
bob_indexed =
    sql_query write_db (index_text two_devices to_bob [] (pos 1)) (sql_done (pos 77)) ∷ bob_numbered

abbrev bob_asked : History
bob_asked = (exists two_devices (location_key (pos 2)) bob_indexed).1

abbrev bob_found : History
bob_found = (hgetall two_devices (location_key (pos 2)) bob_asked).1

online_receiver_notified_example :
    (new : History) × (send_message two_devices to_bob []
      ≡ (ok (status_ok, success_reply (msg_id_of two_devices to_bob []) (pos 1)), new ++ bob_found))
    × (bag new ≡ map_bag (notice (pos 2) (pos 1) (pos 1)) (bag two_locations))
unfolding text_eq c_str bytes sql_body sql_relation friend_of stoll_column stoll next_seq with_conn
    exists hgetall sql_index_head insert
online_receiver_notified_example =
    online_receiver_notified two_devices to_bob [] true (pos 1) bob_numbered bob_asked bob_found
      two_locations (refl, refl) refl refl refl (inl refl) refl refl refl refl

group_fans_out_example :
    (targets : List (ℤ × ℤ)) × (numbering : History) × (pushing : History) × (map (λ t. t.0) targets
      ≡ pos 1 ∷ [])
    × All RedisOnly numbering
    × All (PushesGiven targets (pos 1)) pushing
    × (let batch =
          c_str (sql_index_head ++ batch_rows (pos 5) (msg_id_of friends to_group []) targets) in
        let numbered = numbering ++ queried friends to_group [] in
        send_message friends to_group [] ≡ (
          ok (status_ok, success_reply (msg_id_of friends to_group []) (pos 0)),
          pushing ++ (sql_query write_db batch (friends.mysql numbered write_db batch) ∷ numbered),
        ))
unfolding text_eq c_str bytes sql_body sql_members members_of stoll_column stoll
group_fans_out_example = group_fans_out friends to_group [] (pos 1) [] (refl, refl) refl refl refl

abbrev after_three : SyncMessagesReq
after_three = record { user_id = pos 2; local_seq = pos 3; limit = pos 0; reverse = false }

abbrev hello : MessageItem
hello = record {
  msg_id = pos 77;
  seq_id = pos 4;
  sender_id = pos 1;
  group_id = pos 0;
  type = pos 1;
  content = bytes "hi";
  created_at = bytes "2024-01-01 00:00:00";
}

hello-IsStored : IsStored hello
unfolding c_str bytes
hello-IsStored = record {
  seq_fits = omega arith;
  msg_fits = omega arith;
  sender_fits = omega arith;
  group_fits = omega arith;
  type_fits = refl;
  content_text = refl;
  created_text = refl;
}

abbrev one_row : Services
one_row = stub (row_of hello ∷ [])

sync_returns_page_example : sync_messages one_row after_three [] ≡ (
  ok (
    status_ok,
    record { max_seq = max_seq_of (pos 3) (hello ∷ []); msgs = hello ∷ []; success = true },
  ),
  sql_query read_db (c_str (sync_sql after_three)) (sql_rows (row_of hello ∷ []))
      ∷ db_opened read_db true
      ∷ [],
)
unfolding text_eq c_str bytes sync_sql sql_after sql_columns
sync_returns_page_example =
    sync_returns_page one_row after_three [] (hello ∷ []) refl refl (hello-IsStored, tt)

-- A database that is down, and one that gives no result set.
abbrev no_database : Services
no_database = record (stub []) { db_connect = λ h kind. false }

abbrev no_result : Services
no_result = record (stub []) { mysql = λ h kind sql. sql_done (pos 0) }

sync_dangling_example :
    (sync_messages (stub (row_of hello ∷ dangling_row (pos 5) (pos 78) ∷ [])) after_three []).0
    ≡ fault
unfolding text_eq c_str bytes sync_sql sql_after sql_columns
sync_dangling_example =
    sync_dangling (stub (row_of hello ∷ dangling_row (pos 5) (pos 78) ∷ [])) after_three []
      (hello ∷ []) (pos 5) (pos 78) [] refl refl (hello-IsStored, tt) (omega arith) (omega arith)

-- A gateway at which the receiver has two sessions.
abbrev bob_users : Users
bob_users = (pos 2, 11 ∷ 12 ∷ []) ∷ (pos 9, 13 ∷ []) ∷ []

abbrev no_text : ℤ → ℤ → Text
no_text max_seq type = bytes "notice"

bob_users-IsTable : IsTable bob_users
bob_users-IsTable = (((omega arith, tt), (λ e. cc e)), ((tt, (λ e. cc e)), tt))

message_reaches_sessions_example :
    (new : History) × (send_message two_devices to_bob []
      ≡ (ok (status_ok, success_reply (msg_id_of two_devices to_bob []) (pos 1)), new ++ bob_found))
    × (received 12 (calls_at no_text (bytes "10.0.0.2:50054") bob_users new) ≡ (
        if is_joined bob_users (pos 2) 12
        then replicate
            (devices_at (bytes "10.0.0.2:50054") two_locations)
            (packet_bytes cmd_msg_push_notify (no_text (pos 1) (pos 1)))
        else []))
unfolding text_eq c_str bytes sql_body sql_relation friend_of stoll_column stoll next_seq with_conn
    exists hgetall sql_index_head insert
message_reaches_sessions_example =
    message_reaches_sessions two_devices to_bob [] true (pos 1) bob_numbered bob_asked bob_found
      two_locations no_text (bytes "10.0.0.2:50054") bob_users 12 (refl, refl) refl refl refl
      (inl refl) refl refl refl refl bob_users-IsTable
