-- ===== src/Relation/Notify.antt =====
-- The messages that the relation server sends through the chat server.
use my_tiny_im.Base.{◌≡◌, refl, ◌⊎◌, inl, inr, Option, none, some, List, [], ◌∷◌}
use my_tiny_im.Base.Text.{Text}
use my_tiny_im.Base.Int.{ℤ, pos}
use my_tiny_im.Services.{Event, db_opened, sql_query, chat_send, Row, History, Services}
use my_tiny_im.Services.Mysql.{DbConn}
use my_tiny_im.Services.Leaves.{
  Grows, Leaves, Leaves-emit, Leaves-pure, Leaves-seq, OfDatabase, leaves_rules,
}
use my_tiny_im.Relation.{system_type, friend_req_type, send_chat}
use my_tiny_im.Relation.Friends.{ApplyFriendReq, AcceptFriendReq, apply_friend, accept_friend}
use my_tiny_im.Relation.Groups.{
  CreateGroupReq, JoinGroupReq, ApplyGroupReq, AcceptGroupReq, add_member, add_members,
  create_group, join_group, notify_owner, apply_group, accept_group,
}

-- A call of the database, or a message that may reach anybody.
abbrev pub PassesCheck : Event → Type 0
PassesCheck (chat_send s r g type c) = (type ≡ pos 3) ⊎ (type ≡ pos 4)
PassesCheck (db_opened kind b) = Unit
PassesCheck (sql_query kind sql answer) = Unit
PassesCheck _ = ⊥

passing : OfDatabase PassesCheck
passing = record { opened = λ kind b. tt; queried = λ kind sql answer. tt }

system-Leaves :
    (s r g : ℤ) (content : Text) → Leaves PassesCheck (send_chat s r g system_type content)
unfolding send_chat
system-Leaves s r g content = Leaves-emit _ (inl refl)

request-Leaves :
    (s r g : ℤ) (content : Text) → Leaves PassesCheck (send_chat s r g friend_req_type content)
unfolding send_chat
request-Leaves s r g content = Leaves-emit _ (inr refl)

module _ (sv : Services) where
  apply_friend-Leaves : (req : ApplyFriendReq) → Leaves PassesCheck (apply_friend sv req)
  unfolding apply_friend
  apply_friend-Leaves req = search (leaves_rules, passing, request-Leaves) depth 12

  accept_friend-Leaves : (req : AcceptFriendReq) → Leaves PassesCheck (accept_friend sv req)
  unfolding accept_friend
  accept_friend-Leaves req = search (leaves_rules, passing, system-Leaves) depth 12

  add_member-Leaves : (conn : DbConn) (g o u : ℤ) → Leaves PassesCheck (add_member sv conn g o u)
  unfolding add_member
  add_member-Leaves conn g o u = search (leaves_rules, passing) depth 12

  add_members-Leaves :
      (conn : DbConn) (g o : ℤ) (us : List ℤ) → Leaves PassesCheck (add_members sv conn g o us)
  unfolding add_members
  add_members-Leaves conn g o [] = Leaves-pure tt
  add_members-Leaves conn g o (u ∷ us) =
      Leaves-seq _ _ (add_member-Leaves conn g o u) (add_members-Leaves conn g o us)

  create_group-Leaves : (req : CreateGroupReq) → Leaves PassesCheck (create_group sv req)
  unfolding create_group
  create_group-Leaves req = search (leaves_rules, passing, add_members-Leaves) depth 12

  join_group-Leaves : (req : JoinGroupReq) → Leaves PassesCheck (join_group sv req)
  unfolding join_group
  join_group-Leaves req = search (leaves_rules, passing, system-Leaves) depth 12

  notify_owner-Leaves : (row : Option Row) → Leaves PassesCheck (notify_owner sv row)
  unfolding notify_owner
  notify_owner-Leaves none = Leaves-pure tt
  notify_owner-Leaves (some row) = search (leaves_rules, request-Leaves) depth 12

  apply_group-Leaves : (req : ApplyGroupReq) → Leaves PassesCheck (apply_group sv req)
  unfolding apply_group
  apply_group-Leaves req = search (leaves_rules, passing, notify_owner-Leaves) depth 12

  accept_group-Leaves : (req : AcceptGroupReq) → Leaves PassesCheck (accept_group sv req)
  unfolding accept_group
  accept_group-Leaves req = search (leaves_rules, passing, system-Leaves) depth 12

-- The handlers that change something, with their requests.
pub data RelationCall : Type 0 where
  applies_friend : ApplyFriendReq → RelationCall
  accepts_friend : AcceptFriendReq → RelationCall
  creates_group : CreateGroupReq → RelationCall
  joins_group : JoinGroupReq → RelationCall
  applies_group : ApplyGroupReq → RelationCall
  accepts_group : AcceptGroupReq → RelationCall

-- The history after a call.
unfoldable pub history_after : Services → RelationCall → History → History
history_after sv (applies_friend req) h = (apply_friend sv req h).1
history_after sv (accepts_friend req) h = (accept_friend sv req h).1
history_after sv (creates_group req) h = (create_group sv req h).1
history_after sv (joins_group req) h = (join_group sv req h).1
history_after sv (applies_group req) h = (apply_group sv req h).1
history_after sv (accepts_group req) h = (accept_group sv req h).1

-- Whatever a handler of the relation server that changes something is asked, and however it ends,
-- it calls only the database and the chat server, and every message that it sends is a system
-- message or a friend request, the two types that the chat server's friend check lets through.
pub history_after-Grows :
    (sv : Services) (call : RelationCall) (h : History)
    → Grows PassesCheck h (history_after sv call h)
unfolding history_after
history_after-Grows sv (applies_friend req) h = (apply_friend-Leaves sv req).from h
history_after-Grows sv (accepts_friend req) h = (accept_friend-Leaves sv req).from h
history_after-Grows sv (creates_group req) h = (create_group-Leaves sv req).from h
history_after-Grows sv (joins_group req) h = (join_group-Leaves sv req).from h
history_after-Grows sv (applies_group req) h = (apply_group-Leaves sv req).from h
history_after-Grows sv (accepts_group req) h = (accept_group-Leaves sv req).from h
