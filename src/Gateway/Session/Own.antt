-- ===== src/Gateway/Session/Own.antt =====
-- In whose name a session of src/gateway/websocket_session.cpp calls the servers.
use mathlib.Core.Option
use my_tiny_im.Packet.Commands.{
  cmd_friend_accept_req, cmd_friend_accept_resp, cmd_friend_apply_req, cmd_friend_apply_resp,
  cmd_friend_list_req, cmd_friend_list_resp, cmd_group_accept_req, cmd_group_accept_resp,
  cmd_group_apply_req, cmd_group_apply_resp, cmd_group_create_req, cmd_group_create_resp,
  cmd_group_join_req, cmd_group_join_resp, cmd_group_list_req, cmd_group_list_resp,
  cmd_heartbeat_req, cmd_heartbeat_resp, cmd_login_req, cmd_msg_send_req, cmd_msg_sync_req,
}
use my_tiny_im.Base.{
  ℕ, ◌≡◌, refl, Bool, true, false, Option, none, some, List, [], ◌∷◌, ◌++◌, All, ◌==◌,
  if◌then◌else◌,
}
use my_tiny_im.Base.Text.{Text}
use my_tiny_im.Base.Int.{ℤ, is_positive}
use my_tiny_im.Gateway.Session.{
  RelationReq, apply_friend_req, accept_friend_req, friend_list_req, create_group_req,
  join_group_req, group_list_req, apply_group_req, accept_group_req, SessionCall, chat_call,
  sync_call, relation_call, join_call, leave_call, hset_call, hdel_call, packet_call, Session,
  Peers, as_user, call, on_send, on_sync, on_relation, on_login, on_packet,
}

-- The user that a request to the relation server is made for.
abbrev pub maker : RelationReq → ℤ
maker (apply_friend_req r) = r.user_id
maker (accept_friend_req r) = r.user_id
maker (friend_list_req u) = u
maker (create_group_req r) = r.owner_id
maker (join_group_req r) = r.user_id
maker (group_list_req u) = u
maker (apply_group_req r) = r.user_id
maker (accept_group_req r) = r.user_id

-- A call in the name of a user, or a packet to the client: not a change of the session's place.
abbrev pub IsOwn : ℤ → SessionCall → Type 0
IsOwn u (chat_call req) = req.sender_id ≡ u
IsOwn u (sync_call req) = req.user_id ≡ u
IsOwn u (relation_call req) = maker req ≡ u
IsOwn u (packet_call cmd body) = Unit
IsOwn u (join_call v) = ⊥
IsOwn u (leave_call v) = ⊥
IsOwn u (hset_call k d a) = ⊥
IsOwn u (hdel_call k d) = ⊥

-- From one state of a session to a later one: the same user and device, and calls in the user's
-- name.
pub record ActsAs (s s' : Session) : Type 0 where
  pub same_user : s'.user_id ≡ s.user_id
  pub same_device : s'.device ≡ s.device
  pub new : List SessionCall
  pub grown : s'.calls ≡ new ++ s.calls
  pub own : All (IsOwn s.user_id) new

pub ActsAs-refl : (s : Session) → ActsAs s s
ActsAs-refl s = record { same_user = refl; same_device = refl; new = []; grown = refl; own = tt }

ActsAs-if :
    {s : Session} (b : Bool) (x y : Session)
    → ActsAs s x
    → ActsAs s y
    → ActsAs s (if b then x else y)
ActsAs-if true x y a b = a
ActsAs-if false x y a b = b

maker-as_user : (u : ℤ) (r : RelationReq) → maker (as_user u r) ≡ u
maker-as_user u (apply_friend_req r) = refl
maker-as_user u (accept_friend_req r) = refl
maker-as_user u (friend_list_req v) = refl
maker-as_user u (create_group_req r) = refl
maker-as_user u (join_group_req r) = refl
maker-as_user u (group_list_req v) = refl
maker-as_user u (apply_group_req r) = refl
maker-as_user u (accept_group_req r) = refl

module _ (peers : Peers) where
  on_send-ActsAs : (parsed : Option _) (s : Session) → ActsAs s (on_send peers parsed s)
  unfolding on_send
  on_send-ActsAs none s = ActsAs-refl s
  on_send-ActsAs (some req) s = record {
    same_user = refl;
    same_device = refl;
    new = _ ∷ _ ∷ [];
    grown = refl;
    own = (tt, (refl, tt));
  }

  on_sync-ActsAs : (parsed : Option _) (s : Session) → ActsAs s (on_sync peers parsed s)
  unfolding on_sync
  on_sync-ActsAs none s = ActsAs-refl s
  on_sync-ActsAs (some req) s = record {
    same_user = refl;
    same_device = refl;
    new = _ ∷ _ ∷ [];
    grown = refl;
    own = (tt, (refl, tt));
  }

  on_relation-ActsAs :
      (resp_cmd : ℕ) (parsed : Option RelationReq) (s : Session)
      → ActsAs s (on_relation peers resp_cmd parsed s)
  unfolding on_relation
  on_relation-ActsAs resp_cmd none s = ActsAs-refl s
  on_relation-ActsAs resp_cmd (some req) s = record {
    same_user = refl;
    same_device = refl;
    new = _ ∷ _ ∷ [];
    grown = refl;
    own = (tt, (maker-as_user s.user_id req, tt));
  }

  packet_call-ActsAs :
      (cmd : ℕ) (body : Text) (s : Session) → ActsAs s (call (packet_call cmd body) s)
  packet_call-ActsAs cmd body s = record {
    same_user = refl;
    same_device = refl;
    new = packet_call cmd body ∷ [];
    grown = refl;
    own = (tt, tt);
  }

  pub on_login-ActsAs :
      (body : Text) (s : Session) → is_positive s.user_id ≡ true → ActsAs s (on_login peers body s)
  unfolding on_login
  on_login-ActsAs body s p = rw p (packet_call-ActsAs _ _ s)

  -- Every packet leaves a session so if a login does.
  pub on_packet-ActsAs_of :
      (s : Session) (cmd : ℕ) (body : Text)
      → ActsAs s (if cmd == cmd_login_req then on_login peers body s else s)
      → ActsAs s (on_packet peers s cmd body)
  unfolding on_packet
  on_packet-ActsAs_of s cmd body login =
      ActsAs-if (cmd == cmd_msg_send_req) _ _ (on_send-ActsAs (peers.parse_send body) s) (
        ActsAs-if (cmd == cmd_friend_apply_req) _ _
          (on_relation-ActsAs cmd_friend_apply_resp
            (Option.map apply_friend_req (peers.parse_apply_friend body)) s)
          (ActsAs-if (cmd == cmd_friend_accept_req) _ _
            (on_relation-ActsAs cmd_friend_accept_resp
              (Option.map accept_friend_req (peers.parse_accept_friend body)) s)
            (ActsAs-if (cmd == cmd_friend_list_req) _ _
              (on_relation-ActsAs cmd_friend_list_resp (some (friend_list_req s.user_id)) s)
              (ActsAs-if (cmd == cmd_group_create_req) _ _
                (on_relation-ActsAs cmd_group_create_resp
                  (Option.map create_group_req (peers.parse_create_group body)) s)
                (ActsAs-if (cmd == cmd_group_join_req) _ _
                  (on_relation-ActsAs cmd_group_join_resp
                    (Option.map join_group_req (peers.parse_join_group body)) s)
                  (ActsAs-if (cmd == cmd_group_list_req) _ _
                    (on_relation-ActsAs cmd_group_list_resp (some (group_list_req s.user_id)) s)
                    (ActsAs-if (cmd == cmd_group_apply_req) _ _
                      (on_relation-ActsAs cmd_group_apply_resp
                        (Option.map apply_group_req (peers.parse_apply_group body)) s)
                      (ActsAs-if (cmd == cmd_group_accept_req) _ _
                        (on_relation-ActsAs cmd_group_accept_resp
                          (Option.map accept_group_req (peers.parse_accept_group body)) s)
                        (ActsAs-if (cmd == cmd_msg_sync_req) _ _
                          (on_sync-ActsAs (peers.parse_sync body) s)
                          (ActsAs-if (cmd == cmd_heartbeat_req) _ _
                            (packet_call-ActsAs cmd_heartbeat_resp [] s) login))))))))))

  -- Whatever a client that is logged in sends, the session keeps its user and its device, and all
  -- that it asks of the chat server and of the relation server is in the name of that user, also
  -- where the packet names another one; the table and the locations are left alone.
  pub on_packet-ActsAs :
      (s : Session) (cmd : ℕ) (body : Text)
      → is_positive s.user_id ≡ true
      → ActsAs s (on_packet peers s cmd body)
  on_packet-ActsAs s cmd body p =
      on_packet-ActsAs_of s cmd body
        (ActsAs-if (cmd == cmd_login_req) _ _ (on_login-ActsAs body s p) (ActsAs-refl s))
