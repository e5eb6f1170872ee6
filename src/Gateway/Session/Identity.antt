-- ===== src/Gateway/Session/Identity.antt =====
-- How a session of src/gateway/websocket_session.cpp gets a user after its acceptance.
use my_tiny_im.Packet.Commands.{cmd_login_req, cmd_login_resp}
use my_tiny_im.Base.{
  ℕ, ◌≡◌, refl, false, ◌⊎◌, inl, inr, Bool-cases, Option-cases, Option, none, some, List, [], ◌∷◌,
  ◌++◌, ◌==◌, ==_iff,
}
use my_tiny_im.Base.Text.{Text, c_str}
use my_tiny_im.Base.Int.{ℤ, is_positive, stoll}
use my_tiny_im.Gateway.Session.{
  SessionCall, join_call, hset_call, packet_call, Session, Peers, location_key, grpc_addr,
  register_location, late_login, on_login_req, on_login, on_packet,
}
use my_tiny_im.Gateway.Session.Own.{ActsAs, ActsAs-refl, on_login-ActsAs, on_packet-ActsAs_of}

module _ (peers : Peers) (s : Session) where
  -- What follows the entry into the table: the location and the reply, or nothing where the local
  -- endpoint cannot be read.
  abbrev pub registered : ℤ → Option ℕ → List SessionCall
  registered user_id none = []
  registered user_id (some port) =
      packet_call cmd_login_resp (peers.serialize_login user_id)
      ∷ hset_call (location_key user_id) s.device (grpc_addr port)
      ∷ []

  -- A session without a user, with this port of its local endpoint, takes the number in the name of
  -- a login.
  pub record TakesUser (body : Text) (port : Option ℕ) (s' : Session) : Type 0 where
    pub anonymous : is_positive s.user_id ≡ false
    pub username : Text
    pub named : peers.parse_login body ≡ some username
    pub numbered : stoll (c_str username) ≡ some s'.user_id
    pub same_device : s'.device ≡ s.device
    pub joined : s'.calls ≡ registered s'.user_id port ++ join_call s'.user_id ∷ s.calls

  module _ (body username : Text) (user_id : ℤ) (p : is_positive s.user_id ≡ false)
      (named : peers.parse_login body ≡ some username)
      (numbered : stoll (c_str username) ≡ some user_id) where
    register_location-takes :
        (port : Option ℕ)
        → TakesUser body port (
            register_location peers port
              (record s { user_id = user_id; calls = join_call user_id ∷ s.calls }))
    unfolding register_location
    register_location-takes none = record {
      anonymous = p;
      username = username;
      named = named;
      numbered = numbered;
      same_device = refl;
      joined = refl;
    }
    register_location-takes (some port) = record {
      anonymous = p;
      username = username;
      named = named;
      numbered = numbered;
      same_device = refl;
      joined = refl;
    }

    late_login-takes : TakesUser body peers.local_port (late_login peers (some user_id) s)
    unfolding late_login
    late_login-takes = register_location-takes peers.local_port

  login_keeps_or_takes :
      (body : Text)
      → ActsAs s (on_login peers body s) ⊎ TakesUser body peers.local_port (on_login peers body s)
  unfolding on_login on_login_req late_login
  login_keeps_or_takes body = elim (Bool-cases (is_positive s.user_id)) [
    | inl p ↦ inl (on_login-ActsAs peers body s p)
    | inr p ↦ elim (Option-cases (peers.parse_login body)) [
      | inl e ↦ inl (rw (p, e) (ActsAs-refl s))
      | inr (username, named) ↦ elim (Option-cases (stoll (c_str username))) [
        | inl e ↦ inl (rw (p, named, e) (ActsAs-refl s))
        | inr (user_id, numbered) ↦
            inr (rw (p, named, numbered) (late_login-takes body username user_id p named numbered))
      ]
    ]
  ]

  on_packet-login : (body : Text) → on_packet peers s cmd_login_req body ≡ on_login peers body s
  unfolding on_packet
  on_packet-login body = refl

  -- Whatever packet comes: either the session keeps its user and its device and asks for nothing but
  -- in that user's name, with the table and the locations left alone; or it had no user, and the
  -- packet is a login whose name is a number. Then the session becomes that user's on the same
  -- device, joins the table under it, and registers the location and answers if its local endpoint
  -- can be read; these are all calls that it makes.
  pub user_from_login :
      (cmd : ℕ) (body : Text)
      → ActsAs s (on_packet peers s cmd body)
        ⊎ ((cmd ≡ cmd_login_req) × TakesUser body peers.local_port (on_packet peers s cmd body))
  user_from_login cmd body = elim (Bool-cases (cmd == cmd_login_req)) [
    | inr n ↦ inl (on_packet-ActsAs_of peers s cmd body (rw n (ActsAs-refl s)))
    | inl e ↦
        let same : cmd ≡ cmd_login_req = (==_iff cmd cmd_login_req).0 e in
        elim (login_keeps_or_takes body) [
          | inl a ↦ inl (on_packet-ActsAs_of peers s cmd body (rw e a))
          | inr t ↦ inr (same, rw (same, on_packet-login body) t)
        ]
  ]
