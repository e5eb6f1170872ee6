-- ===== src/Gateway/Session/Lifecycle.antt =====
-- A session of src/gateway/websocket_session.cpp from its acceptance to its end.
use mathlib.Core.List.{append_assoc}
use mathlib.Core.Path.{subst}
use my_tiny_im.Base.{
  ℕ, ◌≡◌, refl, sym, ap, ◌∙◌, Bool, true, false, ◌⊎◌, inl, inr, Bool-cases, if◌then◌else◌, some,
  List, [], ◌∷◌, ◌++◌, All,
}
use my_tiny_im.Base.Text.{Text}
use my_tiny_im.Base.Int.{ℤ, is_positive}
use my_tiny_im.Packet.{ReadResult, fresh, on_data, receive, receive_all}
use my_tiny_im.Packet.Stream.{stream_induction, on_data_partial, on_data_invalid, on_data_packet}
use my_tiny_im.Gateway.Session.{
  SessionCall, join_call, leave_call, hset_call, hdel_call, Session, Peers, location_key, grpc_addr,
  on_packet, on_accept, on_closed, on_end,
}
use my_tiny_im.Gateway.Session.Own.{IsOwn, ActsAs, ActsAs-refl, on_packet-ActsAs}

IsOwn-append :
    (u : ℤ) (xs ys : List SessionCall)
    → All (IsOwn u) xs
    → All (IsOwn u) ys
    → All (IsOwn u) (xs ++ ys)
IsOwn-append u [] ys a b = b
IsOwn-append u (x ∷ xs) ys a b = (a.0, IsOwn-append u xs ys a.1 b)

ActsAs-trans : {s s' s'' : Session} → ActsAs s s' → ActsAs s' s'' → ActsAs s s''
ActsAs-trans {s} a b = record {
  same_user = b.same_user ∙ a.same_user;
  same_device = b.same_device ∙ a.same_device;
  new = b.new ++ a.new;
  grown =
      b.grown
      ∙ ap (λ (x : List SessionCall). b.new ++ x) a.grown
      ∙ sym (append_assoc b.new a.new s.calls);
  own =
      IsOwn-append s.user_id b.new a.new (subst (λ u. All (IsOwn u) b.new) a.same_user b.own) a.own;
}

module _ (peers : Peers) where
  -- Of all that a client that is logged in sends, in one message or in parts, the same holds.
  pub on_data-ActsAs :
      (s : Session) (buffer : Text)
      → is_positive s.user_id ≡ true
      → ActsAs s (on_data (on_packet peers) s buffer).state
  on_data-ActsAs =
      stream_induction (on_packet peers)
        (λ s buffer.
          is_positive s.user_id ≡ true → ActsAs s (on_data (on_packet peers) s buffer).state)
        (λ s buffer e p. rw (on_data_partial (on_packet peers) s buffer e) (ActsAs-refl s))
        (λ s buffer e p. rw (on_data_invalid (on_packet peers) s buffer e) (ActsAs-refl s))
        (λ s buffer cmd body rest e ih p.
          let a = on_packet-ActsAs peers s cmd body p in
          rw (on_data_packet (on_packet peers) s buffer cmd body rest e)
            (ActsAs-trans a (ih (ap is_positive a.same_user ∙ p))))

  next_if_open-ActsAs :
      (b : Bool) (r : ReadResult Session) (message : Text)
      → is_positive r.state.user_id ≡ true
      → ActsAs r.state
          (if b then on_data (on_packet peers) r.state (r.buffer ++ message) else r).state
  next_if_open-ActsAs true r message p = on_data-ActsAs r.state (r.buffer ++ message) p
  next_if_open-ActsAs false r message p = ActsAs-refl r.state

  -- And of what it sends in several messages.
  pub receive_all-ActsAs :
      (r : ReadResult Session) (messages : List Text)
      → is_positive r.state.user_id ≡ true
      → ActsAs r.state (receive_all (on_packet peers) r messages).state
  unfolding receive
  receive_all-ActsAs r [] p = ActsAs-refl r.state
  receive_all-ActsAs r (m ∷ ms) p =
      let a = next_if_open-ActsAs r.open_ r m p in
      ActsAs-trans a
        (receive_all-ActsAs (receive (on_packet peers) r m) ms (ap is_positive a.same_user ∙ p))

  -- A session that is accepted for a user, and whose local endpoint can be read, joins the table
  -- under that user and registers the device's location. Whatever messages come, it then takes
  -- neither back, until its connection ends. If it was still reading, it then removes the location of
  -- the same user and device and leaves the table under the same user; if a wrong magic has made it
  -- close the socket, it does neither, and both stay.
  pub on_end-on_accept :
      (s : Session) (messages : List Text) (port : ℕ)
      → is_positive s.user_id ≡ true
      → peers.local_port ≡ some port
      → let r = receive_all (on_packet peers) (fresh (on_accept peers s)) messages in
        (new : List SessionCall) × (r.state.calls
          ≡ new
            ++ hset_call (location_key s.user_id) s.device (grpc_addr port)
              ∷ join_call s.user_id
              ∷ s.calls)
        × All (IsOwn s.user_id) new
        × (((r.open_ ≡ true)
              × ((on_end r).calls
                  ≡ leave_call s.user_id
                    ∷ hdel_call (location_key s.user_id) s.device
                    ∷ r.state.calls))
            ⊎ ((r.open_ ≡ false) × ((on_end r).calls ≡ r.state.calls)))
  unfolding on_closed on_end
  on_end-on_accept s messages port p l =
      let start : Session = record s {
        calls =
            hset_call (location_key s.user_id) s.device (grpc_addr port)
            ∷ join_call s.user_id
            ∷ s.calls;
      } in
      let accepted : on_accept peers s ≡ start = unfold on_accept in rw (p, l) refl in
      let r = receive_all (on_packet peers) (fresh start) messages in
      let a = receive_all-ActsAs (fresh start) messages p in
      rw accepted (
        a.new,
        a.grown,
        a.own,
        elim (Bool-cases r.open_) [
          | inl o ↦ inl (o, rw (o, a.same_user, a.same_device) refl)
          | inr c ↦ inr (c, rw c refl)
        ],
      )
