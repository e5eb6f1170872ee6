-- ===== src/Gateway/Connections/Delivery.antt =====
-- The sessions that `SendToUser` and `KickUser` of src/gateway/connection_manager.cpp reach.
use my_tiny_im.Base.{
  ℕ, suc, ◌≡◌, refl, ◌∙◌, ◌&&◌, ◌||◌, List, [], ◌∷◌, map, replicate, ◌==◌, if◌then◌else◌, arith,
  inl, inr, Option-cases, Bool-cases,
}
use my_tiny_im.Base.Text.{Text, is_empty, text_eq}
use my_tiny_im.Base.Int.{ℤ}
use my_tiny_im.Base.Eq.{int_Eq}
use my_tiny_im.Base.Map.{lookup, All-lookup}
use my_tiny_im.Gateway.Connections.{
  Sessions, Users, SessionCall, call_send, call_kick, send_to_user, kick_sessions, kick_user,
}
use my_tiny_im.Gateway.Connections.Sessions.{
  contains, IsAscending, occurrences, occurrences-IsAscending,
}
use my_tiny_im.Gateway.Connections.Table.{is_joined, IsTable, IsKept}

-- The messages that a session is told to send, and how often it is kicked.
unfoldable pub received : ℕ → List SessionCall → List Text
received s [] = []
received s (call_send t msg ∷ cs) = if s == t then msg ∷ received s cs else received s cs
received s (call_kick t ∷ cs) = received s cs

unfoldable pub kicked : ℕ → List SessionCall → ℕ
kicked s [] = 0
kicked s (call_send t msg ∷ cs) = kicked s cs
kicked s (call_kick t ∷ cs) = if s == t then suc (kicked s cs) else kicked s cs

received-map :
    (s : ℕ) (msg : Text) (ss : Sessions)
    → received s (map (λ t. call_send t msg) ss) ≡ replicate (occurrences s ss) msg
unfolding received occurrences
received-map s msg [] = refl
received-map s msg (t ∷ ts) = ground (arith, received-map s msg ts)

received_once :
    (s : ℕ) (msg : Text) (ss : Sessions)
    → IsAscending ss
    → replicate (occurrences s ss) msg ≡ (if contains s ss then msg ∷ [] else [])
received_once s msg ss a = elim (Bool-cases (contains s ss)) [
  | inl e ↦ rw (occurrences-IsAscending s ss a, e)
  | inr e ↦ rw (occurrences-IsAscending s ss a, e)
]

-- On a well-formed table `SendToUser` hands the message once to each session of the user, and to no
-- other session.
pub received-send_to_user :
    (user_id : ℤ) (msg : Text) (users : Users) (s : ℕ)
    → IsTable users
    → received s (send_to_user user_id msg users)
      ≡ (if is_joined users user_id s then msg ∷ [] else [])
unfolding send_to_user is_joined received contains
received-send_to_user user_id msg users s t = elim (Option-cases (lookup user_id users)) [
  | inl e ↦ rw (e, send_to_user)
  | inr (ss, e) ↦
      rw (e, send_to_user)
        (received-map s msg ss ∙ received_once s msg ss (All-lookup IsKept user_id users ss t e).0)
]

kicked-kick_sessions :
    (get_device : ℕ → Text) (device : Text) (s : ℕ) (ss : Sessions)
    → kicked s (kick_sessions get_device device ss)
      ≡ (if is_empty device || text_eq (get_device s) device then occurrences s ss else 0)
unfolding kicked kick_sessions occurrences
kicked-kick_sessions get_device device s [] = ground arith
kicked-kick_sessions get_device device s (t ∷ ts) =
    ground (arith, kicked-kick_sessions get_device device s ts)

-- On a well-formed table `KickUser` kicks once each session of the user that has the device, or
-- each of them if the device is empty, and no other session.
pub kicked-kick_user :
    (get_device : ℕ → Text) (user_id : ℤ) (device : Text) (users : Users) (s : ℕ)
    → IsTable users
    → kicked s (kick_user get_device user_id device users) ≡ (
        if is_joined users user_id s && (is_empty device || text_eq (get_device s) device)
        then 1
        else 0)
unfolding kick_user is_joined kicked contains
kicked-kick_user get_device user_id device users s t = elim (Option-cases (lookup user_id users)) [
  | inl e ↦ rw (e, kick_user)
  | inr (ss, e) ↦
      rw (e, kick_user)
        (kicked-kick_sessions get_device device s ss
          ∙ ground (arith, occurrences-IsAscending s ss (All-lookup IsKept user_id users ss t e).0))
]
