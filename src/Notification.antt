-- ===== src/Notification.antt =====
-- A message on its way to the devices of its receiver: the notifications of `SendMessage`,
-- src/chat_server/chat_service_impl.cpp, put through `PushNotify` of
-- src/gateway/gateway_service_impl.cpp at the gateway that they are sent to.
use my_tiny_im.Base.{
  ℕ, zero, suc, ◌+◌, ◌≡◌, refl, ap, ◌∙◌, Bool, true, false, List, [], ◌∷◌, ◌++◌, map, replicate,
  All, if◌then◌else◌, arith, inl, inr, Bool-cases,
}
use mathlib.Core.List.{Permᴰ, append-nil}
use mathlib.Core.List
use my_tiny_im.Base.Text.{Text, text_eq}
use my_tiny_im.Base.Int.{ℤ, is_positive}
use my_tiny_im.Packet.{packet_bytes}
use my_tiny_im.Packet.Commands.{cmd_msg_push_notify}
use my_tiny_im.Services.{Event, sql_query, push_notify, write_db, History, Services, ok}
use my_tiny_im.Services.Mysql.{is_failed}
use my_tiny_im.Services.Redis.{exists, hgetall}
use my_tiny_im.Chat.{SendMessageReq, status_ok}
use my_tiny_im.Chat.Send.{next_seq, success_reply, friend_of, location_key, send_message}
use my_tiny_im.Chat.Send.Single.{
  BothConnect, MayWrite, body_text, body_stored, relation_text, related, msg_id_of, index_text,
  opened,
}
use my_tiny_im.Chat.Send.Notified.{IsNotice, notice, receiver_told, send_message-told}
use my_tiny_im.Gateway.Connections.{Users, SessionCall, call_send, call_kick}
use my_tiny_im.Gateway.Connections.Table.{is_joined, IsTable}
use my_tiny_im.Gateway.Connections.Delivery.{received, received-send_to_user}
use my_tiny_im.Gateway.Service.{push_notify_user}

-- Whether an event is a notification at an address, and how many are.
abbrev pub is_told : Text → Event → ℕ
is_told addr (push_notify a u s t) = if text_eq a addr then 1 else 0
is_told addr e = 0

abbrev pub told_at : Text → List Event → ℕ
told_at addr [] = 0
told_at addr (e ∷ es) = is_told addr e + told_at addr es

-- How many locations have an address.
abbrev pub devices_at : Text → List (Text × Text) → ℕ
devices_at addr [] = 0
devices_at addr ((device, a) ∷ ls) =
    let rest = devices_at addr ls in if text_eq a addr then suc rest else rest

-- What the gateway at an address is made to do by a call.
abbrev pub calls_of : (ℤ → ℤ → Text) → Text → Users → Event → List SessionCall
calls_of serialize addr users (push_notify a u s t) =
    if text_eq a addr then push_notify_user serialize u s t users else []
calls_of serialize addr users e = []

-- The same by a history, the newest of whose calls comes first, while the table of connections stays
-- as it is.
abbrev pub calls_at : (ℤ → ℤ → Text) → Text → Users → List Event → List SessionCall
calls_at serialize addr users [] = []
calls_at serialize addr users (e ∷ es) =
    calls_at serialize addr users es ++ calls_of serialize addr users e

told_at-Permᴰ : (addr : Text) {xs ys : List Event} → Permᴰ xs ys → told_at addr xs ≡ told_at addr ys
told_at-Permᴰ addr List.Permᴰ.nil = refl
told_at-Permᴰ addr (List.Permᴰ.cons e p) =
    let same = ap (is_told addr) e in let rest = told_at-Permᴰ addr p in omega arith
told_at-Permᴰ addr (List.Permᴰ.swap e e') =
    let one = ap (is_told addr) e in let other = ap (is_told addr) e' in omega arith
told_at-Permᴰ addr (List.Permᴰ.trans p q) = told_at-Permᴰ addr p ∙ told_at-Permᴰ addr q

told_at-map :
    (addr : Text) (uid seq type : ℤ) (ls : List (Text × Text))
    → told_at addr (map (notice uid seq type) ls) ≡ devices_at addr ls
told_at-map addr uid seq type [] = refl
told_at-map addr uid seq type ((device, a) ∷ ls) =
    let rest = told_at-map addr uid seq type ls in ground arith

received-append :
    (s : ℕ) (xs ys : List SessionCall) → received s (xs ++ ys) ≡ received s xs ++ received s ys
unfolding received
received-append s [] ys = refl
received-append s (call_send t msg ∷ cs) ys = let rest = received-append s cs ys in ground arith
received-append s (call_kick t ∷ cs) ys = received-append s cs ys

replicate-append : (n : ℕ) (msg : Text) → replicate n msg ++ msg ∷ [] ≡ replicate (suc n) msg
replicate-append zero msg = refl
replicate-append (suc n) msg = ap (◌∷◌ msg) (replicate-append n msg)

replicate-end : (n : ℕ) (msg : Text) → replicate n msg ++ msg ∷ [] ≡ replicate (1 + n) msg
replicate-end n msg =
    let one_more : suc n ≡ 1 + n = omega arith in
    replicate-append n msg ∙ ap (λ k. replicate k msg) one_more

module _ (serialize : ℤ → ℤ → Text) (addr : Text) (users : Users) (uid seq type : ℤ) (s : ℕ)
    (table : IsTable users) where
  abbrev push_packet : Text
  push_packet = packet_bytes cmd_msg_push_notify (serialize seq type)

  abbrev got : ℕ → List Text
  got n = if is_joined users uid s then replicate n push_packet else []

  received-push :
      (a : Text) (n : ℕ)
      → got n ++ received s (calls_of serialize addr users (push_notify a uid seq type))
        ≡ got (is_told addr (push_notify a uid seq type) + n)
  unfolding push_notify_user received
  received-push a n = elim (Bool-cases (text_eq a addr)) [
    | inr f ↦ let same : n ≡ 0 + n = omega arith in rw f (append-nil (got n) ∙ ap got same)
    | inl t ↦ elim (Bool-cases (is_joined users uid s)) [
      | inr n_j ↦ rw (t, received-send_to_user uid push_packet users s table, n_j) refl
      | inl j ↦
          rw (t, received-send_to_user uid push_packet users s table, j)
            (replicate-end n push_packet)
    ]
  ]

  received-calls_at :
      (es : List Event)
      → All (IsNotice uid seq type) es
      → received s (calls_at serialize addr users es) ≡ got (told_at addr es)
  unfolding received
  received-calls_at [] a = elim (Bool-cases (is_joined users uid s)) [
    | inl j ↦ rw j refl
    | inr n_j ↦ rw n_j refl
  ]
  received-calls_at (e ∷ es) ((a, same), more) = rw same (
      received-append s (calls_at serialize addr users es)
        (calls_of serialize addr users (push_notify a uid seq type))
      ∙ ap (λ ms. ms ++ received s (calls_of serialize addr users (push_notify a uid seq type)))
          (received-calls_at es more)
      ∙ received-push a (told_at addr es))

-- With both connections up and the body stored, let a message to one receiver be one that may be
-- written, its index row be stored, EXISTS say that the receiver has locations, and HGETALL give
-- them. Then the reply acknowledges the body and the sequence number; and at the gateway of any
-- address, with a well-formed table of connections, the calls after that HGETALL hand a session the
-- packet of a push notification with the sequence number and the message's type once for each
-- location with that address, if it is a session of the receiver, and nothing if it is not.
pub message_reaches_sessions :
    (sv : Services) (req : SendMessageReq) (h : History) (is_friend : Bool) (seq : ℤ)
    (numbered asked found : History) (locations : List (Text × Text)) (serialize : ℤ → ℤ → Text)
    (addr : Text) (users : Users) (s : ℕ)
    → BothConnect sv req h
    → is_failed (sv.mysql (opened sv req h) write_db (body_text sv req h)) ≡ false
    → is_positive req.group_id ≡ false
    → friend_of (sv.mysql (body_stored sv req h) write_db (relation_text sv req h)) ≡ ok is_friend
    → MayWrite is_friend req.type
    → next_seq sv req.receiver_id (related sv req h) ≡ (ok seq, numbered)
    → is_failed (sv.mysql numbered write_db (index_text sv req h seq)) ≡ false
    → exists sv (location_key req.receiver_id) (
        sql_query write_db
          (index_text sv req h seq)
          (sv.mysql numbered write_db (index_text sv req h seq))
        ∷ numbered)
      ≡ (ok true, asked)
    → hgetall sv (location_key req.receiver_id) asked ≡ (ok locations, found)
    → IsTable users
    → (new : History) × (send_message sv req h
        ≡ (ok (status_ok, success_reply (msg_id_of sv req h) seq), new ++ found))
      × (received s (calls_at serialize addr users new) ≡ (
          if is_joined users req.receiver_id s
          then replicate
              (devices_at addr locations)
              (packet_bytes cmd_msg_push_notify (serialize seq req.type))
          else []))
message_reaches_sessions sv req h is_friend seq numbered asked found locations serialize addr users
      s both b g f m n i o l table =
    let told =
      receiver_told sv req h is_friend seq numbered asked found locations both b g f m n i o l in
    (
      told.new,
      send_message-told sv req h is_friend seq numbered asked found locations both b g f m n i o l,
      received-calls_at serialize addr users req.receiver_id seq req.type s table told.new told.only
          ∙ ap (got serialize addr users req.receiver_id seq req.type s table) (
              told_at-Permᴰ addr told.each
              ∙ told_at-map addr req.receiver_id seq req.type locations),
    )
