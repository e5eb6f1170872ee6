-- ===== src/Chat/Send/Refused.antt =====
-- Whose messages `SendMessage` lets through to one receiver.
use my_tiny_im.Base.{
  ◌≡◌, refl, ap, Bool, true, false, not, ◌&&◌, [], ◌∷◌, ◌++◌, All, ◌⊎◌, inl, inr, arith, Bool-cases,
}
use my_tiny_im.Base.Int.{ℤ, pos, is_positive, int_eq, int_eq→eq}
use my_tiny_im.Services.{
  Event, write_db, read_db, db_opened, sql_query, SqlAnswer, sql_failed, sql_rows, sql_done,
  History, Services, Outcome, ok, thrown, fault,
}
use my_tiny_im.Services.Mysql.{open_db, query, is_failed, stoll_column}
use my_tiny_im.Chat.{SendMessageReq, SendMessageResp, Status}
use my_tiny_im.Chat.Send.{status_is_one, friend_of, send_single, send_message}
use my_tiny_im.Chat.Send.Single.{BothConnect, opened, body_text, body_stored, relation_text}

-- The result set has a row, and the first one has the status of a friend.
abbrev pub SaysFriend : SqlAnswer → Type 0
SaysFriend (sql_rows (row ∷ rows)) = stoll_column row 0 ≡ ok (pos 1)
SaysFriend (sql_rows []) = ⊥
SaysFriend (sql_failed errno) = ⊥
SaysFriend (sql_done id) = ⊥

status_is_one-true : (o : Outcome ℤ) → status_is_one o ≡ ok true → o ≡ ok (pos 1)
status_is_one-true (ok status) e =
    let same : int_eq status (pos 1) ≡ true = ground (arith, e) in
    ap (λ (s : ℤ). ok s) (int_eq→eq status (pos 1) same)
status_is_one-true thrown e = cc
status_is_one-true fault e = cc

friend_of-true : (a : SqlAnswer) → friend_of a ≡ ok true → SaysFriend a
unfolding friend_of
friend_of-true (sql_failed errno) e = absurd (ground arith)
friend_of-true (sql_done id) e = absurd (ground arith)
friend_of-true (sql_rows []) e = absurd (ground arith)
friend_of-true (sql_rows (row ∷ rows)) e = status_is_one-true (stoll_column row 0) e

Outcome-cases : (o : Outcome Bool) → (o ≡ ok true) ⊎ ((o ≡ ok false) ⊎ ((o ≡ thrown) ⊎ (o ≡ fault)))
Outcome-cases (ok true) = inl refl
Outcome-cases (ok false) = inr (inl refl)
Outcome-cases thrown = inr (inr (inl refl))
Outcome-cases fault = inr (inr (inr refl))

abbrev pub IsRefusal : Outcome (Status × SendMessageResp) → Type 0
IsRefusal (ok (_, resp)) = resp.success ≡ false
IsRefusal thrown = Unit
IsRefusal fault = Unit

module _ (sv : Services) (req : SendMessageReq) (h : History) where
  -- The calls before a message is let through: the two connections, the body, and the question.
  pub data BeforeDelivery : Event → Type 0 where
    opens : (valid : Bool) → BeforeDelivery (db_opened write_db valid)
    opens_read : (valid : Bool) → BeforeDelivery (db_opened read_db valid)
    stores_body :
        (answer : SqlAnswer) → BeforeDelivery (sql_query write_db (body_text sv req h) answer)
    asks :
        (answer : SqlAnswer) → BeforeDelivery (sql_query write_db (relation_text sv req h) answer)

  abbrev pub body_answer : SqlAnswer
  body_answer = sv.mysql (opened sv req h) write_db (body_text sv req h)

  abbrev pub relation_answer : SqlAnswer
  relation_answer = sv.mysql (body_stored sv req h) write_db (relation_text sv req h)

  abbrev pub Refused : Outcome (Status × SendMessageResp) × History → Type 0
  Refused r = (new : History) × (r.1 ≡ new ++ h) × All BeforeDelivery new × IsRefusal r.0

  abbrev pub LetThrough : Type 0
  LetThrough =
      BothConnect sv req h
      × (is_failed body_answer ≡ false)
      × (SaysFriend relation_answer ⊎ ((req.type ≡ pos 3) ⊎ (req.type ≡ pos 4)))

  -- The tests of the type, for a sender who is no friend.
  exempt_or_refused :
      ((req.type ≡ pos 3) ⊎ (req.type ≡ pos 4))
      ⊎ ((not (int_eq req.type (pos 3)) && not (int_eq req.type (pos 4))) ≡ true)
  exempt_or_refused = elim (Bool-cases (int_eq req.type (pos 3))) [
    | inl e ↦ inl (inl (int_eq→eq req.type (pos 3) e))
    | inr n ↦ elim (Bool-cases (int_eq req.type (pos 4))) [
      | inl e ↦ inl (inr (int_eq→eq req.type (pos 4) e))
      | inr m ↦ inr (rw (n, m) refl)
    ]
  ]

  module _ (single : is_positive req.group_id ≡ false) where
    asked_friend :
        BothConnect sv req h
        → is_failed body_answer ≡ false
        → Refused (send_message sv req h) ⊎ LetThrough
    unfolding send_message send_single open_db query
    asked_friend (w, r) b =
        let new : History =
          sql_query write_db (relation_text sv req h) relation_answer
          ∷ sql_query write_db (body_text sv req h) body_answer
          ∷ db_opened read_db true
          ∷ db_opened write_db true
          ∷ [] in
        let before : All BeforeDelivery new =
          (asks relation_answer, (stores_body body_answer, (opens_read true, (opens true, tt)))) in
        elim (Outcome-cases (friend_of relation_answer)) [
          | inl f ↦ inr ((w, r), b, inl (friend_of-true relation_answer f))
          | inr (inl f) ↦ elim exempt_or_refused [
            | inl t ↦ inr ((w, r), b, inr t)
            | inr t ↦
                inl (new, rw (w, r, b, single, f, t) refl, before, rw (w, r, b, single, f, t) refl)
          ]
          | inr (inr (inl f)) ↦
              inl (new, rw (w, r, b, single, f) refl, before, rw (w, r, b, single, f) tt)
          | inr (inr (inr f)) ↦
              inl (new, rw (w, r, b, single, f) refl, before, rw (w, r, b, single, f) tt)
        ]

    -- A message to one receiver, whatever the databases and Redis answer: either both connections
    -- are up, the body is stored, and the first row of the relation query has status 1, or the
    -- message is a system message or a friend request; or the handler calls nothing but the two
    -- connections, the statement of the body and that query, so that no sequence number is taken,
    -- no index row is written and nobody is notified, and it raises or replies without success.
    pub delivery_needs_friend : Refused (send_message sv req h) ⊎ LetThrough
    unfolding send_message open_db query
    delivery_needs_friend = elim (Bool-cases (sv.db_connect h write_db)) [
      | inr w ↦
          let valid = sv.db_connect (db_opened write_db false ∷ h) read_db in
          inl (
            db_opened read_db valid ∷ db_opened write_db false ∷ [],
            rw w refl,
            (opens_read valid, (opens false, tt)),
            rw w refl,
          )
      | inl w ↦ elim (Bool-cases (sv.db_connect (db_opened write_db true ∷ h) read_db)) [
        | inr r ↦ inl (
          db_opened read_db false ∷ db_opened write_db true ∷ [],
          rw (w, r) refl,
          (opens_read false, (opens true, tt)),
          rw (w, r) refl,
        )
        | inl r ↦ elim (Bool-cases (is_failed body_answer)) [
          | inr b ↦ asked_friend (w, r) b
          | inl b ↦ inl (
            sql_query write_db (body_text sv req h) body_answer
                ∷ db_opened read_db true
                ∷ db_opened write_db true
                ∷ [],
            rw (w, r, b) refl,
            (stores_body body_answer, (opens_read true, (opens true, tt))),
            rw (w, r, b) refl,
          )
        ]
      ]
    ]
