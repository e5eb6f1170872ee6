-- ===== src/Chat/Send/Single.antt =====
-- `SendMessage` to a single receiver: the friend check, the index row, and the notifications.
use my_tiny_im.Base.{
  ◌≡◌, refl, Bool, true, false, not, ◌&&◌, List, [], ◌∷◌, ◌++◌, arith, inl, inr, ◌⊎◌, All,
  Bool-cases,
}
use my_tiny_im.Base.Text.{Text, c_str}
use my_tiny_im.Base.Int.{ℤ, pos, is_positive, int_eq, int_eq_of}
use my_tiny_im.Services.{
  Event, write_db, read_db, db_opened, sql_query, redis_opened, redis_command, push_notify, History,
  Services, ok, emit,
}
use my_tiny_im.Services.Mysql.{open_db, query, is_failed, insert_id}
use my_tiny_im.Services.Trace.{Emits, Emits-pure, Emits-emit, Emits-seq, OfRedis, emits_rules}
use my_tiny_im.Chat.{SendMessageReq, blank, status_ok}
use my_tiny_im.Chat.Send.{
  push_all, push_receiver, next_seq, success_reply, sql_index_head, index_tuple, sql_body,
  sql_relation, friend_of, send_single, send_message,
}

module _ (sv : Services) (req : SendMessageReq) (h : History) where
  -- The history once the two connections are there.
  abbrev pub opened : History
  opened = db_opened read_db true ∷ db_opened write_db true ∷ h

  abbrev pub BothConnect : Type 0
  BothConnect =
      (sv.db_connect h write_db ≡ true)
      × (sv.db_connect (db_opened write_db true ∷ h) read_db ≡ true)

  abbrev pub body_text : Text
  body_text = c_str (sql_body req.sender_id req.group_id req.type (c_str (sv.escape req.content)))

  abbrev pub relation_text : Text
  relation_text = c_str (sql_relation req.sender_id req.receiver_id)

  abbrev pub body_stored : History
  body_stored = sql_query write_db body_text (sv.mysql opened write_db body_text) ∷ opened

-- The only notifications are for this user, with this sequence number and type.
abbrev pub PushesOnly : ℤ → ℤ → ℤ → Event → Type 0
PushesOnly uid seq type (push_notify addr u s t) = (u ≡ uid) × (s ≡ seq) × (t ≡ type)
PushesOnly uid seq type (redis_opened b) = Unit
PushesOnly uid seq type (redis_command args reply) = Unit
PushesOnly uid seq type _ = ⊥

pub PushesOnly-OfRedis : (uid seq type : ℤ) → OfRedis (PushesOnly uid seq type)
PushesOnly-OfRedis uid seq type = record { opened = λ b. tt; commanded = λ args reply. tt }

module _ (sv : Services) where
  pub push_all-Emits :
      (uid seq type : ℤ) (locations : List (Text × Text))
      → Emits (PushesOnly uid seq type) (push_all sv uid seq type locations)
  unfolding push_all
  push_all-Emits uid seq type [] = Emits-pure tt
  push_all-Emits uid seq type ((device, addr) ∷ ls) =
      Emits-seq (emit (push_notify addr uid seq type)) (push_all sv uid seq type ls)
        (Emits-emit _ (refl, refl, refl)) (push_all-Emits uid seq type ls)

  pub push_receiver-Emits :
      (req : SendMessageReq) (seq : ℤ)
      → Emits (PushesOnly req.receiver_id seq req.type) (push_receiver sv req seq)
  unfolding push_receiver
  push_receiver-Emits req seq =
      let redis = PushesOnly-OfRedis req.receiver_id seq req.type in
      search (emits_rules, push_all-Emits)

-- Who may write to the receiver: a friend, the system, and who asks to become a friend.
abbrev pub MayWrite : Bool → ℤ → Type 0
MayWrite is_friend type = (is_friend ≡ true) ⊎ ((type ≡ pos 3) ⊎ (type ≡ pos 4))

pub MayWrite-passes :
    (b : Bool) (type : ℤ)
    → MayWrite b type
    → (not b && (not (int_eq type (pos 3)) && not (int_eq type (pos 4)))) ≡ false
MayWrite-passes b type m = ground (arith, int_eq_of type (pos 3), int_eq_of type (pos 4))

module _ (sv : Services) (req : SendMessageReq) (h : History) where
  abbrev pub related : History
  related =
      sql_query write_db (relation_text sv req h)
        (sv.mysql (body_stored sv req h) write_db (relation_text sv req h))
      ∷ body_stored sv req h

  abbrev pub msg_id_of : ℤ
  msg_id_of = insert_id (sv.mysql (opened sv req h) write_db (body_text sv req h))

  abbrev pub index_text : ℤ → Text
  index_text seq = c_str (sql_index_head ++ index_tuple req.receiver_id req.sender_id msg_id_of seq)

  -- With both connections up and the body stored, a message to one receiver that may be written
  -- takes the receiver's next sequence number and writes one index row, for the receiver, with the
  -- body's id and that number. If the row is stored the reply acknowledges both, and all that
  -- follows are Redis calls and notifications of the receiver with that number and the message's
  -- type; if not, the reply is a failure and nothing follows.
  pub single_delivers :
      (is_friend : Bool) (seq : ℤ) (numbered : History)
      → BothConnect sv req h
      → is_failed (sv.mysql (opened sv req h) write_db (body_text sv req h)) ≡ false
      → is_positive req.group_id ≡ false
      → friend_of (sv.mysql (body_stored sv req h) write_db (relation_text sv req h)) ≡ ok is_friend
      → MayWrite is_friend req.type
      → next_seq sv req.receiver_id related ≡ (ok seq, numbered)
      → let answer = sv.mysql numbered write_db (index_text seq) in
        let indexed = sql_query write_db (index_text seq) answer ∷ numbered in
        ((is_failed answer ≡ true) × (send_message sv req h ≡ (ok (status_ok, blank), indexed)))
        ⊎ ((is_failed answer ≡ false)
            × ((new : History) × (send_message sv req h
                  ≡ (ok (status_ok, success_reply msg_id_of seq), new ++ indexed))
                × All (PushesOnly req.receiver_id seq req.type) new))
  unfolding send_message send_single open_db query
  single_delivers is_friend seq numbered (w, r) b g f m n =
      elim (Bool-cases (is_failed (sv.mysql numbered write_db (index_text seq)))) [
        | inl e ↦ inl (e, rw (w, r, b, g, f, MayWrite-passes is_friend req.type m, n, e))
        | inr e ↦
            let pushed = (push_receiver-Emits sv req seq).at (
              sql_query write_db (index_text seq) (sv.mysql numbered write_db (index_text seq))
              ∷ numbered) in
            inr (
              e,
              (
                pushed.new,
                rw (w, r, b, g, f, MayWrite-passes is_friend req.type m, n, e, pushed.result),
                pushed.all,
              ),
            )
      ]
