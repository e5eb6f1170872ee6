-- ===== src/Chat/Send/Group.antt =====
-- `SendMessage` to a group: the members' numbers, the batch statement, and the notifications.
use mathlib.Core.Path.{ap₂}
use mathlib.Core.List.{append_assoc, append-nil}
use my_tiny_im.Base.{
  ◌≡◌, refl, sym, ap, ◌∙◌, true, false, List, [], ◌∷◌, ◌++◌, map, All, is_nil, if◌then◌else◌, inl,
  inr, ◌⊎◌,
}
use my_tiny_im.Base.Text.{Text, bytes, c_str}
use my_tiny_im.Base.Int.{ℤ, pos, is_positive}
use my_tiny_im.Services.{
  Event, write_db, read_db, sql_query, redis_opened, redis_command, push_notify, History, Services,
  ok, emit, after, pure,
}
use my_tiny_im.Services.Mysql.{open_db, query, is_failed}
use my_tiny_im.Services.Trace.{
  Adds, All-append, Emits, Emits-pure, Emits-emit, Emits-seq, OfRedis, emits_rules,
}
use my_tiny_im.Chat.{SendMessageReq, status_ok}
use my_tiny_im.Chat.Send.{
  next_seq, number_members, push_all, push_member, push_members, success_reply, sql_index_head,
  index_tuple, sql_members, members_of, send_group, send_message,
}
use my_tiny_im.Chat.Send.Single.{opened, BothConnect, body_text, body_stored, msg_id_of}

-- A call of Redis, and nothing else.
abbrev pub RedisOnly : Event → Type 0
RedisOnly (redis_opened b) = Unit
RedisOnly (redis_command args reply) = Unit
RedisOnly _ = ⊥

-- The rows of the batch statement, written down at once.
unfoldable pub batch_rows : ℤ → ℤ → List (ℤ × ℤ) → Text
batch_rows group_id msg_id [] = []
batch_rows group_id msg_id ((uid, seq) ∷ targets) =
    index_tuple uid group_id msg_id seq
    ++ (if is_nil targets then [] else bytes "," ++ batch_rows group_id msg_id targets)

module _ (sv : Services) where
  next_seq-Emits : (uid : ℤ) → Emits RedisOnly (next_seq sv uid)
  unfolding next_seq
  next_seq-Emits uid =
      let redis : OfRedis RedisOnly = record { opened = λ b. tt; commanded = λ args reply. tt } in
      search emits_rules

  -- What the loop over the members does, for any members and any answers of Redis.
  pub record Numbers (group_id msg_id : ℤ) (members : List ℤ) (sql : Text) (h : History)
      : Type 0 where
    pub targets : List (ℤ × ℤ)
    pub new : History
    pub result :
        number_members sv group_id msg_id members sql h
        ≡ (ok (sql ++ batch_rows group_id msg_id targets, targets), new ++ h)
    pub owners : map (λ t. t.0) targets ≡ members
    pub redis_only : All RedisOnly new

  number_step :
      (group_id msg_id uid : ℤ) (members : List ℤ) (sql : Text) (h : History)
      (a : Adds RedisOnly h (next_seq sv uid h))
      → (rest : Numbers group_id msg_id members
          (if is_nil members
            then sql ++ index_tuple uid group_id msg_id a.value
            else (sql ++ index_tuple uid group_id msg_id a.value) ++ bytes ",")
          (a.new ++ h))
      → number_members sv group_id msg_id (uid ∷ members) sql h ≡ (
        ok (
          (if is_nil members
                then sql ++ index_tuple uid group_id msg_id a.value
                else (sql ++ index_tuple uid group_id msg_id a.value) ++ bytes ",")
              ++ batch_rows group_id msg_id rest.targets,
          (uid, a.value) ∷ rest.targets,
        ),
        rest.new ++ (a.new ++ h),
      )
  unfolding number_members
  number_step group_id msg_id uid members sql h a rest =
      rw a.result (ap (λ r. after r (λ p. pure (p.0, (uid, a.value) ∷ p.1))) rest.result)

  batch_separator :
      (group_id msg_id uid seq : ℤ) (members : List ℤ) (targets : List (ℤ × ℤ)) (sql : Text)
      → map (λ t. t.0) targets ≡ members
      → (if is_nil members
            then sql ++ index_tuple uid group_id msg_id seq
            else (sql ++ index_tuple uid group_id msg_id seq) ++ bytes ",")
          ++ batch_rows group_id msg_id targets
        ≡ sql ++ batch_rows group_id msg_id ((uid, seq) ∷ targets)
  unfolding batch_rows
  batch_separator group_id msg_id uid seq [] [] sql o =
      append_assoc sql (index_tuple uid group_id msg_id seq) []
  batch_separator group_id msg_id uid seq [] (t ∷ targets) sql o = cc
  batch_separator group_id msg_id uid seq (m ∷ members) [] sql o = cc
  batch_separator group_id msg_id uid seq (m ∷ members) (t ∷ targets) sql o = simp append_assoc

  pub number_members_lem :
      (group_id msg_id : ℤ) (members : List ℤ) (sql : Text) (h : History)
      → Numbers group_id msg_id members sql h
  number_members_lem group_id msg_id [] sql h = record {
    targets = [];
    new = [];
    result =
        unfold number_members batch_rows in
        ap (λ (t : Text). (ok (t, []), h)) (sym (append-nil sql));
    owners = refl;
    redis_only = tt;
  }
  number_members_lem group_id msg_id (uid ∷ members) sql h =
      let a = (next_seq-Emits uid).at h in
      let rest =
        number_members_lem group_id msg_id members
          (if is_nil members
            then sql ++ index_tuple uid group_id msg_id a.value
            else (sql ++ index_tuple uid group_id msg_id a.value) ++ bytes ",")
          (a.new ++ h) in
      record {
        targets = (uid, a.value) ∷ rest.targets;
        new = rest.new ++ a.new;
        result =
            number_step group_id msg_id uid members sql h a rest
            ∙ ap₂ (λ (t : Text) (n : History). (ok (t, (uid, a.value) ∷ rest.targets), n))
                (batch_separator group_id msg_id uid a.value members rest.targets sql rest.owners)
                (sym (append_assoc rest.new a.new h));
        owners = ap (◌∷◌ uid) rest.owners;
        redis_only = All-append RedisOnly rest.new a.new rest.redis_only a.all;
      }

-- The sequence number that a user was given.
abbrev pub Given : ℤ → ℤ → List (ℤ × ℤ) → Type 0
Given uid seq [] = ⊥
Given uid seq ((u, s) ∷ targets) = ((uid ≡ u) × (seq ≡ s)) ⊎ Given uid seq targets

-- Redis calls, and notifications of the listed users with their numbers.
abbrev pub PushesGiven : List (ℤ × ℤ) → ℤ → Event → Type 0
PushesGiven targets type (push_notify addr u s t) = Given u s targets × (t ≡ type)
PushesGiven targets type (redis_opened b) = Unit
PushesGiven targets type (redis_command args reply) = Unit
PushesGiven targets type _ = ⊥

module _ (sv : Services) (all : List (ℤ × ℤ)) (type : ℤ) where
  push-Given :
      (uid seq : ℤ) (locations : List (Text × Text))
      → Given uid seq all
      → Emits (PushesGiven all type) (push_all sv uid seq type locations)
  unfolding push_all
  push-Given uid seq [] g = Emits-pure tt
  push-Given uid seq ((device, addr) ∷ ls) g =
      Emits-seq (emit (push_notify addr uid seq type)) (push_all sv uid seq type ls)
        (Emits-emit _ (g, refl)) (push-Given uid seq ls g)

  push_member-Emits :
      (uid seq : ℤ)
      → Given uid seq all
      → Emits (PushesGiven all type) (push_member sv type (uid, seq))
  unfolding push_member
  push_member-Emits uid seq g =
      let redis : OfRedis (PushesGiven all type) = record {
        opened = λ b. tt;
        commanded = λ args reply. tt;
      } in
      let push = λ (ls : List (Text × Text)). push-Given uid seq ls g in search (emits_rules, push)

  push_members-Emits :
      (targets : List (ℤ × ℤ))
      → ((uid seq : ℤ) → Given uid seq targets → Given uid seq all)
      → Emits (PushesGiven all type) (push_members sv type targets)
  unfolding push_members
  push_members-Emits [] g = Emits-pure tt
  push_members-Emits ((uid, seq) ∷ targets) g =
      Emits-seq (push_member sv type (uid, seq)) (push_members sv type targets)
        (push_member-Emits uid seq (g uid seq (inl (refl, refl))))
        (push_members-Emits targets (λ u s k. g u s (inr k)))

module _ (sv : Services) (req : SendMessageReq) (h : History) where
  abbrev pub members_text : Text
  members_text = c_str (sql_members req.group_id)

  abbrev pub queried : History
  queried =
      sql_query read_db members_text (sv.mysql (body_stored sv req h) read_db members_text)
      ∷ body_stored sv req h

  -- With both connections up and the body of a group message stored, let the member query give at
  -- least one member. Then each member, in the order of the query, gets a number by Redis calls
  -- alone; one statement writes one row for each member with its number; after it come only Redis
  -- calls and notifications, each of a member with the member's number and the message's type; and
  -- the reply acknowledges the body's id, whether or not that statement succeeded.
  pub group_fans_out :
      (member : ℤ) (members : List ℤ)
      → BothConnect sv req h
      → is_failed (sv.mysql (opened sv req h) write_db (body_text sv req h)) ≡ false
      → is_positive req.group_id ≡ true
      → members_of (sv.mysql (body_stored sv req h) read_db members_text) ≡ ok (member ∷ members)
      → (targets : List (ℤ × ℤ)) × (numbering : History) × (pushing : History) × (map
            (λ t. t.0)
            targets
          ≡ member ∷ members)
        × All RedisOnly numbering
        × All (PushesGiven targets req.type) pushing
        × (let batch =
              c_str (sql_index_head ++ batch_rows req.group_id (msg_id_of sv req h) targets) in
            let numbered = numbering ++ queried in
            send_message sv req h ≡ (
              ok (status_ok, success_reply (msg_id_of sv req h) (pos 0)),
              pushing ++ (sql_query write_db batch (sv.mysql numbered write_db batch) ∷ numbered),
            ))
  unfolding send_message send_group open_db query
  group_fans_out member members (w, r) b g m =
      let n =
        number_members_lem sv req.group_id (msg_id_of sv req h) (member ∷ members) sql_index_head
          queried in
      let batch =
        c_str (sql_index_head ++ batch_rows req.group_id (msg_id_of sv req h) n.targets) in
      let p = (push_members-Emits sv n.targets req.type n.targets (λ u s k. k)).at (
        sql_query write_db batch (sv.mysql (n.new ++ queried) write_db batch)
        ∷ (n.new ++ queried)) in
      (
        n.targets,
        n.new,
        p.new,
        n.owners,
        n.redis_only,
        p.all,
        rw (w, r, b, g, m, n.result, p.result),
      )

  -- A group with no members, or whose member query fails: the body is stored and acknowledged, and
  -- nothing else is called.
  pub group_without_members :
      BothConnect sv req h
      → is_failed (sv.mysql (opened sv req h) write_db (body_text sv req h)) ≡ false
      → is_positive req.group_id ≡ true
      → members_of (sv.mysql (body_stored sv req h) read_db members_text) ≡ ok []
      → send_message sv req h
        ≡ (ok (status_ok, success_reply (msg_id_of sv req h) (pos 0)), queried)
  unfolding send_message send_group open_db query
  group_without_members (w, r) b g m = rw (w, r, b, g, m)
