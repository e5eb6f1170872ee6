-- ===== src/Gateway/Connections/Table.antt =====
-- The connection table of src/gateway/connection_manager.cpp as a set of pairs of a user and a
-- session, under `Join` and `Leave`.
use mathlib.Core.Path.{subst}
use my_tiny_im.Base.{
  ℕ, ◌≡◌, ◌≢◌, refl, ap, ◌∙◌, Bool, not, ◌&&◌, ◌||◌, none, some, List, [], ◌∷◌, All, ◌==◌,
  if◌then◌else◌, arith, inl, inr, Option-cases, Bool-cases,
}
use my_tiny_im.Base.Int.{ℤ, int_eq, int_eq→eq}
use my_tiny_im.Base.Eq.{int_Eq}
use my_tiny_im.Base.Map.{lookup, lookup-insert, lookup-remove, All-insert, All-remove, All-lookup}
use my_tiny_im.Gateway.Connections.{
  Sessions, Users, sessions_or_new, insert_session, erase_session, join, leave, leave_known,
}
use my_tiny_im.Gateway.Connections.Sessions.{
  contains, IsAscending, contains-insert_session, contains-erase_session,
  insert_session-IsAscending, erase_session-IsAscending,
}

-- The abstract view.
unfoldable pub is_joined : Users → ℤ → ℕ → Bool
is_joined users user_id session = contains session (sessions_or_new (lookup user_id users))

-- Every set is ascending, and no user is kept without a session.
abbrev pub IsTable : Users → Type 0
IsTable = All (λ x. IsAscending x.1 × (x.1 ≢ []))

abbrev pub IsKept : Sessions → Type 0
IsKept ss = IsAscending ss × (ss ≢ [])

known_IsAscending :
    (user_id : ℤ) (users : Users)
    → IsTable users
    → IsAscending (sessions_or_new (lookup user_id users))
known_IsAscending user_id users t = elim (Option-cases (lookup user_id users)) [
  | inl e ↦ rw e tt
  | inr (ss, e) ↦ rw e (All-lookup IsKept user_id users ss t e).0
]

insert_session-ne-nil : (s : ℕ) (ss : Sessions) → insert_session s ss ≢ []
unfolding insert_session
insert_session-ne-nil s [] e = cc e
insert_session-ne-nil s (t ∷ ts) e = ground arith

pub join-IsTable :
    (user_id : ℤ) (session : ℕ) (users : Users)
    → IsTable users
    → IsTable (join user_id session users)
unfolding join
join-IsTable user_id session users t =
    All-insert IsKept user_id _ users
      (
        insert_session-IsAscending session _ (known_IsAscending user_id users t),
        insert_session-ne-nil session _,
      )
      t

leave_known-IsTable :
    (user_id : ℤ) (ss : Sessions) (users : Users)
    → IsAscending ss
    → IsTable users
    → IsTable (leave_known user_id ss users)
unfolding leave_known
leave_known-IsTable user_id [] users a t = All-remove IsKept user_id users t
leave_known-IsTable user_id (s ∷ ss) users a t =
    All-insert IsKept user_id (s ∷ ss) users (a, λ e. cc e) t

pub leave-IsTable :
    (user_id : ℤ) (session : ℕ) (users : Users)
    → IsTable users
    → IsTable (leave user_id session users)
unfolding leave
leave-IsTable user_id session users t = elim (Option-cases (lookup user_id users)) [
  | inl e ↦ rw (e, leave) t
  | inr (ss, e) ↦
      rw (e, leave)
        (leave_known-IsTable user_id _ users
          (erase_session-IsAscending session ss (All-lookup IsKept user_id users ss t e).0) t)
]

-- `Join` adds the pair and changes no other.
pub is_joined-join :
    (user_id : ℤ) (session : ℕ) (users : Users) (u : ℤ) (s : ℕ)
    → is_joined (join user_id session users) u s
      ≡ ((int_eq user_id u && s == session) || is_joined users u s)
unfolding is_joined join
is_joined-join user_id session users u s =
    ap (λ o. contains s (sessions_or_new o))
      (lookup-insert u user_id (insert_session session (sessions_or_new (lookup user_id users)))
        users)
    ∙ elim (Bool-cases (int_eq user_id u)) [
      | inl e ↦ rw e (
          subst
            (λ v.
              contains s (insert_session session (sessions_or_new (lookup user_id users)))
              ≡ (s == session || contains s (sessions_or_new (lookup v users))))
            (int_eq→eq user_id u e) (contains-insert_session s session _))
      | inr e ↦ rw e
    ]

leave_known-lookup :
    (user_id : ℤ) (ss : Sessions) (users : Users) (u : ℤ)
    → sessions_or_new (lookup u (leave_known user_id ss users))
      ≡ (if int_eq user_id u then ss else sessions_or_new (lookup u users))
unfolding leave_known
leave_known-lookup user_id [] users u = ground (arith, lookup-remove u user_id users)
leave_known-lookup user_id (s ∷ ss) users u = ground (arith, lookup-insert u user_id (s ∷ ss) users)

absent_leave :
    (user_id : ℤ) (session : ℕ) (users : Users) (u : ℤ) (s : ℕ)
    → lookup user_id users ≡ none
    → is_joined users u s ≡ (not (int_eq user_id u && s == session) && is_joined users u s)
unfolding is_joined contains
absent_leave user_id session users u s e = elim (Bool-cases (int_eq user_id u)) [
  | inl h ↦
      let gone : lookup u users ≡ none =
        subst (λ v. lookup v users ≡ none) (int_eq→eq user_id u h) e in
      rw (h, gone) (ground arith)
  | inr h ↦ rw h
]

present_leave :
    (user_id : ℤ) (session : ℕ) (users : Users) (ss : Sessions) (u : ℤ) (s : ℕ)
    → lookup user_id users ≡ some ss
    → IsAscending ss
    → contains s
        (if int_eq user_id u then erase_session session ss else sessions_or_new (lookup u users))
      ≡ (not (int_eq user_id u && s == session) && is_joined users u s)
unfolding is_joined
present_leave user_id session users ss u s e a = elim (Bool-cases (int_eq user_id u)) [
  | inl h ↦
      let here : lookup u users ≡ some ss =
        subst (λ v. lookup v users ≡ some ss) (int_eq→eq user_id u h) e in
      rw (h, here) (contains-erase_session s session ss a)
  | inr h ↦ rw h
]

-- `Leave` takes the pair out and changes no other.
pub is_joined-leave :
    (user_id : ℤ) (session : ℕ) (users : Users) (u : ℤ) (s : ℕ)
    → IsTable users
    → is_joined (leave user_id session users) u s
      ≡ (not (int_eq user_id u && s == session) && is_joined users u s)
unfolding is_joined leave
is_joined-leave user_id session users u s t = elim (Option-cases (lookup user_id users)) [
  | inl e ↦ rw (e, leave) (absent_leave user_id session users u s e)
  | inr (ss, e) ↦
      rw (e, leave)
        (ap (contains s) (leave_known-lookup user_id (erase_session session ss) users u)
          ∙ present_leave user_id session users ss u s e (All-lookup IsKept user_id users ss t e).0)
]

pub data TableCall : Type 0 where
  joins : ℤ → ℕ → TableCall
  leaves : ℤ → ℕ → TableCall

pub step : Users → TableCall → Users
step users (joins u s) = join u s users
step users (leaves u s) = leave u s users

unfoldable pub run : Users → List TableCall → Users
run users [] = users
run users (c ∷ cs) = run (step users c) cs

-- Whether the last call that names the pair is a `Join`; `b` if none does.
unfoldable pub last_join : Bool → ℤ → ℕ → List TableCall → Bool
last_join b u s [] = b
last_join b u s (joins v t ∷ cs) = last_join ((int_eq v u && s == t) || b) u s cs
last_join b u s (leaves v t ∷ cs) = last_join (not (int_eq v u && s == t) && b) u s cs

step-IsTable : (users : Users) (c : TableCall) → IsTable users → IsTable (step users c)
unfolding step
step-IsTable users (joins u s) t = join-IsTable u s users t
step-IsTable users (leaves u s) t = leave-IsTable u s users t

-- After any calls of `Join` and `Leave` on a well-formed table, a session is in the set of a user
-- exactly if the last call that names the two is a `Join`, or none does and it was there before.
pub is_joined-run :
    (users : Users) (cs : List TableCall) (u : ℤ) (s : ℕ)
    → IsTable users
    → is_joined (run users cs) u s ≡ last_join (is_joined users u s) u s cs
unfolding run last_join step
is_joined-run users [] u s t = refl
is_joined-run users (joins v r ∷ cs) u s t =
    is_joined-run (join v r users) cs u s (join-IsTable v r users t)
    ∙ ap (λ b. last_join b u s cs) (is_joined-join v r users u s)
is_joined-run users (leaves v r ∷ cs) u s t =
    is_joined-run (leave v r users) cs u s (leave-IsTable v r users t)
    ∙ ap (λ b. last_join b u s cs) (is_joined-leave v r users u s t)

-- Any calls of `Join` and `Leave` keep a well-formed table well formed: its sets ascend, and no
-- user is kept without a session.
pub run-IsTable : (users : Users) (cs : List TableCall) → IsTable users → IsTable (run users cs)
unfolding run
run-IsTable users [] t = t
run-IsTable users (c ∷ cs) t = run-IsTable (step users c) cs (step-IsTable users c t)
