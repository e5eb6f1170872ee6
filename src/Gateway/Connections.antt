-- ===== src/Gateway/Connections.antt =====
-- The table of connections, src/gateway/connection_manager.cpp and connection_manager.h. A session
-- is its address; a method runs under the table's mutex, so that calls are one after the other.
pub mod Sessions
pub mod Table
pub mod Delivery
use my_tiny_im.Base.{
  ℕ, ◌≡◌, Bool, true, false, not, ◌&&◌, ◌||◌, Option, none, some, List, [], ◌∷◌, ◌++◌, map, ltb,
  ◌==◌, if◌then◌else◌,
}
use my_tiny_im.Base.Text.{Text, is_empty, text_eq}
use my_tiny_im.Base.Int.{ℤ}
use my_tiny_im.Base.Eq.{int_Eq}
use my_tiny_im.Base.Map.{Map, lookup, insert, remove}

-- std::set<std::shared_ptr<WebsocketSession>>: ascending by address.
abbrev pub Sessions : Type 0
Sessions = List ℕ

pub insert_session : ℕ → Sessions → Sessions
insert_session s [] = s ∷ []
insert_session s (t ∷ ts) =
    if s == t then t ∷ ts else if ltb s t then s ∷ t ∷ ts else t ∷ insert_session s ts

pub erase_session : ℕ → Sessions → Sessions
erase_session s [] = []
erase_session s (t ∷ ts) = if s == t then ts else t ∷ erase_session s ts

-- users_
abbrev pub Users : Type 0
Users = Map ℤ Sessions

-- users_[user_id], which makes an empty set where there is none
abbrev pub sessions_or_new : Option Sessions → Sessions
sessions_or_new none = []
sessions_or_new (some ss) = ss

pub join : ℤ → ℕ → Users → Users
join user_id session users =
    insert user_id (insert_session session (sessions_or_new (lookup user_id users))) users

-- The branch of Leave for a user that is in the table.
leave_known : ℤ → Sessions → Users → Users
leave_known user_id [] users = remove user_id users
leave_known user_id (s ∷ ss) users = insert user_id (s ∷ ss) users

pub leave : ℤ → ℕ → Users → Users
unfolding leave_known
leave user_id session users = elim (lookup user_id users) [
  | none ↦ users
  | some ss ↦ leave_known user_id (erase_session session ss) users
]

-- The calls on sessions that a method makes, in order.
pub data SessionCall : Type 0 where
  call_send : ℕ → Text → SessionCall
  call_kick : ℕ → SessionCall

pub send_to_user : ℤ → Text → Users → List SessionCall
send_to_user user_id msg users = elim (lookup user_id users) [
  | none ↦ []
  | some ss ↦ map (λ s. call_send s msg) ss
]

-- The loop of KickUser; `get_device` is the sessions' GetDevice().
kick_sessions : (ℕ → Text) → Text → Sessions → List SessionCall
kick_sessions get_device device [] = []
kick_sessions get_device device (s ∷ ss) =
    let rest = kick_sessions get_device device ss in
    if is_empty device || text_eq (get_device s) device then call_kick s ∷ rest else rest

pub kick_user : (ℕ → Text) → ℤ → Text → Users → List SessionCall
unfolding kick_sessions
kick_user get_device user_id device users = elim (lookup user_id users) [
  | none ↦ []
  | some ss ↦ kick_sessions get_device device ss
]
