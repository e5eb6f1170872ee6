-- ===== src/Relation/Friends/Requests.antt =====
-- The handlers for friends of src/user_server/relation_service_impl.cpp with a database.
use my_tiny_im.Base.{
  ◌≡◌, ◌≢◌, refl, ap, true, false, none, some, List, [], ◌∷◌, map, All, inl, inr, ◌⊎◌, Bool-cases,
}
use my_tiny_im.Base.Text.{Text, bytes, c_str}
use my_tiny_im.Base.Int.{
  ℤ, pos, int_eq_ne, int_eq_of, IsInt64, to_string, stoll-to_string, c_str-to_string,
}
use my_tiny_im.Services.{
  write_db, read_db, db_opened, sql_query, chat_send, Row, sql_rows, History, Services, Outcome, ok,
  bind,
}
use my_tiny_im.Services.Mysql.{open_db, query, is_failed, insert_id, stoll_column, text_column}
use my_tiny_im.Chat.{status_ok}
use my_tiny_im.Relation.{send_chat, has_row, read_rows, friend_req_type}
use my_tiny_im.Relation.Friends.{
  ApplyFriendReq, refused, sql_pending, sql_request, apply_friend, FriendInfo, sql_friends,
  read_friend, friends_reply, get_friend_list,
}

-- A loop over rows that are each read back as an item gives the items in order.
pub read_rows-map :
    {A : Type 0} (read : Row → Outcome A) (row_of : A → Row) (P : A → Type 0)
    → ((a : A) → P a → read (row_of a) ≡ ok a)
    → (items : List A) → All P items
    → read_rows read (map row_of items) ≡ ok items
unfolding read_rows
read_rows-map read row_of P back [] v = refl
read_rows-map {A} read row_of P back (a ∷ items) v = rw (back a v.0) (
    ap (λ (r : Outcome (List A)). bind r (λ rest. ok (a ∷ rest)))
      (read_rows-map read row_of P back items v.1))

module _ (sv : Services) (req : ApplyFriendReq) (h : History) where
  abbrev pub pending_text : Text
  pending_text = c_str (sql_pending req.user_id req.friend_id)

  abbrev pub request_text : Text
  request_text = c_str (sql_request req.user_id req.friend_id req.remark)

  abbrev pub asked : History
  asked =
      sql_query write_db pending_text (sv.mysql (db_opened write_db true ∷ h) write_db pending_text)
      ∷ db_opened write_db true
      ∷ h

  -- With a connection, and for another user than oneself: if a request is pending, it is not
  -- stored again and nobody is told; if not, it is stored by one statement, and exactly if that
  -- succeeds the reply has its id and the friend is sent one friend request.
  pub apply_friend_once :
      sv.db_connect h write_db ≡ true
      → req.user_id ≢ req.friend_id
      → let found = sv.mysql (db_opened write_db true ∷ h) write_db pending_text in
        let answer = sv.mysql asked write_db request_text in
        let stored = sql_query write_db request_text answer ∷ asked in
        ((has_row found ≡ true)
          × (apply_friend sv req h
              ≡ (ok (status_ok, refused (bytes "Request already pending")), asked)))
        ⊎ (((has_row found ≡ false)
              × (is_failed answer ≡ true)
              × (apply_friend sv req h ≡ (ok (status_ok, refused (bytes "Apply failed")), stored)))
            ⊎ ((has_row found ≡ false)
                × (is_failed answer ≡ false)
                × (apply_friend sv req h ≡ (
                  ok (
                    status_ok,
                    record { success = true; error_message = []; apply_id = insert_id answer },
                  ),
                  chat_send req.user_id req.friend_id
                        (pos 0)
                        friend_req_type
                        (bytes "Friend Request")
                      ∷ stored,
                ))))
  unfolding apply_friend open_db query send_chat
  apply_friend_once w n =
      let other = int_eq_ne req.user_id req.friend_id n in
      elim (Bool-cases (has_row (sv.mysql (db_opened write_db true ∷ h) write_db pending_text))) [
        | inl p ↦ inl (p, rw (other, w, p))
        | inr p ↦ elim (Bool-cases (is_failed (sv.mysql asked write_db request_text))) [
          | inl f ↦ inr (inl (p, f, rw (other, w, p, f)))
          | inr f ↦ inr (inr (p, f, rw (other, w, p, f)))
        ]
      ]

-- A request to oneself is refused before anything is called.
pub apply_friend_self :
    (sv : Services) (req : ApplyFriendReq) (h : History)
    → req.user_id ≡ req.friend_id
    → apply_friend sv req h ≡ (ok (status_ok, refused (bytes "Cannot add self")), h)
unfolding apply_friend
apply_friend_self sv req h e = rw (int_eq_of req.user_id req.friend_id e)

-- The row of a friend, with a nickname that holds no NUL.
abbrev pub friend_row : FriendInfo → Row
friend_row f = some (to_string f.user_id) ∷ some f.nickname ∷ none ∷ []

abbrev pub IsFriendRow : FriendInfo → Type 0
IsFriendRow f = IsInt64 f.user_id × (c_str f.nickname ≡ f.nickname)

read_friend-friend_row : (f : FriendInfo) → IsFriendRow f → read_friend (friend_row f) ≡ ok f
unfolding read_friend stoll_column text_column
read_friend-friend_row f (i, n) = rw (c_str-to_string f.user_id, stoll-to_string f.user_id i, n)

-- On a connection that is there, the rows of some friends give the list of those friends, in the
-- order of the rows, after one query.
pub get_friend_list_returns :
    (sv : Services) (user_id : ℤ) (h : History) (friends : List FriendInfo)
    → sv.db_connect h read_db ≡ true
    → sv.mysql (db_opened read_db true ∷ h) read_db (c_str (sql_friends user_id))
      ≡ sql_rows (map friend_row friends)
    → All IsFriendRow friends
    → get_friend_list sv user_id h ≡ (
      ok (status_ok, record { friends = friends; success = true }),
      sql_query read_db (c_str (sql_friends user_id)) (sql_rows (map friend_row friends))
          ∷ db_opened read_db true
          ∷ h,
    )
unfolding get_friend_list open_db query friends_reply
get_friend_list_returns sv user_id h friends w a v =
    rw (w, a, read_rows-map read_friend friend_row IsFriendRow read_friend-friend_row friends v)
