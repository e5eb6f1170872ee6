-- ===== src/Relation/Groups/Members.antt =====
-- The handlers for groups of src/user_server/relation_service_impl.cpp with a database.
use my_tiny_im.Base.{
  ◌≡◌, ◌≢◌, refl, ap, true, false, not, ◌||◌, some, List, [], ◌∷◌, ◌++◌, map, All, inl, inr,
  Bool-cases, if◌then◌else◌,
}
use my_tiny_im.Base.Text.{Text, bytes, c_str}
use my_tiny_im.Base.Int.{
  ℤ, pos, int_eq, int_eq_self, IsInt64, to_string, stoll-to_string, c_str-to_string,
}
use my_tiny_im.Services.{
  write_db, read_db, db_opened, sql_query, chat_send, Row, sql_rows, History, Services, ok,
}
use my_tiny_im.Services.Mysql.{open_db, query, is_failed, insert_id, stoll_column, text_column}
use my_tiny_im.Chat.{status_ok}
use my_tiny_im.Relation.{send_chat, has_row, system_type}
use my_tiny_im.Relation.Friends.Requests.{read_rows-map}
use my_tiny_im.Relation.Groups.{
  CreateGroupReq, sql_group, sql_member, add_member, add_members, create_group, JoinGroupReq,
  joined, is_duplicate, sql_is_member, join_group, GroupInfo, sql_groups, read_group, groups_reply,
  get_group_list,
}

-- The initial members that are not the owner.
unfoldable pub others : ℤ → List ℤ → List ℤ
others owner_id [] = []
others owner_id (uid ∷ uids) =
    if int_eq uid owner_id then others owner_id uids else uid ∷ others owner_id uids

pub others-All : (owner_id : ℤ) (uids : List ℤ) → All (λ uid. uid ≢ owner_id) (others owner_id uids)
unfolding others
others-All owner_id [] = tt
others-All owner_id (uid ∷ uids) = elim (Bool-cases (int_eq uid owner_id)) [
  | inl e ↦ rw e (others-All owner_id uids)
  | inr e ↦ rw e (
    (λ k. absurd (cc (e, ap (λ x. int_eq x owner_id) k, int_eq_self owner_id))),
    others-All owner_id uids,
  )
]

module _ (sv : Services) where
  -- A statement that is executed on the master, whatever it gives.
  abbrev pub executed : Text → History → History
  executed sql h = sql_query write_db (c_str sql) (sv.mysql h write_db (c_str sql)) ∷ h

  -- One row with role 1 for each of some users, in order.
  unfoldable pub written : ℤ → List ℤ → History → History
  written group_id [] h = h
  written group_id (uid ∷ uids) h =
      written group_id uids (executed (sql_member group_id uid (pos 1)) h)

  add_members-written :
      (group_id owner_id : ℤ) (uids : List ℤ) (h : History)
      → add_members sv (record { kind = write_db; valid = true }) group_id owner_id uids h
        ≡ (ok tt, written group_id (others owner_id uids) h)
  unfolding add_members add_member written others query
  add_members-written group_id owner_id [] h = refl
  add_members-written group_id owner_id (uid ∷ uids) h = elim (Bool-cases (int_eq uid owner_id)) [
    | inl e ↦ rw e (add_members-written group_id owner_id uids h)
    | inr e ↦
        rw e (
          add_members-written group_id owner_id uids (executed (sql_member group_id uid (pos 1)) h))
  ]

  -- With a connection and the group's row stored, the owner is written once with role 2, and then
  -- each initial member that is not the owner with role 1, in the order of the request; the reply
  -- has the group's id whether or not those rows were stored.
  pub create_group_writes :
      (req : CreateGroupReq) (h : History)
      → sv.db_connect h write_db ≡ true
      → let opened = db_opened write_db true ∷ h in
        let sql = sql_group req.group_name req.owner_id in
        let answer = sv.mysql opened write_db (c_str sql) in
        is_failed answer ≡ false
        → (members : List ℤ) × (members ≡ others req.owner_id req.initial_members)
          × All (λ uid. uid ≢ req.owner_id) members
          × (create_group sv req h ≡ (
            ok (status_ok, record { group_id = insert_id answer; success = true }),
            written (insert_id answer) members (
                executed
                  (sql_member (insert_id answer) req.owner_id (pos 2))
                  (executed sql opened)),
          ))
  unfolding create_group open_db query
  create_group_writes req h w f = (
    others req.owner_id req.initial_members,
    refl,
    others-All req.owner_id req.initial_members,
    rw (w, f, add_members-written _ req.owner_id req.initial_members _),
  )

  -- With a connection, joining succeeds exactly if the user was a member, or the row was stored,
  -- or it failed as a duplicate; and the group is told, by one system message and nothing else
  -- after it, exactly if the row was stored now.
  pub join_group_told :
      (req : JoinGroupReq) (h : History)
      → sv.db_connect h write_db ≡ true
      → let opened = db_opened write_db true ∷ h in
        let found = sv.mysql opened write_db (c_str (sql_is_member req.group_id req.user_id)) in
        let looked = executed (sql_is_member req.group_id req.user_id) opened in
        let sql = sql_member req.group_id req.user_id (pos 1) in
        let answer = sv.mysql looked write_db (c_str sql) in
        ((join_group sv req h).0
          ≡ ok (
            status_ok,
            joined (has_row found || (not (is_failed answer) || is_duplicate answer)),
          ))
        × ((join_group sv req h).1 ≡ (
            if has_row found
            then looked
            else if is_failed answer
            then executed sql looked
            else chat_send req.user_id
                (pos 0)
                req.group_id
                system_type
                (bytes "User " ++ (to_string req.user_id ++ bytes " joined the group"))
              ∷ executed sql looked))
  unfolding join_group open_db query send_chat
  join_group_told req h w =
      let opened = db_opened write_db true ∷ h in
      let looked = executed (sql_is_member req.group_id req.user_id) opened in
      elim (Bool-cases
        (has_row (sv.mysql opened write_db (c_str (sql_is_member req.group_id req.user_id))))) [
          | inl p ↦ rw (w, p) (refl, refl)
          | inr p ↦
              elim (Bool-cases (
                is_failed (
                  sv.mysql looked write_db
                    (c_str (sql_member req.group_id req.user_id (pos 1)))))) [
                      | inl f ↦ rw (w, p, f) (refl, refl)
                      | inr f ↦ rw (w, p, f) (refl, refl)
                    ]
        ]

-- The row of a group, with a name that holds no NUL.
abbrev pub group_row : GroupInfo → Row
group_row g = some (to_string g.group_id) ∷ some g.group_name ∷ some (to_string g.owner_id) ∷ []

abbrev pub IsGroupRow : GroupInfo → Type 0
IsGroupRow g = IsInt64 g.group_id × IsInt64 g.owner_id × (c_str g.group_name ≡ g.group_name)

read_group-group_row : (g : GroupInfo) → IsGroupRow g → read_group (group_row g) ≡ ok g
unfolding read_group stoll_column text_column
read_group-group_row g (i, o, n) = rw (
  c_str-to_string g.group_id,
  stoll-to_string g.group_id i,
  c_str-to_string g.owner_id,
  stoll-to_string g.owner_id o,
  n,
)

-- On a connection that is there, the rows of some groups give the list of those groups, in the
-- order of the rows, after one query.
pub get_group_list_returns :
    (sv : Services) (user_id : ℤ) (h : History) (groups : List GroupInfo)
    → sv.db_connect h read_db ≡ true
    → sv.mysql (db_opened read_db true ∷ h) read_db (c_str (sql_groups user_id))
      ≡ sql_rows (map group_row groups)
    → All IsGroupRow groups
    → get_group_list sv user_id h ≡ (
      ok (status_ok, record { groups = groups; success = true }),
      sql_query read_db (c_str (sql_groups user_id)) (sql_rows (map group_row groups))
          ∷ db_opened read_db true
          ∷ h,
    )
unfolding get_group_list open_db query groups_reply
get_group_list_returns sv user_id h groups w a v =
    rw (w, a, read_rows-map read_group group_row IsGroupRow read_group-group_row groups v)
