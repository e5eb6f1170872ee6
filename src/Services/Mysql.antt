-- ===== src/Services/Mysql.antt =====
-- The MySQL client calls of the handlers: a DBConn, mysql_query with mysql_store_result, and the
-- reading of a row's columns.
use my_tiny_im.Base.{ℕ, Bool, true, false, Option, none, some, [], ◌∷◌, get_elem?, if◌then◌else◌}
use my_tiny_im.Base.Text.{Text, c_str}
use my_tiny_im.Base.Int.{ℤ, pos, stoll, stoi}
use my_tiny_im.Services.{
  DbKind, Row, SqlAnswer, sql_failed, sql_rows, sql_done, db_opened, sql_query, Services, Outcome,
  ok, thrown, fault, M,
}

-- A DBConn: its type, and whether it holds a connection.
pub record DbConn : Type 0 where
  pub kind : DbKind
  pub valid : Bool

module _ (sv : Services) where
  -- DBConn conn(type)
  unfoldable pub open_db : DbKind → M DbConn
  open_db kind h =
      let valid = sv.db_connect h kind in
      (ok (record { kind = kind; valid = valid }), db_opened kind valid ∷ h)

  -- mysql_query(conn.get(), sql.c_str()); a null connection is dereferenced.
  unfoldable pub query : DbConn → Text → M SqlAnswer
  query conn sql h =
      let answer = sv.mysql h conn.kind (c_str sql) in
      if conn.valid then (ok answer, sql_query conn.kind (c_str sql) answer ∷ h) else (fault, h)

-- Whether mysql_query returned other than 0.
abbrev pub is_failed : SqlAnswer → Bool
is_failed (sql_failed errno) = true
is_failed (sql_rows rows) = false
is_failed (sql_done id) = false

-- mysql_insert_id(conn), right behind the statement
abbrev pub insert_id : SqlAnswer → ℤ
insert_id (sql_failed errno) = pos 0
insert_id (sql_rows rows) = pos 0
insert_id (sql_done id) = id

-- row[i], a pointer that may be null
abbrev pub column : Row → ℕ → Option Text
column row i = elim (get_elem? row i) [ none ↦ none | some c ↦ c ]

abbrev parsed : Option ℤ → Outcome ℤ
parsed none = thrown
parsed (some x) = ok x

abbrev parsed_cell : Option Text → Outcome ℤ
parsed_cell none = fault
parsed_cell (some s) = parsed (stoll (c_str s))

-- std::stoll(row[i])
unfoldable pub stoll_column : Row → ℕ → Outcome ℤ
stoll_column row i = parsed_cell (column row i)

abbrev parsed_int : Option Text → Outcome ℤ
parsed_int none = fault
parsed_int (some s) = parsed (stoi (c_str s))

-- std::stoi(row[i])
unfoldable pub stoi_column : Row → ℕ → Outcome ℤ
stoi_column row i = parsed_int (column row i)

-- row[i] ? row[i] : ""
unfoldable pub text_column : Row → ℕ → Text
text_column row i = elim (column row i) [ none ↦ [] | some s ↦ c_str s ]
