-- ===== src/Auth/Login/Query.antt =====
-- `Login` of src/auth_server/auth_service_impl.cpp up to the password.
use my_tiny_im.Base.{
  ℕ, zero, suc, ◌+◌, ◌≤◌, ◌≡◌, ◌≢◌, refl, ap, ◌↔◌, true, List, [], ◌∷◌, ◌++◌, length, length-append,
  take, arith,
}
use my_tiny_im.Base.Text.{Text, bytes, c_str, text_eq_ne}
use my_tiny_im.Base.Int.{ℤ}
use my_tiny_im.Services.{read_db, db_opened, sql_query, Row, sql_rows, History, Services, ok}
use my_tiny_im.Services.Mysql.{open_db, query, stoll_column, text_column}
use my_tiny_im.Chat.{status_ok}
use my_tiny_im.Auth.Login.{
  LoginReq, rejected, sql_prefix, login_statement, login_sql, check_row, check_answer, login,
}

length-sql_prefix : length sql_prefix ≡ 69
unfolding sql_prefix bytes
length-sql_prefix = refl

take-all : (xs : Text) (n : ℕ) → length xs ≤ n → take n xs ≡ xs
take-all [] zero h = refl
take-all [] (suc n) h = refl
take-all (x ∷ xs) zero h = absurd (omega arith)
take-all (x ∷ xs) (suc n) h = ap (◌∷◌ x) (take-all xs n (omega arith))

length-take_le : (xs : Text) (n : ℕ) → length (take n xs) ≤ n
length-take_le [] zero = omega arith
length-take_le [] (suc n) = omega arith
length-take_le (x ∷ xs) zero = omega arith
length-take_le (x ∷ xs) (suc n) = omega (arith, length-take_le xs n)

length-login_statement : (u : Text) → length (login_statement u) ≡ 70 + length (c_str u)
unfolding login_statement
length-login_statement u = omega (
  arith,
  length-append sql_prefix (c_str u ++ b'\'' ∷ []),
  length-append (c_str u) (b'\'' ∷ []),
  length-sql_prefix,
)

-- The statement in the buffer is the one that is meant, its closing quote included, exactly if the
-- user name has at most 185 bytes.
pub login_sql-fits :
    (username : Text)
    → (login_sql username ≡ login_statement username) ↔ (length (c_str username) ≤ 185)
unfolding login_sql
login_sql-fits u = (
  (λ e.
      omega (arith, length-login_statement u, length-take_le (login_statement u) 255, ap length e)),
  λ h. take-all (login_statement u) 255 (omega (arith, length-login_statement u)),
)

-- With a connection, a wrong password for a user whose row has a number is refused, and the query
-- is the last call: no device is kicked and no token is stored.
pub wrong_password_stops :
    (sv : Services) (req : LoginReq) (h : History) (row : Row) (rows : List Row) (user_id : ℤ)
    → sv.db_connect h read_db ≡ true
    → sv.mysql (db_opened read_db true ∷ h) read_db (c_str (login_sql req.username))
      ≡ sql_rows (row ∷ rows)
    → stoll_column row 0 ≡ ok user_id
    → text_column row 2 ≢ req.password
    → login sv req h ≡ (
      ok (status_ok, rejected (bytes "Invalid password")),
      sql_query read_db (c_str (login_sql req.username)) (sql_rows (row ∷ rows))
          ∷ db_opened read_db true
          ∷ h,
    )
unfolding login check_answer check_row open_db query
wrong_password_stops sv req h row rows user_id w a i n =
    rw (w, a, i, text_eq_ne (text_column row 2) req.password n)
