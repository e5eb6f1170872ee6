-- ===== src/Admission.antt =====
-- From a login at the auth server, src/auth_server/auth_service_impl.cpp, to the WebSocket of a
-- gateway, src/gateway/http_session.cpp: both look at the same Redis.
use my_tiny_im.Base.{◌≡◌, refl, ap, ◌∙◌, true, false, not, some, List, [], ◌∷◌, ◌++◌, All, arith}
use my_tiny_im.Base.Text.{Text, bytes, c_str, is_empty, text_eq, text_eq_self, c_str-append}
use my_tiny_im.Base.Int.{
  ℤ, pos, to_string, print_nat, is_positive, IsInt64, c_str-to_string, to_string-All-ne_below,
}
use my_tiny_im.Services.{read_db, db_opened, sql_query, Row, sql_rows, History, Services, ok}
use my_tiny_im.Services.Mysql.{open_db, query, stoll_column, text_column}
use my_tiny_im.Services.Redis.{expire}
use my_tiny_im.Services.Trace.{Emits, with_conn-Emits_of, emits_rules}
use my_tiny_im.Services.Memory.{
  last_stored, Remembers, IsRead, Spares, last_stored-spared, All-Spares,
}
use my_tiny_im.Chat.{status_ok}
use my_tiny_im.Auth.Account.{session_key}
use my_tiny_im.Auth.Login.{
  LoginReq, device_or_pc, login_sql, token_of, look_for_gateway, choose, session_calls,
  open_session, check_row, check_answer, login,
}
use my_tiny_im.Auth.Login.Session.{hget_location-Emits, hget_token-Emits, kick_if-Emits}
use my_tiny_im.Registry.Keys.{keys-Emits, get-Emits}
use my_tiny_im.Gateway.Upgrade.{upgrade}
use my_tiny_im.Gateway.Upgrade.Query.{LacksByte, target_of, LacksByte-append}
use my_tiny_im.Gateway.Routes.Session.{hset-stores, upgrade-admits}

token_of-plain : (user_id now : ℤ) → c_str (token_of user_id now) ≡ token_of user_id now
unfolding token_of
token_of-plain user_id now =
    let tail : c_str (bytes "_" ++ to_string now) ≡ bytes "_" ++ to_string now =
      unfold bytes c_str in ap (λ t. b'_' ∷ t) (c_str-to_string now) in
    let number =
      c_str-append (to_string user_id) (bytes "_" ++ to_string now) (c_str-to_string user_id)
      ∙ ap (λ t. to_string user_id ++ t) tail in
    unfold bytes c_str in ap (λ t. bytes "token_" ++ t) number

token_of-lacks : (user_id now : ℤ) → LacksByte b'&' (token_of user_id now)
unfolding token_of bytes
token_of-lacks user_id now =
    LacksByte-append b'&' (bytes "token_") (to_string user_id ++ (bytes "_" ++ to_string now))
      (omega arith, (omega arith, (omega arith, (omega arith, (omega arith, (omega arith, tt))))))
      (LacksByte-append b'&' (to_string user_id) (bytes "_" ++ to_string now)
        (to_string-All-ne_below user_id b'&' (omega arith))
        (omega arith, to_string-All-ne_below now b'&' (omega arith)))

token_of-ne_nil : (user_id now : ℤ) → is_empty (token_of user_id now) ≡ false
unfolding token_of bytes
token_of-ne_nil user_id now = refl

module _ (sv : Services) where
  expire_lasts : (key field k : Text) → Emits (Spares key field) (expire sv k (pos 86400))
  unfolding expire bytes text_eq to_string print_nat
  expire_lasts key field k = with_conn-Emits_of sv _ _ _ (λ b. tt) (λ reply. refl)

  choose_reads : (xs : List Text) → Emits IsRead (choose sv xs)
  unfolding choose
  choose_reads xs = record { at = λ h. record { value = _; new = []; result = refl; all = tt } }

  look_for_gateway_reads : Emits IsRead (look_for_gateway sv)
  unfolding look_for_gateway
  look_for_gateway_reads = search (emits_rules, keys-Emits, choose_reads, get-Emits) depth 12

  module _ (memory : Remembers sv) (user_id : ℤ) (device token : Text) where
    session_calls-stores :
        (h : History)
        → (later : History) × (session_calls sv user_id device token h ≡ (ok tt, later))
          × (last_stored (c_str (session_key user_id)) (c_str device) later ≡ some (c_str token))
    unfolding session_calls
    session_calls-stores h =
        let key = c_str (session_key user_id) in
        let field = c_str device in
        let a = (hget_location-Emits sv user_id device token).at h in
        let b = (kick_if-Emits sv user_id device token (not (is_empty a.value))).at (a.new ++ h) in
        let c = (hget_token-Emits sv user_id device token).at (b.new ++ (a.new ++ h)) in
        let d =
          (kick_if-Emits sv user_id device token (not (is_empty c.value))).at
            (c.new ++ (b.new ++ (a.new ++ h))) in
        let (h1, e, s) =
          hset-stores sv memory (session_key user_id) device token
            (d.new ++ (c.new ++ (b.new ++ (a.new ++ h)))) in
        let x = (expire_lasts key field (session_key user_id)).at h1 in
        let y = look_for_gateway_reads.at (x.new ++ h1) in
        (
          y.new ++ (x.new ++ h1),
          rw (a.result, b.result, c.result, d.result, e, x.result, y.result) refl,
          last_stored-spared key field y.new (x.new ++ h1) (All-Spares key field y.new y.all)
              ∙ last_stored-spared key field x.new h1 x.all
              ∙ s,
        )

-- A login at the auth server with the right password, of a user whose number is positive and fits
-- 64 bits, on a device without an ampersand, and then a WebSocket at a gateway with that number, the
-- token of the reply and that device: if Redis does its HSETs and answers HGET with what was stored,
-- then the login is answered with success, and after it, and after any further calls whose Redis
-- commands are reads, HSETs of other keys or fields, or EXPIREs of a day, the WebSocket is a session
-- of that user on that device.
pub login_is_admitted :
    (sv : Services) (req : LoginReq) (h : History) (row : Row) (rows : List Row) (user_id : ℤ)
    (between : History)
    → Remembers sv
    → sv.db_connect h read_db ≡ true
    → sv.mysql (db_opened read_db true ∷ h) read_db (c_str (login_sql req.username))
      ≡ sql_rows (row ∷ rows)
    → stoll_column row 0 ≡ ok user_id
    → text_column row 2 ≡ req.password
    → is_positive user_id ≡ true
    → IsInt64 user_id
    → LacksByte b'&' (device_or_pc req.device)
    → All (Spares (c_str (session_key user_id)) (c_str (device_or_pc req.device))) between
    → (token : Text) × (later end : History) × (login sv req h ≡ (
      ok (
        status_ok,
        record {
          user_id = user_id;
          token = token;
          nickname = text_column row 1;
          success = true;
          error_message = [];
        },
      ),
      later,
    ))
      × (upgrade sv (target_of token user_id (device_or_pc req.device)) (between ++ later)
          ≡ (ok (user_id, device_or_pc req.device), end))
unfolding login check_answer check_row open_db query open_session
login_is_admitted sv req h row rows user_id between memory w a i p positive n dd b =
    let found : History =
      sql_query read_db (c_str (login_sql req.username)) (sql_rows (row ∷ rows))
      ∷ db_opened read_db true
      ∷ h in
    let device = device_or_pc req.device in
    let now = sv.now found in
    let token = token_of user_id now in
    let (later, calls, stored) = session_calls-stores sv memory user_id device token found in
    let still =
      last_stored-spared (c_str (session_key user_id)) (c_str device) between later b ∙ stored in
    let (end, admitted) =
      upgrade-admits sv memory token user_id device (between ++ later) positive n
        (token_of-ne_nil user_id now) (token_of-plain user_id now) (token_of-lacks user_id now) dd
        still in
    (token, later, end, rw (w, a, i, p, text_eq_self req.password, calls), admitted)
