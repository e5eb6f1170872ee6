-- ===== src/Dispatch/Server.antt =====
-- The dispatch server of src/dispatch/main.cpp before the auth server of
-- src/auth_server/auth_service_impl.cpp.
use my_tiny_im.Base.{ℕ, ◌≤◌, ◌≡◌, ◌≢◌, refl, ap, true, some, List, ◌∷◌, ◌++◌, All}
use my_tiny_im.Base.Text.{Text, bytes, c_str}
use my_tiny_im.Base.Int.{ℤ}
use my_tiny_im.Services.{
  read_db, db_opened, sql_query, login_sent, Row, sql_rows, History, Services, Outcome, ok, thrown,
  fault,
}
use my_tiny_im.Services.Mysql.{stoll_column, text_column}
use my_tiny_im.Json.{JsonLib}
use my_tiny_im.Chat.{Status, status_ok, internal}
use my_tiny_im.Auth.Account.{register, logout}
use my_tiny_im.Auth.Login.{LoginReq, device_or_pc, login_sql, login, token_of}
use my_tiny_im.Auth.Login.Query.{wrong_password_stops}
use my_tiny_im.Auth.Login.Session.{LoginCall, login_opens_session}
use my_tiny_im.Rpc.{AuthStub, Answer, failed, answered}
use my_tiny_im.Http.{Request, Reply, post, read_login}
use my_tiny_im.Registry.{contains_text, update_gateways}
use my_tiny_im.Registry.Cache.{update_gateways-All}
use my_tiny_im.Dispatch.{auth_addr, login_json, invalid_credentials, respond, process_request}
use my_tiny_im.Dispatch.Served.{Replies, login_served, login_refused}

-- What a client of gRPC sees of a handler: its status and reply, or a failure of the call where the
-- handler raises or the server dies.
abbrev pub seen : {A : Type 0} → Text → Outcome (Status × A) × History → Answer A
seen lost (ok (status_ok, r), h) = answered r
seen lost (ok (internal m, r), h) = failed m
seen lost (thrown, h) = failed lost
seen lost (fault, h) = failed lost

-- The auth server behind the stub, with its own services and what it has called so far.
abbrev pub served : Text → Services → History → AuthStub
served lost server hs = record {
  login = λ h address req. seen lost (login server req hs);
  register = λ h address req. seen lost (register server req hs);
  logout = λ h address req. seen lost (logout server req hs);
}

module _ (js : JsonLib) (config : js.Value) (lost : Text) (server : Services) (hs : History)
    (creds : LoginReq) (row : Row) (rows : List Row) (user_id : ℤ) where
  abbrev pub found : History
  found =
      sql_query read_db (c_str (login_sql creds.username)) (sql_rows (row ∷ rows))
      ∷ db_opened read_db true
      ∷ hs

  -- The auth server, with a connection, finds a user with a number and another password: the
  -- dispatch server answers 401 and asks nobody else.
  pub wrong_password_refused :
      (sv : Services) (gateways : List Text) (request : Request) (h : History)
      → request.verb ≡ post
      → request.target ≡ bytes "/api/login"
      → read_login js request.body ≡ some creds
      → server.db_connect hs read_db ≡ true
      → server.mysql (db_opened read_db true ∷ hs) read_db (c_str (login_sql creds.username))
        ≡ sql_rows (row ∷ rows)
      → stoll_column row 0 ≡ ok user_id
      → text_column row 2 ≢ creds.password
      → process_request js config (served lost server hs) sv gateways request h ≡ (
        ok (respond request invalid_credentials),
        login_sent (auth_addr js config) creds.username creds.password creds.device ∷ h,
      )
  wrong_password_refused sv gateways request h v t r w a i n =
      login_refused js config (served lost server hs) sv gateways request h creds _ v t r
        (ap (seen lost) (wrong_password_stops server creds hs row rows user_id w a i n)) refl

  -- The auth server, with a connection, finds the user with a number and with this password; the
  -- dispatch server has discovered a gateway, and its random choice is in its range. Then, with the
  -- JSON of this user, the nickname of the row, a discovered gateway and the token of this moment:
  -- if dump() writes it, the response has status 200 and that text; if dump() refuses it, the
  -- response has status 400. What the auth server has called since the query is, for this user and
  -- this device, HGET of the location and of the session's token, PUBLISH of a kick, HSET of that
  -- same token and EXPIRE of the session; and KEYS of "im:gateway:*" and GETs.
  pub right_password_served :
      (sv : Services) (g : Text) (gs : List Text) (request : Request) (h h0 h1 : History)
      → ((h' : History) (n : ℕ) → sv.pick h' n ≤ n)
      → request.verb ≡ post
      → request.target ≡ bytes "/api/login"
      → read_login js request.body ≡ some creds
      → server.db_connect hs read_db ≡ true
      → server.mysql (db_opened read_db true ∷ hs) read_db (c_str (login_sql creds.username))
        ≡ sql_rows (row ∷ rows)
      → stoll_column row 0 ≡ ok user_id
      → text_column row 2 ≡ creds.password
      → update_gateways sv h0 ≡ (ok (g ∷ gs), h1)
      → let token = token_of user_id (server.now found) in
        (gw : Text) × (reply : Reply) × (new : History) × (process_request js config
            (served lost server hs)
            sv
            (g ∷ gs)
            request
            h
          ≡ (
            ok (respond request reply),
            login_sent (auth_addr js config) creds.username creds.password creds.device ∷ h,
          ))
        × (contains_text gw (g ∷ gs) ≡ true)
        × Replies
            (js.dump (
              login_json js
                (record { token = token; user_id = user_id; nickname = text_column row 1 })
                gw))
            reply
        × ((login server creds hs).1 ≡ new ++ found)
        × All (LoginCall user_id (device_or_pc creds.device) token) new
  unfolding token_of bytes
  right_password_served sv g gs request h h0 h1 picks v t r w a i p u =
      let (new, result, calls) = login_opens_session server creds hs row rows user_id w a i p in
      let (gw, reply, response, listed, written) =
        login_served js config (served lost server hs) sv picks g gs request h creds _ v t
          (update_gateways-All sv h0 h1 (g ∷ gs) u) r (ap (seen lost) result) refl refl in
      (gw, reply, new, response, listed, written, ap (λ x. x.1) result, calls)
