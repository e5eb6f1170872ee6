-- ===== src/Gateway/Routes/Session.antt =====
-- From a login at a gateway to the session of a WebSocket: src/gateway/http_session.cpp, with the
-- service registry of src/common/service_registry.cpp.
use my_tiny_im.Base.{◌≡◌, refl, ap, ◌∙◌, Bool, true, false, some, [], ◌∷◌, ◌++◌, All, if◌then◌else◌}
use my_tiny_im.Base.Text.{Text, bytes, c_str, is_empty, text_eq, text_eq_self}
use my_tiny_im.Base.Int.{ℤ, is_positive, IsInt64}
use my_tiny_im.Services.{
  login_sent, redis_opened, redis_command, RedisReply, integer_reply, string_reply, History,
  Services, ok, pure,
}
use my_tiny_im.Services.Redis.{with_conn, hset, hget}
use my_tiny_im.Services.Trace.{Emits}
use my_tiny_im.Services.Memory.{
  last_stored, Remembers, IsRead, Spares, last_stored-spared, All-Spares,
}
use my_tiny_im.Json.{JsonLib}
use my_tiny_im.Auth.Account.{session_key}
use my_tiny_im.Auth.Login.{LoginReq, LoginResp}
use my_tiny_im.Rpc.{AuthStub, answered, call_login}
use my_tiny_im.Http.{Request, Response, post, dump_text, read_login}
use my_tiny_im.Registry.{Registry, discover}
use my_tiny_im.Registry.Reach.{discover-Emits}
use my_tiny_im.Registry.Keys.{keys-Emits, get-Emits}
use my_tiny_im.Gateway.Upgrade.{upgrade, check_token}
use my_tiny_im.Gateway.Upgrade.Query.{LacksByte, target_of, parse_target-target_of}
use my_tiny_im.Gateway.Routes.Calls.{handle_request_login}
use my_tiny_im.Gateway.Routes.{
  auth_server, failure_json, login_url, written, logged_in_json, open_login, login_answer,
  login_route, respond, handle_request,
}

module _ (sv : Services) where
  -- Discovery writes nothing.
  discover_reads : (s : Text) (r : Registry) → Emits IsRead (discover sv s r)
  discover_reads = discover-Emits sv (keys-Emits sv) (get-Emits sv)

module _ (sv : Services) (memory : Remembers sv) where
  abbrev stored : Text → Text → Text → RedisReply → History → History
  stored key field value reply h =
      redis_command (bytes "HSET" ∷ c_str key ∷ c_str field ∷ c_str value ∷ []) (some reply)
      ∷ redis_opened true
      ∷ h

  pub hset-stores :
      (key field value : Text) (h : History)
      → (later : History) × (hset sv key field value h ≡ (ok true, later))
        × (last_stored (c_str key) (c_str field) later ≡ some (c_str value))
  unfolding hset with_conn last_stored
  hset-stores key field value h =
      let (n, e) =
        memory.hset_done (redis_opened true ∷ h) (c_str key) (c_str field) (c_str value) in
      (
        stored key field value (integer_reply n) h,
        rw (memory.connects h, e) refl,
        rw (text_eq_self (c_str key), text_eq_self (c_str field)) (unfold bytes text_eq in refl),
      )

  -- The token is what Redis holds when the reply is made.
  open_login-stores :
      (js : JsonLib) (device : Text) (resp : LoginResp) (r : Registry) (h : History)
      → (url : Text) × (r' : Registry) × (later : History) × (open_login js sv device resp r h
          ≡ (ok (logged_in_json js resp url, r'), later))
        × (last_stored (c_str (session_key resp.user_id)) (c_str device) later
            ≡ some (c_str resp.token))
  unfolding open_login
  open_login-stores js device resp r h =
      let (h1, e, s) = hset-stores (session_key resp.user_id) device resp.token h in
      let d = (discover_reads sv (bytes "gateway") r).at h1 in
      (
        login_url d.value.0,
        d.value.1,
        d.new ++ h1,
        rw (e, d.result) refl,
        last_stored-spared (c_str (session_key resp.user_id)) (c_str device) d.new h1
              (All-Spares (c_str (session_key resp.user_id)) (c_str device) d.new d.all)
            ∙ s,
      )

  hget-gives :
      (key field value : Text) (h : History)
      → last_stored (c_str key) (c_str field) h ≡ some value
      → (later : History) × (hget sv key field h ≡ (ok (c_str value), later))
  unfolding hget with_conn last_stored
  hget-gives key field value h e = (
    redis_command (bytes "HGET" ∷ c_str key ∷ c_str field ∷ []) (some (string_reply value))
        ∷ redis_opened true
        ∷ h,
    rw
        (
          memory.connects h,
          memory.hget_gives (redis_opened true ∷ h) (c_str key) (c_str field) value e,
        )
        refl,
  )

  pub upgrade-admits :
      (token : Text) (user_id : ℤ) (device : Text) (h : History)
      → is_positive user_id ≡ true
      → IsInt64 user_id
      → is_empty token ≡ false
      → c_str token ≡ token
      → LacksByte b'&' token
      → LacksByte b'&' device
      → last_stored (c_str (session_key user_id)) (c_str device) h ≡ some (c_str token)
      → (later : History) × (upgrade sv (target_of token user_id device) h
          ≡ (ok (user_id, device), later))
  unfolding upgrade check_token
  upgrade-admits token user_id device h p i n c t d s =
      let (later, e) = hget-gives (session_key user_id) device (c_str token) h s in
      (
        later,
        rw (parse_target-target_of token user_id device t d i, p, n, e, c, c, text_eq_self token)
            refl,
      )

login_answer-confirmed :
    (js : JsonLib) (sv : Services) (device : Text) (resp : LoginResp) (r : Registry)
    → resp.success ≡ true
    → login_answer js sv device (answered resp) r ≡ open_login js sv device resp r
unfolding login_answer
login_answer-confirmed js sv device resp r s =
    ap
      (λ (b : Bool).
        if b then open_login js sv device resp r else pure (failure_json js resp.error_message, r))
      s

-- A login at a gateway that the auth server confirms, and then a WebSocket with the user's number,
-- the token and the device of that login, in the form of target that the code documents: if Redis
-- does its HSETs and answers HGET with what was stored, then the login is answered, and after it,
-- and after any further calls whose Redis commands are reads, HSETs of other keys or fields, or
-- EXPIREs of a day, the WebSocket is a session of that user on that device. The number is positive and fits 64 bits, and
-- the token is not empty and has no NUL; token and device have no ampersand.
pub login_then_upgrade :
    (js : JsonLib) (stub : AuthStub) (sv : Services) (request : Request) (r : Registry)
    (h : History) (creds : LoginReq) (resp : LoginResp) (between : History)
    → Remembers sv
    → request.verb ≡ post
    → request.target ≡ bytes "/api/login"
    → read_login js request.body ≡ some creds
    → stub.login h auth_server creds ≡ answered resp
    → resp.success ≡ true
    → is_positive resp.user_id ≡ true
    → IsInt64 resp.user_id
    → is_empty resp.token ≡ false
    → c_str resp.token ≡ resp.token
    → LacksByte b'&' resp.token
    → LacksByte b'&' creds.device
    → All (Spares (c_str (session_key resp.user_id)) (c_str creds.device)) between
    → (res : Response) × (r' : Registry) × (later end : History) × (handle_request js stub sv
          request r h
        ≡ (ok (res, r'), later))
      × (upgrade sv (target_of resp.token resp.user_id creds.device) (between ++ later)
          ≡ (ok (resp.user_id, creds.device), end))
unfolding login_route call_login
login_then_upgrade js stub sv request r h creds resp between memory v t c a s p i n z td dd b =
    let sent = login_sent auth_server creds.username creds.password creds.device ∷ h in
    let (url, r', later, opened, holds) = open_login-stores sv memory js creds.device resp r sent in
    let still =
      last_stored-spared (c_str (session_key resp.user_id)) (c_str creds.device) between later b
      ∙ holds in
    let (end, admitted) =
      upgrade-admits sv memory resp.token resp.user_id creds.device (between ++ later) p i n z td dd
        still in
    let reply = written (dump_text (js.dump (logged_in_json js resp url))) in
    (
      respond request true reply,
      r',
      later,
      end,
      rw
          (
            handle_request_login js stub sv request r h v t,
            c,
            a,
            login_answer-confirmed js sv creds.device resp r s,
            opened,
          )
          refl,
      admitted,
    )
