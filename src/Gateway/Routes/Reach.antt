-- ===== src/Gateway/Routes/Reach.antt =====
-- Whom the routes of src/gateway/http_session.cpp call.
use my_tiny_im.Base.{◌≡◌, refl, Option, none, some, [], ◌∷◌, ◌++◌, All, ◌⊎◌, inl, inr}
use my_tiny_im.Base.Text.{Text, bytes}
use my_tiny_im.Services.{
  Event, register_sent, login_sent, logout_sent, redis_opened, redis_command, History, Services, ok,
  M, attempt,
}
use my_tiny_im.Services.Redis.{keys, get, hset}
use my_tiny_im.Services.Trace.{Adds, Emits, with_conn-Emits_of, emits_rules}
use my_tiny_im.Json.{JsonLib}
use my_tiny_im.Auth.Account.{RegisterReq, LogoutReq}
use my_tiny_im.Auth.Login.{LoginReq, LoginResp}
use my_tiny_im.Rpc.{AuthStub, Answer, failed, answered, call_login, call_register, call_logout}
use my_tiny_im.Http.{Request, Response}
use my_tiny_im.Registry.{Registry, discover}
use my_tiny_im.Registry.Reach.{discover-Emits}
use my_tiny_im.Gateway.Routes.{
  auth_server, open_login, login_answer, login_route, register_route, logout_route, route,
  handle_request, register_with, logout_with, login_with,
}

-- A call of the auth server, or a Redis command that stores a field or finds a gateway.
abbrev pub RouteCall : Event → Type 0
RouteCall (register_sent a u p n) = a ≡ auth_server
RouteCall (login_sent a u p d) = a ≡ auth_server
RouteCall (logout_sent a u t d) = a ≡ auth_server
RouteCall (redis_opened b) = Unit
RouteCall (redis_command [] reply) = ⊥
RouteCall (redis_command (cmd ∷ args) reply) =
    (cmd ≡ bytes "HSET") ⊎ ((cmd ≡ bytes "KEYS") ⊎ (cmd ≡ bytes "GET"))
RouteCall _ = ⊥

Adds-attempt :
    {A : Type 0} {P : Event → Type 0} (m k : M A) (h : History)
    → Adds P h (m h)
    → Adds P h (attempt m k h)
Adds-attempt m k h a = record {
  value = a.value;
  new = a.new;
  result = rw a.result refl;
  all = a.all;
}

Emits-attempt : {A : Type 0} {P : Event → Type 0} (m k : M A) → Emits P m → Emits P (attempt m k)
Emits-attempt m k e = record { at = λ h. Adds-attempt m k h (e.at h) }

module _ (sv : Services) where
  keys-Emits : (p : Text) → Emits RouteCall (keys sv p)
  unfolding keys
  keys-Emits p = with_conn-Emits_of sv _ _ _ (λ b. tt) (λ reply. inr (inl refl))

  get-Emits : (k : Text) → Emits RouteCall (get sv k)
  unfolding get
  get-Emits k = with_conn-Emits_of sv _ _ _ (λ b. tt) (λ reply. inr (inr refl))

  hset-Emits : (k f v : Text) → Emits RouteCall (hset sv k f v)
  unfolding hset
  hset-Emits k f v = with_conn-Emits_of sv _ _ _ (λ b. tt) (λ reply. inl refl)

  discover_calls : (s : Text) (r : Registry) → Emits RouteCall (discover sv s r)
  discover_calls = discover-Emits sv keys-Emits get-Emits

  open_login-Emits :
      (js : JsonLib) (device : Text) (resp : LoginResp) (r : Registry)
      → Emits RouteCall (open_login js sv device resp r)
  unfolding open_login
  open_login-Emits js device resp r =
      search (emits_rules, hset-Emits, discover_calls, Emits-attempt) depth 12

  login_answer-Emits :
      (js : JsonLib) (device : Text) (a : Answer LoginResp) (r : Registry)
      → Emits RouteCall (login_answer js sv device a r)
  unfolding login_answer
  login_answer-Emits js device (failed m) r = search emits_rules
  login_answer-Emits js device (answered resp) r = search (emits_rules, open_login-Emits)

module _ (js : JsonLib) (stub : AuthStub) (sv : Services) where
  call_login-Emits : (req : LoginReq) → Emits RouteCall (call_login stub auth_server req)
  unfolding call_login
  call_login-Emits req = record {
    at = λ h. record { value = _; new = _ ∷ []; result = refl; all = (refl, tt) };
  }

  call_register-Emits : (req : RegisterReq) → Emits RouteCall (call_register stub auth_server req)
  unfolding call_register
  call_register-Emits req = record {
    at = λ h. record { value = _; new = _ ∷ []; result = refl; all = (refl, tt) };
  }

  call_logout-Emits : (req : LogoutReq) → Emits RouteCall (call_logout stub auth_server req)
  unfolding call_logout
  call_logout-Emits req = record {
    at = λ h. record { value = _; new = _ ∷ []; result = refl; all = (refl, tt) };
  }

  register_with-Emits : (req : Option RegisterReq) → Emits RouteCall (register_with js stub req)
  register_with-Emits none = search emits_rules
  register_with-Emits (some req) = search (emits_rules, call_register-Emits)

  logout_with-Emits : (req : Option LogoutReq) → Emits RouteCall (logout_with js stub req)
  logout_with-Emits none = search emits_rules
  logout_with-Emits (some req) = search (emits_rules, call_logout-Emits)

  login_with-Emits :
      (req : Option LoginReq) (r : Registry) → Emits RouteCall (login_with js stub sv req r)
  login_with-Emits none r = search emits_rules
  login_with-Emits (some req) r =
      search (emits_rules, call_login-Emits, login_answer-Emits) depth 12

  route-Emits : (request : Request) (r : Registry) → Emits RouteCall (route js stub sv request r)
  unfolding route login_route register_route logout_route
  route-Emits request r =
      search (emits_rules, register_with-Emits, login_with-Emits, logout_with-Emits) depth 14

  handle_request-Emits :
      (request : Request) (r : Registry) → Emits RouteCall (handle_request js stub sv request r)
  unfolding handle_request
  handle_request-Emits request r = search (emits_rules, route-Emits) depth 12

  -- Every request that is not an upgrade gets one response, whatever the auth server, Redis and the
  -- JSON library answer, and for it the gateway calls only the auth server, at its fixed address,
  -- and HSET, KEYS and GET of Redis.
  pub handle_request_reaches :
      (request : Request) (r : Registry) (h : History)
      → (res : Response) × (r' : Registry) × (new : History) × (handle_request js stub sv request r
            h
          ≡ (ok (res, r'), new ++ h))
        × All RouteCall new
  handle_request_reaches request r h =
      let a = (handle_request-Emits request r).at h in
      (a.value.0, a.value.1, a.new, a.result, a.all)
