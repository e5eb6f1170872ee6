-- ===== src/Dispatch/Routes.antt =====
-- Which route of src/dispatch/main.cpp a request takes, and that each ends with one response.
use my_tiny_im.Base.{
  ℕ, ◌≡◌, refl, ap, true, false, ◌&&◌, Bool, List, [], ◌∷◌, Option-cases, Bool-cases, inl, inr, ◌⊎◌,
  arith, if◌then◌else◌,
}
use my_tiny_im.Base.Text.{Text, bytes, text_eq, text_eq_self, is_empty}
use my_tiny_im.Services.{
  History, Services, Outcome, ok, thrown, fault, M, after, pure, attempt, rescue,
}
use my_tiny_im.Json.{JsonLib}
use my_tiny_im.Rpc.{AuthStub, call_login, call_register, call_logout}
use my_tiny_im.Http.{Request, Response, Reply, post, read_login, is_post, is_get, is_options}
use my_tiny_im.Registry.{get_random_gateway}
use my_tiny_im.Dispatch.{
  invalid_json, login_route, logout_route, register_route, discover_route, route, respond,
  process_request, auth, logout, register_user, offer_gateway, Granted, no_gateways, discovered,
  discover_json, granted_by, auth_addr,
}

respond-inv :
    (request : Request) (r : Outcome Reply × History) {res : Response} {later : History}
    → after r (λ reply. pure (respond request reply)) ≡ (ok res, later)
    → (reply : Reply) × (r ≡ (ok reply, later)) × (respond request reply ≡ res)
respond-inv request (ok reply, h) e = (reply, ground arith, ground arith)
respond-inv request (thrown, h) e = absurd (ground arith)
respond-inv request (fault, h) e = absurd (ground arith)

module _ (js : JsonLib) (config : js.Value) (stub : AuthStub) (sv : Services) (gateways : List Text)
    (request : Request) where
  pub route_login :
      request.verb ≡ post
      → request.target ≡ bytes "/api/login"
      → route js config stub sv gateways request
        ≡ attempt (login_route js config stub sv gateways request.body) (pure invalid_json)
  unfolding route
  route_login v t =
      rw
        (
          ap is_post v,
          ap (λ s. text_eq s (bytes "/api/login")) t,
          text_eq_self (bytes "/api/login"),
        )
        refl

  pub route_logout :
      request.verb ≡ post
      → request.target ≡ bytes "/api/logout"
      → route js config stub sv gateways request
        ≡ attempt (logout_route js config stub request.body) (pure invalid_json)
  unfolding route bytes text_eq
  route_logout v t =
      rw
        (
          ap is_post v,
          ap (λ s. text_eq s (bytes "/api/login")) t,
          ap (λ s. text_eq s (bytes "/api/logout")) t,
        )
        refl

  -- A response of a route is that of its reply.
  pub process_request-inv :
      (h : History) {later : History} {res : Response}
      → is_options request.verb ≡ false
      → process_request js config stub sv gateways request h ≡ (ok res, later)
      → (reply : Reply) × (route js config stub sv gateways request h ≡ (ok reply, later))
        × (respond request reply ≡ res)
  unfolding process_request
  process_request-inv h n e = respond-inv request _ (rw n at e)

-- The statuses of the server's responses.
abbrev pub IsStatus : ℕ → Type 0
IsStatus s = (s ≡ 200) ⊎ (s ≡ 400) ⊎ (s ≡ 401) ⊎ (s ≡ 404) ⊎ (s ≡ 500) ⊎ (s ≡ 503)

-- A reply, or an exception.
abbrev IsDone : Outcome Reply × History → Type 0
IsDone (ok reply, h) = IsStatus reply.0
IsDone (thrown, h) = Unit
IsDone (fault, h) = ⊥

record Replies (r : Outcome Reply × History) : Type 0 where
  pub reply : Reply
  pub later : History
  pub result : r ≡ (ok reply, later)
  pub status : IsStatus reply.0

rescue-Replies : (r : Outcome Reply × History) → IsDone r → Replies (rescue r (pure invalid_json))
rescue-Replies (ok reply, h) d = record { reply = reply; later = h; result = refl; status = d }
rescue-Replies (thrown, h) d = record {
  reply = invalid_json;
  later = h;
  result = refl;
  status = ground arith;
}
rescue-Replies (fault, h) d = absurd d

if-quiet :
    (b : Bool) (m : M Reply) (h : History)
    → (reply : Reply) × (m h ≡ (ok reply, h))
    → (reply : Reply) × ((if b then m else pure (404, bytes "Not Found")) h ≡ (ok reply, h))
if-quiet true m h p = p
if-quiet false m h p = ((404, bytes "Not Found"), refl)

-- From every history.
record EndsWell (m : M Reply) : Type 0 where
  pub at : (h : History) → Replies (m h)

EndsWell-if : (b : Bool) (m n : M Reply) → EndsWell m → EndsWell n → EndsWell (if b then m else n)
EndsWell-if true m n p q = p
EndsWell-if false m n p q = q

EndsWell-attempt :
    (m : M Reply) → ((h : History) → IsDone (m h)) → EndsWell (attempt m (pure invalid_json))
EndsWell-attempt m d = record { at = λ h. rescue-Replies (m h) (d h) }

EndsWell-pure : (reply : Reply) → IsStatus reply.0 → EndsWell (pure reply)
EndsWell-pure reply d = record {
  at = λ h. record { reply = reply; later = h; result = refl; status = d };
}

module _ (js : JsonLib) (config : js.Value) (stub : AuthStub) (sv : Services) where
  logout_route-IsDone : (body : Text) (h : History) → IsDone (logout_route js config stub body h)
  unfolding logout_route logout call_logout
  logout_route-IsDone body h = ground arith

  register_route-IsDone :
      (body : Text) (h : History) → IsDone (register_route js config stub body h)
  unfolding register_route register_user call_register
  register_route-IsDone body h = ground arith

  get_random_gateway-quiet :
      (gateways : List Text) (h : History)
      → (gw : Text) × (get_random_gateway sv gateways h ≡ (ok gw, h))
  unfolding get_random_gateway
  get_random_gateway-quiet [] h = ([], refl)
  get_random_gateway-quiet (g ∷ gs) h = (_, refl)

  offer_gateway-IsDone :
      (gateways : List Text) (granted : Granted) (h : History)
      → IsDone (offer_gateway js sv gateways granted h)
  unfolding offer_gateway
  offer_gateway-IsDone gateways granted h =
      let (gw, e) = get_random_gateway-quiet gateways h in rw e (ground arith)

  login_route-IsDone :
      (gateways : List Text) (body : Text) (h : History)
      → IsDone (login_route js config stub sv gateways body h)
  unfolding login_route auth call_login
  login_route-IsDone gateways body h = elim (Option-cases (read_login js body)) [
    | inl e ↦ rw e tt
    | inr (req, e) ↦
        let granted = granted_by (stub.login h (auth_addr js config) req) in
        elim (Bool-cases (is_empty granted.token)) [
          | inl t ↦ rw (e, t) (ground arith)
          | inr t ↦ rw (e, t) (offer_gateway-IsDone gateways granted _)
        ]
  ]

  discover_route-quiet :
      (gateways : List Text) (h : History)
      → (reply : Reply) × (discover_route js sv gateways h ≡ (ok reply, h)) × IsStatus reply.0
  unfolding discover_route
  discover_route-quiet gateways h =
      let (gw, e) = get_random_gateway-quiet gateways h in
      elim (Bool-cases (is_empty gw)) [
        | inl t ↦ (no_gateways, rw (e, t) refl, ground arith)
        | inr t ↦ (discovered js (js.dump (discover_json js gw)), rw (e, t) refl, ground arith)
      ]

  discover_route-EndsWell : (gateways : List Text) → EndsWell (discover_route js sv gateways)
  discover_route-EndsWell gateways = record {
    at = λ h.
        let (reply, e, d) = discover_route-quiet gateways h in
        record { reply = reply; later = h; result = e; status = d };
  }

  not_found-EndsWell : EndsWell (pure (404, bytes "Not Found"))
  not_found-EndsWell = EndsWell-pure _ (ground arith)

  route-EndsWell :
      (gateways : List Text) (request : Request)
      → EndsWell (route js config stub sv gateways request)
  unfolding route
  route-EndsWell gateways request = search (
    EndsWell-if, EndsWell-attempt, login_route-IsDone, logout_route-IsDone, register_route-IsDone,
    discover_route-EndsWell, not_found-EndsWell,
  )

  -- Every request is answered by one response, whatever the auth server, Redis and the JSON library
  -- give: its status is 200, 400, 401, 404, 500 or 503, it keeps the request's version and
  -- keep-alive, and its length is set.
  pub process_request_answers :
      (gateways : List Text) (request : Request) (h : History)
      → (res : Response) × (later : History) × (process_request js config stub sv gateways request h
          ≡ (ok res, later))
        × IsStatus res.status
        × (res.version ≡ request.version)
        × (res.keep_alive ≡ request.keep_alive)
        × (res.prepared ≡ true)
  unfolding process_request respond
  process_request_answers gateways request h = elim (Bool-cases (is_options request.verb)) [
    | inl e ↦ (respond request (200, []), h, rw e refl, inl refl, refl, refl, refl)
    | inr e ↦
        let r = (route-EndsWell gateways request).at h in
        (respond request r.reply, r.later, rw (e, r.result) refl, r.status, refl, refl, refl)
  ]

  -- Only a POST to one of three targets calls another server: any other request is answered with no
  -- call at all.
  pub process_request_quiet :
      (gateways : List Text) (request : Request) (h : History)
      → (is_post request.verb ≡ false)
        ⊎ ((text_eq request.target (bytes "/api/login") ≡ false)
            × (text_eq request.target (bytes "/api/logout") ≡ false)
            × (text_eq request.target (bytes "/api/register") ≡ false))
      → (res : Response) × (process_request js config stub sv gateways request h ≡ (ok res, h))
  unfolding process_request route respond
  process_request_quiet gateways request h c = elim (Bool-cases (is_options request.verb)) [
    | inl o ↦ (respond request (200, []), rw o refl)
    | inr o ↦
        let found = discover_route-quiet gateways h in
        let (reply, e) =
          if-quiet (is_get request.verb && text_eq request.target (bytes "/api/discover/chat"))
            (discover_route js sv gateways) h (found.0, found.1) in
        elim c [
          | inl p ↦ (respond request reply, rw (o, p, e) refl)
          | inr (l, m, n) ↦ elim (Bool-cases (is_post request.verb)) [
            | inl p ↦ (respond request reply, rw (o, p, l, m, n, e) refl)
            | inr p ↦ (respond request reply, rw (o, p, e) refl)
          ]
        ]
  ]
