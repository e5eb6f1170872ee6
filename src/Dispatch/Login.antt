-- ===== src/Dispatch/Login.antt =====
-- Login through the dispatch server, src/dispatch/main.cpp: what a reply with a token rests on.
use my_tiny_im.Base.{
  ℕ, ◌≤◌, ◌≡◌, refl, sym, ap, ◌∙◌, true, false, some, List, [], ◌∷◌, arith, Bool-cases,
  Option-cases, ◌⊎◌, inl, inr,
}
use my_tiny_im.Base.Text.{Text, bytes, is_empty}
use my_tiny_im.Services.{History, Services, Outcome, M, login_sent, ok, attempt, pure}
use my_tiny_im.Json.{JsonLib, Dump, dumped, undumped}
use my_tiny_im.Auth.Login.{LoginReq, LoginResp}
use my_tiny_im.Rpc.{AuthStub, Answer, failed, answered, call_login}
use my_tiny_im.Http.{Request, Response, Reply, post, is_options, read_login}
use my_tiny_im.Registry.{contains_text}
use my_tiny_im.Dispatch.Routes.{process_request-inv, route_login}
use my_tiny_im.Dispatch.{
  Granted, invalid_json, no_gateways, invalid_credentials, login_json, auth_addr, auth,
  offer_gateway, login_route, respond, process_request,
}
use my_tiny_im.Dispatch.Pick.{get_random_gateway-listed, get_random_gateway-nil}

Answer-cases :
    {A : Type 0} (a : Answer A) → ((m : Text) × (a ≡ failed m)) ⊎ ((r : A) × (a ≡ answered r))
Answer-cases (failed m) = inl (m, refl)
Answer-cases (answered r) = inr (r, refl)

pub Dump-cases : (d : Dump) → ((w : Text) × (d ≡ undumped w)) ⊎ ((s : Text) × (d ≡ dumped s))
Dump-cases (dumped s) = inr (s, refl)
Dump-cases (undumped w) = inl (w, refl)

module _ (js : JsonLib) (config : js.Value) (stub : AuthStub) where
  -- What a login that is let in rests on.
  pub record LetIn (gateways : List Text) (request : Text) (h : History) (body : Text)
      (later : History) : Type 0 where
    pub creds : LoginReq
    pub resp : LoginResp
    pub gateway : Text
    pub credentials_read : read_login js request ≡ some creds
    pub confirmed : stub.login h (auth_addr js config) creds ≡ answered resp
    pub succeeded : resp.success ≡ true
    pub has_token : is_empty resp.token ≡ false
    pub listed : contains_text gateway gateways ≡ true
    pub reachable : is_empty gateway ≡ false
    pub written :
        js.dump (
          login_json js
            (record { token = resp.token; user_id = resp.user_id; nickname = resp.nickname })
            gateway)
        ≡ dumped body
    pub called :
        later ≡ login_sent (auth_addr js config) creds.username creds.password creds.device ∷ h

  abbrev pub granted_of : LoginResp → Granted
  granted_of resp = record { token = resp.token; user_id = resp.user_id; nickname = resp.nickname }

module _ (js : JsonLib) (config : js.Value) (stub : AuthStub) (sv : Services)
    (picks : (h : History) (n : ℕ) → sv.pick h n ≤ n) where
  record IsOffer (gateways : List Text) (granted : Granted) (body : Text) : Type 0 where
    pub gateway : Text
    pub listed : contains_text gateway gateways ≡ true
    pub reachable : is_empty gateway ≡ false
    pub written : js.dump (login_json js granted gateway) ≡ dumped body

  offer_gateway-IsOffer :
      (gateways : List Text) (granted : Granted) (h later : History) (reply : Reply)
      → attempt (offer_gateway js sv gateways granted) (pure invalid_json) h ≡ (ok reply, later)
      → reply.0 ≡ 200
      → IsOffer gateways granted reply.1 × (later ≡ h)
  unfolding offer_gateway
  offer_gateway-IsOffer [] granted h later reply e z =
      let none_left : ◌≡◌ {A = Outcome Reply × History} (ok no_gateways, h) (ok reply, later) =
        rw (get_random_gateway-nil sv h) at e in
      ground arith
  offer_gateway-IsOffer (g ∷ gs) granted h later reply e z =
      let (gw, chosen, listed) = get_random_gateway-listed sv picks g gs h in
      elim (Bool-cases (is_empty gw)) [
        | inl n ↦
            let empty : ◌≡◌ {A = Outcome Reply × History} (ok no_gateways, h) (ok reply, later) =
              rw (chosen, n) at e in
            ground arith
        | inr y ↦ elim (Dump-cases (js.dump (login_json js granted gw))) [
          | inl (w, d) ↦
              let bad : ◌≡◌ {A = Outcome Reply × History} (ok invalid_json, h) (ok reply, later) =
                rw (chosen, y, d) at e in
              ground arith
          | inr (body, d) ↦
              let good : ◌≡◌ {A = Outcome Reply × History} (ok (200, body), h) (ok reply, later) =
                rw (chosen, y, d) at e in
              (
                record { gateway = gw; listed = listed; reachable = y; written = d ∙ ground arith },
                ground arith,
              )
        ]
      ]

  abbrev pub sent : LoginReq → History → History
  sent creds h = login_sent (auth_addr js config) creds.username creds.password creds.device ∷ h

  -- The rest of the route, once the auth server has answered the credentials.
  confirmed-LetIn :
      (gateways : List Text) (body : Text) (h later : History) (reply : Reply) (creds : LoginReq)
      (resp : LoginResp)
      → read_login js body ≡ some creds
      → stub.login h (auth_addr js config) creds ≡ answered resp
      → attempt (login_route js config stub sv gateways body) (pure invalid_json) h
        ≡ (ok reply, later)
      → reply.0 ≡ 200
      → LetIn js config stub gateways body h reply.1 later
  unfolding login_route auth call_login
  confirmed-LetIn gateways body h later reply creds resp c a e z = elim (Bool-cases resp.success) [
    | inr f ↦
        let refused : ◌≡◌ {A = Outcome Reply × History} (ok invalid_credentials, sent creds h)
            (ok reply, later) =
          rw (c, a, f) at e in
        absurd (ground arith)
    | inl t ↦ elim (Bool-cases (is_empty resp.token)) [
      | inl y ↦
          let refused : ◌≡◌ {A = Outcome Reply × History} (ok invalid_credentials, sent creds h)
              (ok reply, later) =
            rw (c, a, t, y) at e in
          absurd (ground arith)
      | inr y ↦
          let (offer, same) =
            offer_gateway-IsOffer gateways (granted_of js config stub resp) (sent creds h) later
              reply (rw (c, a, t, y) at e) z in
          record {
            creds = creds;
            resp = resp;
            gateway = offer.gateway;
            credentials_read = c;
            confirmed = a;
            succeeded = t;
            has_token = y;
            listed = offer.listed;
            reachable = offer.reachable;
            written = offer.written;
            called = same;
          }
    ]
  ]

  login_route-LetIn :
      (gateways : List Text) (body : Text) (h later : History) (reply : Reply)
      → attempt (login_route js config stub sv gateways body) (pure invalid_json) h
        ≡ (ok reply, later)
      → reply.0 ≡ 200
      → LetIn js config stub gateways body h reply.1 later
  unfolding login_route auth call_login
  login_route-LetIn gateways body h later reply e z = elim (Option-cases (read_login js body)) [
    | inl n ↦
        let bad : ◌≡◌ {A = Outcome Reply × History} (ok invalid_json, h) (ok reply, later) =
          rw n at e in
        absurd (ground arith)
    | inr (creds, c) ↦ elim (Answer-cases (stub.login h (auth_addr js config) creds)) [
      | inl (m, a) ↦
          let refused : ◌≡◌ {A = Outcome Reply × History} (ok invalid_credentials, sent creds h)
              (ok reply, later) =
            rw (c, a) at e in
          absurd (ground arith)
      | inr (resp, a) ↦ confirmed-LetIn gateways body h later reply creds resp c a e z
    ]
  ]

  -- A request to log in that is answered with status 200: its body has the credentials, the auth
  -- server was asked about exactly these, at the configured address and once, and confirmed them
  -- with a token that is not empty, and the body of the response is the JSON of that user, that
  -- token and a gateway of the list with an address that is not empty. The random choice is assumed
  -- to be in its range.
  pub login_needs_auth :
      (gateways : List Text) (request : Request) (h later : History) (res : Response)
      → request.verb ≡ post
      → request.target ≡ bytes "/api/login"
      → process_request js config stub sv gateways request h ≡ (ok res, later)
      → res.status ≡ 200
      → LetIn js config stub gateways request.body h res.body later
  unfolding respond
  login_needs_auth gateways request h later res v t e z =
      let not_options : is_options request.verb ≡ false = ap is_options v in
      let (reply, r, same) =
        process_request-inv js config stub sv gateways request h not_options e in
      let let_in =
        login_route-LetIn gateways request.body h later reply
          (ap (λ (m : M Reply). m h) (sym (route_login js config stub sv gateways request v t)) ∙ r)
          (ap (λ (x : Response). x.status) same ∙ z) in
      rw (sym (ap (λ (x : Response). x.body) same)) let_in
