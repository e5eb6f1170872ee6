-- ===== src/Dispatch/Served.antt =====
-- Logins through the dispatch server, src/dispatch/main.cpp, by what the auth server answers.
use my_tiny_im.Base.{ℕ, ◌≤◌, ◌≡◌, refl, ap, true, false, some, List, ◌∷◌, All, inl, inr}
use my_tiny_im.Base.Text.{Text, bytes, is_empty}
use my_tiny_im.Services.{History, Services, login_sent, ok}
use my_tiny_im.Json.{JsonLib, Dump, dumped, undumped}
use my_tiny_im.Auth.Login.{LoginReq, LoginResp}
use my_tiny_im.Rpc.{AuthStub, answered, call_login}
use my_tiny_im.Http.{Request, Reply, post, is_options, read_login}
use my_tiny_im.Registry.{contains_text}
use my_tiny_im.Dispatch.Routes.{route_login}
use my_tiny_im.Dispatch.{
  invalid_json, invalid_credentials, login_json, auth_addr, auth, offer_gateway, login_route,
  respond, process_request,
}
use my_tiny_im.Dispatch.Pick.{get_random_gateway-All}
use my_tiny_im.Dispatch.Login.{Dump-cases, sent, granted_of}

-- The reply for a JSON that dump() writes, or that it refuses.
abbrev pub Replies : Dump → Reply → Type 0
Replies (dumped body) reply = reply ≡ (200, body)
Replies (undumped why) reply = reply ≡ invalid_json

module _ (js : JsonLib) (config : js.Value) (stub : AuthStub) (sv : Services)
    (picks : (h : History) (n : ℕ) → sv.pick h n ≤ n) where
  -- A login that the auth server confirms with a token, where a gateway is there.
  pub login_served :
      (g : Text) (gs : List Text) (request : Request) (h : History) (creds : LoginReq)
      (resp : LoginResp)
      → request.verb ≡ post
      → request.target ≡ bytes "/api/login"
      → All (λ a. is_empty a ≡ false) (g ∷ gs)
      → read_login js request.body ≡ some creds
      → stub.login h (auth_addr js config) creds ≡ answered resp
      → resp.success ≡ true
      → is_empty resp.token ≡ false
      → (gw : Text) × (reply : Reply) × (process_request js config stub sv (g ∷ gs) request h
          ≡ (ok (respond request reply), sent js config stub sv picks creds h))
        × (contains_text gw (g ∷ gs) ≡ true)
        × Replies (js.dump (login_json js (granted_of js config stub resp) gw)) reply
  unfolding process_request login_route auth call_login offer_gateway
  login_served g gs request h creds resp v t a c r s n =
      let not_options : is_options request.verb ≡ false = ap is_options v in
      let (gw, chosen, listed, address) =
        get_random_gateway-All sv picks (λ a. is_empty a ≡ false) g gs
          (sent js config stub sv picks creds h) a in
      let route = route_login js config stub sv (g ∷ gs) request v t in
      elim (Dump-cases (js.dump (login_json js (granted_of js config stub resp) gw))) [
        | inl (why, refused) ↦ (
          gw,
          invalid_json,
          rw (not_options, route, c, r, s, n, chosen, address, refused) refl,
          listed,
          rw refused refl,
        )
        | inr (body, written) ↦ (
          gw,
          (200, body),
          rw (not_options, route, c, r, s, n, chosen, address, written) refl,
          listed,
          rw written refl,
        )
      ]

module _ (js : JsonLib) (config : js.Value) (stub : AuthStub) (sv : Services) where
  -- A login that the auth server does not confirm.
  pub login_refused :
      (gateways : List Text) (request : Request) (h : History) (creds : LoginReq) (resp : LoginResp)
      → request.verb ≡ post
      → request.target ≡ bytes "/api/login"
      → read_login js request.body ≡ some creds
      → stub.login h (auth_addr js config) creds ≡ answered resp
      → resp.success ≡ false
      → process_request js config stub sv gateways request h ≡ (
        ok (respond request invalid_credentials),
        login_sent (auth_addr js config) creds.username creds.password creds.device ∷ h,
      )
  unfolding process_request login_route auth call_login
  login_refused gateways request h creds resp v t c r s =
      let not_options : is_options request.verb ≡ false = ap is_options v in
      rw (not_options, route_login js config stub sv gateways request v t, c, r, s) refl
