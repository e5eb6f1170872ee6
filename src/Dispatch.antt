-- ===== src/Dispatch.antt =====
-- The dispatch server, src/dispatch/main.cpp: the calls of the auth server, the routes, and the
-- response to each request. The list of gateways is the one that service discovery has at that
-- moment (Registry.update_gateways), and the configuration is as it was loaded.
pub mod Routes
pub mod Pick
pub mod Login
pub mod Served
pub mod Server
pub mod Logout
pub mod Connection
use my_tiny_im.Base.{
  ℕ, Bool, true, false, ◌&&◌, Option, none, some, List, [], ◌∷◌, ◌++◌, if◌then◌else◌,
}
use my_tiny_im.Base.Text.{Text, bytes, is_empty, text_eq}
use my_tiny_im.Base.Int.{ℤ, pos, is_positive}
use my_tiny_im.Services.{
  Services, Outcome, ok, thrown, M, ◌>>=◌, ◌>>◌, pure, lift, or_throw, attempt,
}
use my_tiny_im.Json.{JsonLib, Dump, dumped, undumped}
use my_tiny_im.Config.{get_string}
use my_tiny_im.Auth.Account.{RegisterReq, RegisterResp, LogoutReq}
use my_tiny_im.Auth.Login.{LoginReq, LoginResp}
use my_tiny_im.Rpc.{AuthStub, Answer, failed, answered, call_login, call_register, call_logout}
use my_tiny_im.Http.{
  Request, Response, Reply, is_get, is_post, is_options, dump_text, read_login, read_register,
}
use my_tiny_im.Registry.{get_random_gateway}

-- What Auth gives: the token, and the user_id and the nickname that it sets.
pub record Granted : Type 0 where
  pub token : Text
  pub user_id : ℤ
  pub nickname : Text

abbrev pub nobody : Granted
nobody = record { token = []; user_id = pos 0; nickname = [] }

-- status.ok() && resp.success()
abbrev pub granted_by : Answer LoginResp → Granted
granted_by (failed message) = nobody
granted_by (answered resp) =
    if resp.success
    then record { token = resp.token; user_id = resp.user_id; nickname = resp.nickname }
    else nobody

abbrev is_success : Answer Bool → Bool
is_success (failed message) = false
is_success (answered success) = success

abbrev is_registered : Answer RegisterResp → Bool
is_registered (failed message) = false
is_registered (answered resp) = resp.success

abbrev pub gateway_url : Text → Text
gateway_url gw = bytes "ws://" ++ (gw ++ bytes "/ws")

abbrev pub invalid_json : Reply
invalid_json = (400, bytes "Invalid JSON")

abbrev pub no_gateways : Reply
no_gateways = (503, bytes "{\"error\": \"No gateways available\"}")

abbrev pub invalid_credentials : Reply
invalid_credentials = (401, bytes "{\"error\": \"Invalid credentials\"}")

abbrev pub logged_out : Reply
logged_out = (200, bytes "{\"code\": 0, \"msg\": \"Logged out\"}")

abbrev ok_reply : Text → Reply
ok_reply body = (200, body)

unfoldable pub respond : Request → Reply → Response
respond req reply = record {
  status = reply.0;
  version = req.version;
  keep_alive = req.keep_alive;
  server = bytes "TinyIM Dispatch";
  body = reply.1;
  prepared = true;
}

module _ (js : JsonLib) where
  unfoldable pub login_json : Granted → Text → js.Value
  login_json granted gw = js.object (
      (bytes "code", js.number (pos 0))
      ∷ (
        bytes "data",
        js.object (
            (bytes "user_id", js.number granted.user_id)
            ∷ (bytes "token", js.text granted.token)
            ∷ (bytes "nickname", js.text granted.nickname)
            ∷ (bytes "gateway_url", js.text (gateway_url gw))
            ∷ []),
      )
      ∷ [])

  unfoldable pub discover_json : Text → js.Value
  discover_json gw = js.object (
      (bytes "code", js.number (pos 0))
      ∷ (bytes "data", js.object ((bytes "gateway_url", js.text (gateway_url gw)) ∷ []))
      ∷ [])

  -- The reply of /api/discover/chat: an exception of dump() gives its message.
  abbrev pub discovered : Dump → Reply
  discovered (dumped body) = (200, body)
  discovered (undumped what) = (500, bytes "{\"error\": \"" ++ (what ++ bytes "\"}"))

  -- The user's id and the device of a logout.
  abbrev logout_of : Option ℤ → Option Text → Option LogoutReq
  logout_of (some uid) (some dev) = some (record { user_id = uid; token = []; device = dev })
  logout_of _ _ = none

  abbrev logout_from : Option js.Value → Option LogoutReq
  logout_from none = none
  logout_from (some json) =
      logout_of (js.value_int json (bytes "user_id") (pos 0))
        (js.value_string json (bytes "device") [])

  unfoldable pub read_logout : Text → Option LogoutReq
  read_logout body = logout_from (js.parse body)

  module _ (sv : Services) where
    -- With a token.
    unfoldable pub offer_gateway : List Text → Granted → M Reply
    offer_gateway gateways granted = do
      gw ← get_random_gateway sv gateways
      if is_empty gw then pure no_gateways else (do
        body ← lift (or_throw (dump_text (js.dump (login_json granted gw))))
        pure (ok_reply body))

    unfoldable pub discover_route : List Text → M Reply
    discover_route gateways = do
      gw ← get_random_gateway sv gateways
      if is_empty gw then pure no_gateways else pure (discovered (js.dump (discover_json gw)))

  module _ (config : js.Value) where
    unfoldable pub auth_addr : Text
    auth_addr = get_string js config (bytes "auth_service.addr") (bytes "127.0.0.1:50051")

    module _ (stub : AuthStub) where
      unfoldable pub auth : LoginReq → M Granted
      auth req = do answer ← call_login stub auth_addr req; pure (granted_by answer)

      unfoldable pub logout : LogoutReq → M Bool
      logout req = do answer ← call_logout stub auth_addr req; pure (is_success answer)

      unfoldable pub register_user : RegisterReq → M Bool
      register_user req = do answer ← call_register stub auth_addr req; pure (is_registered answer)

      unfoldable pub logout_route : Text → M Reply
      logout_route body = do
        req ← lift (or_throw (read_logout body))
        if is_positive req.user_id then (do logout req; pure logged_out) else pure logged_out

      unfoldable pub register_route : Text → M Reply
      register_route body = do
        req ← lift (or_throw (read_register js body))
        registered ← register_user req
        if registered
            then pure (ok_reply (bytes "{\"code\": 0, \"msg\": \"Registered\"}"))
            else pure (ok_reply (bytes "{\"code\": 1, \"msg\": \"Register Failed\"}"))

      module _ (sv : Services) where
        unfoldable pub login_route : List Text → Text → M Reply
        login_route gateways body = do
          req ← lift (or_throw (read_login js body))
          granted ← auth req
          if is_empty granted.token
              then pure invalid_credentials
              else offer_gateway sv gateways granted

        -- The route of a request that is not OPTIONS.
        unfoldable pub route : List Text → Request → M Reply
        route gateways req =
            if is_post req.verb && text_eq req.target (bytes "/api/login")
            then attempt (login_route gateways req.body) (pure invalid_json)
            else if is_post req.verb && text_eq req.target (bytes "/api/logout")
            then attempt (logout_route req.body) (pure invalid_json)
            else if is_post req.verb && text_eq req.target (bytes "/api/register")
            then attempt (register_route req.body) (pure invalid_json)
            else if is_get req.verb && text_eq req.target (bytes "/api/discover/chat")
            then discover_route sv gateways
            else pure (404, bytes "Not Found")

        unfoldable pub process_request : List Text → Request → M Response
        process_request gateways req =
            if is_options req.verb
            then pure (respond req (200, []))
            else (do reply ← route gateways req; pure (respond req reply))
