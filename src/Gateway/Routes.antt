-- ===== src/Gateway/Routes.antt =====
-- The JSON routes of a gateway, `HttpSession::HandleRequest` of src/gateway/http_session.cpp. The
-- state is the service registry of the process, whose round robin a login moves on.
pub mod Session
pub mod Calls
pub mod Reach
pub mod Connection
use my_tiny_im.Base.{
  ℕ, Bool, true, false, not, Option, none, some, List, [], ◌∷◌, ◌++◌, if◌then◌else◌,
}
use my_tiny_im.Base.Text.{Text, bytes, is_empty, text_eq}
use my_tiny_im.Base.Int.{ℤ, pos}
use my_tiny_im.Services.{Services, ok, M, ◌>>=◌, ◌>>◌, pure, attempt}
use my_tiny_im.Services.Redis.{hset}
use my_tiny_im.Json.{JsonLib}
use my_tiny_im.Auth.Account.{RegisterReq, RegisterResp, LogoutReq, session_key}
use my_tiny_im.Auth.Login.{LoginReq, LoginResp}
use my_tiny_im.Rpc.{AuthStub, Answer, failed, answered, call_login, call_register, call_logout}
use my_tiny_im.Http.{
  Request, Response, Reply, is_post, is_options, dump_text, read_login, read_register,
}
use my_tiny_im.Registry.{Registry, discover}

-- GetAuthClient
abbrev pub auth_server : Text
auth_server = bytes "localhost:50051"

abbrev pub fallback_url : Text
fallback_url = bytes "ws://127.0.0.1:8080/ws"

unfoldable pub login_url : Text → Text
login_url addr = if is_empty addr then fallback_url else bytes "ws://" ++ (addr ++ bytes "/ws")

-- res.body() = resp_json.dump(); an exception is caught as one of the request's JSON.
abbrev pub written : Option Text → Reply
written none = (400, bytes "Invalid JSON")
written (some body) = (200, body)

abbrev rpc_error : Text → Text
rpc_error message = bytes "RPC Error: " ++ message

unfoldable pub respond : Request → Bool → Reply → Response
respond req prepared reply = record {
  status = reply.0;
  version = req.version;
  keep_alive = req.keep_alive;
  server = bytes "TinyIM Gateway";
  body = reply.1;
  prepared = prepared;
}

module _ (js : JsonLib) where
  abbrev pub failure_json : Text → js.Value
  failure_json message =
      js.object ((bytes "code", js.number (pos 1)) ∷ (bytes "msg", js.text message) ∷ [])

  abbrev registered_json : RegisterResp → js.Value
  registered_json resp = js.object (
      (bytes "code", js.number (pos 0))
      ∷ (bytes "msg", js.text (bytes "Register Success"))
      ∷ (bytes "data", js.object ((bytes "user_id", js.number resp.user_id) ∷ []))
      ∷ [])

  unfoldable pub register_json : Answer RegisterResp → js.Value
  register_json (failed message) = failure_json (rpc_error message)
  register_json (answered resp) =
      if resp.success then registered_json resp else failure_json resp.error_message

  unfoldable pub logged_in_json : LoginResp → Text → js.Value
  logged_in_json resp url = js.object (
      (bytes "code", js.number (pos 0))
      ∷ (bytes "msg", js.text (bytes "Login Success"))
      ∷ (
        bytes "data",
        js.object (
            (bytes "user_id", js.number resp.user_id)
            ∷ (bytes "token", js.text resp.token)
            ∷ (bytes "gateway_url", js.text url)
            ∷ []),
      )
      ∷ [])

  unfoldable pub logout_json : Answer Bool → js.Value
  logout_json (failed message) = failure_json (rpc_error message)
  logout_json (answered true) =
      js.object
        ((bytes "code", js.number (pos 0)) ∷ (bytes "msg", js.text (bytes "Logout Success")) ∷ [])
  logout_json (answered false) = failure_json (bytes "Logout Failed")

  abbrev logout_of : Option ℤ → Option Text → Option Text → Option LogoutReq
  logout_of (some user_id) (some token) (some device) =
      some (record { user_id = user_id; token = token; device = device })
  logout_of _ _ _ = none

  abbrev logout_from : Option js.Value → Option LogoutReq
  logout_from none = none
  logout_from (some json) =
      logout_of (js.value_int json (bytes "user_id") (pos 0))
        (js.value_string json (bytes "token") [])
        (js.value_string json (bytes "device") (bytes "PC"))

  -- The body of a logout request.
  unfoldable pub read_logout : Text → Option LogoutReq
  read_logout body = logout_from (js.parse body)

  module _ (sv : Services) where
    -- A login that succeeded: the token is stored, and a gateway is selected.
    unfoldable pub open_login : Text → LoginResp → Registry → M (js.Value × Registry)
    open_login device resp r = do
      hset sv (session_key resp.user_id) device resp.token
      found ← attempt (discover sv (bytes "gateway") r) (pure ([], r))
      pure (logged_in_json resp (login_url found.0), found.1)

    unfoldable pub login_answer : Text → Answer LoginResp → Registry → M (js.Value × Registry)
    login_answer device (failed message) r = pure (failure_json (rpc_error message), r)
    login_answer device (answered resp) r =
        if resp.success then open_login device resp r else pure (failure_json resp.error_message, r)

  module _ (stub : AuthStub) where
    abbrev pub register_with : Option RegisterReq → M Reply
    register_with none = pure (written none)
    register_with (some req) = do
      answer ← call_register stub auth_server req
      pure (written (dump_text (js.dump (register_json answer))))

    unfoldable pub register_route : Text → M Reply
    register_route body = register_with (read_register js body)

    abbrev pub logout_with : Option LogoutReq → M Reply
    logout_with none = pure (written none)
    logout_with (some req) = do
      answer ← call_logout stub auth_server req
      pure (written (dump_text (js.dump (logout_json answer))))

    unfoldable pub logout_route : Text → M Reply
    logout_route body = logout_with (read_logout body)

    module _ (sv : Services) where
      abbrev pub login_with : Option LoginReq → Registry → M (Reply × Registry)
      login_with none r = pure (written none, r)
      login_with (some req) r = do
        answer ← call_login stub auth_server req
        json ← login_answer sv req.device answer r
        pure (written (dump_text (js.dump json.0)), json.1)

      unfoldable pub login_route : Text → Registry → M (Reply × Registry)
      login_route body r = login_with (read_login js body) r

      unfoldable pub route : Request → Registry → M (Reply × Registry)
      route req r =
          if text_eq req.target (bytes "/api/register")
          then (do reply ← register_route req.body; pure (reply, r))
          else if text_eq req.target (bytes "/api/login")
          then login_route req.body r
          else if text_eq req.target (bytes "/api/logout")
          then (do reply ← logout_route req.body; pure (reply, r))
          else pure ((404, bytes "Not Found"), r)

      -- The response to a method other than POST is written without its length.
      unfoldable pub handle_request : Request → Registry → M (Response × Registry)
      handle_request req r =
          if is_options req.verb
          then pure (respond req true (200, []), r)
          else if not (is_post req.verb)
          then pure (respond req false (400, bytes "Only POST allowed"), r)
          else (do reply ← route req r; pure (respond req true reply.0, reply.1))
