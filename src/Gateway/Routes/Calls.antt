-- ===== src/Gateway/Routes/Calls.antt =====
-- What the routes of src/gateway/http_session.cpp call and answer.
use my_tiny_im.Base.{◌≡◌, refl, ap, Bool, true, false, some, ◌∷◌, ◌++◌, if◌then◌else◌}
use my_tiny_im.Base.Text.{Text, bytes, text_eq}
use my_tiny_im.Services.{login_sent, History, Services, ok, ◌>>=◌, pure}
use my_tiny_im.Json.{JsonLib}
use my_tiny_im.Auth.Login.{LoginReq, LoginResp}
use my_tiny_im.Rpc.{AuthStub, Answer, failed, answered, call_login}
use my_tiny_im.Http.{Request, post, is_post, is_options, dump_text, read_login}
use my_tiny_im.Registry.{Registry}
use my_tiny_im.Gateway.Routes.{
  auth_server, written, failure_json, open_login, login_answer, login_route, route, respond,
  handle_request,
}

module _ (js : JsonLib) (stub : AuthStub) (sv : Services) (request : Request) (r : Registry)
    (h : History) where
  -- A POST to the login route is answered by that route.
  pub handle_request_login :
      request.verb ≡ post
      → request.target ≡ bytes "/api/login"
      → handle_request js stub sv request r h
        ≡ (do
          reply ← login_route js stub sv request.body r
          pure (respond request true reply.0, reply.1))
            h
  unfolding handle_request route bytes text_eq
  handle_request_login v t =
      let not_options : is_options request.verb ≡ false = ap is_options v in
      let posted : is_post request.verb ≡ true = ap is_post v in
      rw
        (
          not_options,
          posted,
          ap (λ s. text_eq s (bytes "/api/register")) t,
          ap (λ s. text_eq s (bytes "/api/login")) t,
        )
        refl

-- What the auth server's answer refuses a login with.
abbrev pub refusal : Answer LoginResp → Text
refusal (failed message) = bytes "RPC Error: " ++ message
refusal (answered resp) = resp.error_message

abbrev pub is_confirmed : Answer LoginResp → Bool
is_confirmed (failed message) = false
is_confirmed (answered resp) = resp.success

module _ (js : JsonLib) (stub : AuthStub) (sv : Services) where
  login_answer-refused :
      (device : Text) (answer : Answer LoginResp) (r : Registry)
      → is_confirmed answer ≡ false
      → login_answer js sv device answer r ≡ pure (failure_json js (refusal answer), r)
  unfolding login_answer
  login_answer-refused device (failed message) r c = refl
  login_answer-refused device (answered resp) r c =
      ap
        (λ (b : Bool).
          if b
          then open_login js sv device resp r
          else pure (failure_json js resp.error_message, r))
        c

  -- A login at a gateway that the auth server does not confirm stores no token and selects no
  -- gateway: the one call is that of the auth server, the registry is as it was, and the reply says
  -- why, with status 200, or is that of a bad request if this cannot be written as JSON.
  pub login_refused_stores_nothing :
      (request : Request) (r : Registry) (h : History) (creds : LoginReq)
      → request.verb ≡ post
      → request.target ≡ bytes "/api/login"
      → read_login js request.body ≡ some creds
      → is_confirmed (stub.login h auth_server creds) ≡ false
      → handle_request js stub sv request r h ≡ (
        ok (
          respond request true (
              written
                (dump_text (js.dump (failure_json js (refusal (stub.login h auth_server creds)))))),
          r,
        ),
        login_sent auth_server creds.username creds.password creds.device ∷ h,
      )
  unfolding login_route call_login
  login_refused_stores_nothing request r h creds v t c f =
      rw
        (
          handle_request_login js stub sv request r h v t,
          c,
          login_answer-refused creds.device (stub.login h auth_server creds) r f,
        )
        refl
