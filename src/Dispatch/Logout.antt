-- ===== src/Dispatch/Logout.antt =====
-- Logout through the dispatch server, src/dispatch/main.cpp.
use my_tiny_im.Base.{◌≡◌, refl, ap, false, Option, none, some, List, ◌∷◌, if◌then◌else◌, arith}
use my_tiny_im.Base.Text.{Text, bytes}
use my_tiny_im.Base.Int.{is_positive}
use my_tiny_im.Services.{History, Services, ok, logout_sent, attempt, pure}
use my_tiny_im.Json.{JsonLib}
use my_tiny_im.Auth.Account.{LogoutReq}
use my_tiny_im.Rpc.{AuthStub, call_logout}
use my_tiny_im.Http.{Request, Reply, post, is_options}
use my_tiny_im.Dispatch.{
  invalid_json, logged_out, auth_addr, logout, logout_route, read_logout, respond, process_request,
}
use my_tiny_im.Dispatch.Routes.{route_logout}

-- The calls of a logout of a user.
abbrev pub logout_calls : Text → LogoutReq → History → History
logout_calls address req h =
    if is_positive req.user_id then logout_sent address req.user_id req.token req.device ∷ h else h

abbrev pub replied_logout : Option LogoutReq → Reply
replied_logout none = invalid_json
replied_logout (some req) = logged_out

abbrev pub called_logout : Text → Option LogoutReq → History → History
called_logout address none h = h
called_logout address (some req) h = logout_calls address req h

module _ (js : JsonLib) (config : js.Value) (stub : AuthStub) where
  logout_route_lem :
      (body : Text) (h : History)
      → attempt (logout_route js config stub body) (pure invalid_json) h ≡ (
        ok (replied_logout (read_logout js body)),
        called_logout (auth_addr js config) (read_logout js body) h,
      )
  unfolding logout_route logout call_logout
  logout_route_lem body h = ground arith

  -- A request to log out whose body can be read is always answered with success, whatever the auth
  -- server answers; the auth server is asked exactly if the user's number is positive. A body that
  -- cannot be read is answered with status 400 and no call.
  pub logout_replies :
      (sv : Services) (gateways : List Text) (request : Request) (h : History)
      → request.verb ≡ post
      → request.target ≡ bytes "/api/logout"
      → process_request js config stub sv gateways request h ≡ (
        ok (respond request (replied_logout (read_logout js request.body))),
        called_logout (auth_addr js config) (read_logout js request.body) h,
      )
  unfolding process_request
  logout_replies sv gateways request h v t =
      let not_options : is_options request.verb ≡ false = ap is_options v in
      rw
        (
          not_options,
          route_logout js config stub sv gateways request v t,
          logout_route_lem request.body h,
        )
        refl
