-- ===== src/Rpc.antt =====
-- The auth server as its clients call it: the stub that protos/auth.proto generates is a parameter,
-- whose answers may depend on all that was called before.
pub mod Channels
use my_tiny_im.Base.{Bool, ◌∷◌}
use my_tiny_im.Base.Text.{Text}
use my_tiny_im.Services.{History, login_sent, register_sent, logout_sent, ok, M}
use my_tiny_im.Auth.Account.{RegisterReq, RegisterResp, LogoutReq}
use my_tiny_im.Auth.Login.{LoginReq, LoginResp}

-- A status that is not ok, with its error_message; or the reply.
pub data Answer (A : Type 0) : Type 0 where
  failed : Text → Answer A
  answered : A → Answer A

-- Each call at an address; the reply of Logout is its success.
pub record AuthStub : Type 0 where
  pub login : History → Text → LoginReq → Answer LoginResp
  pub register : History → Text → RegisterReq → Answer RegisterResp
  pub logout : History → Text → LogoutReq → Answer Bool

module _ (stub : AuthStub) (address : Text) where
  unfoldable pub call_login : LoginReq → M (Answer LoginResp)
  call_login req h =
      (ok (stub.login h address req), login_sent address req.username req.password req.device ∷ h)

  unfoldable pub call_register : RegisterReq → M (Answer RegisterResp)
  call_register req h = (
    ok (stub.register h address req),
    register_sent address req.username req.password req.nickname ∷ h,
  )

  unfoldable pub call_logout : LogoutReq → M (Answer Bool)
  call_logout req h =
      (ok (stub.logout h address req), logout_sent address req.user_id req.token req.device ∷ h)
