-- ===== src/Gateway/Upgrade.antt =====
-- The upgrade of an HTTP connection to a WebSocket, in `HttpSession::OnRead` of
-- src/gateway/http_session.cpp: the query of the target, and the check of the token.
pub mod Token
pub mod Query
use my_tiny_im.Base.{
  ℕ, suc, Bool, true, false, not, ◌&&◌, Option, none, some, List, [], ◌∷◌, take, drop, ◌==◌,
  if◌then◌else◌,
}
use my_tiny_im.Base.Text.{Text, bytes, c_str, find, is_empty, text_eq}
use my_tiny_im.Base.Int.{ℤ, pos, is_positive, stoll}
use my_tiny_im.Services.{Services, Outcome, ok, thrown, fault, M, ◌>>=◌, pure, lift, bind}
use my_tiny_im.Services.Redis.{hget}
use my_tiny_im.Auth.Account.{session_key}

cons_head : ℕ → List Text → List Text
cons_head c [] = (c ∷ []) ∷ []
cons_head c (s ∷ ss) = (c ∷ s) ∷ ss

-- The segments that std::getline gives with a delimiter, until the stream is at its end.
unfoldable pub segments : ℕ → Text → List Text
unfolding cons_head
segments delimiter [] = []
segments delimiter (c ∷ s) =
    let rest = segments delimiter s in if c == delimiter then [] ∷ rest else cons_head c rest

pub record Params : Type 0 where
  pub user_id : ℤ
  pub token : Text
  pub device : Text

abbrev pub defaults : Params
defaults = record { user_id = pos 0; token = []; device = bytes "PC" }

with_id : Option ℤ → Params → Outcome Params
with_id none p = thrown
with_id (some user_id) p = ok (record p { user_id = user_id })

-- One key with its value.
set_param : Text → Text → Params → Outcome Params
unfolding with_id
set_param key val p =
    if text_eq key (bytes "id")
    then with_id (stoll (c_str val)) p
    else if text_eq key (bytes "token")
    then ok (record p { token = val })
    else if text_eq key (bytes "device")
    then ok (record p { device = val })
    else ok p

-- A segment without '=' is passed over.
unfoldable pub read_segment : Params → Text → Outcome Params
unfolding set_param
read_segment p segment = elim (find b'=' segment) [
  | none ↦ ok p
  | some i ↦ set_param (take i segment) (drop (suc i) segment) p
]

unfoldable pub read_segments : Params → List Text → Outcome Params
read_segments p [] = ok p
read_segments p (segment ∷ more) = bind (read_segment p segment) λ p'. read_segments p' more

unfoldable pub parse_target : Text → Outcome Params
parse_target target = elim (find b'?' target) [
  | none ↦ ok defaults
  | some i ↦ read_segments defaults (segments b'&' (drop (suc i) target))
]

module _ (sv : Services) where
  unfoldable pub check_token : Params → M (ℤ × Text)
  check_token p =
      if is_positive p.user_id && not (is_empty p.token)
      then (do
        stored_token ← hget sv (session_key p.user_id) p.device
        pure (if text_eq stored_token p.token then p.user_id else pos 0, p.device))
      else pure (pos 0, p.device)

  -- The user and the device of the new session; the user 0 is anonymous.
  unfoldable pub upgrade : Text → M (ℤ × Text)
  upgrade target = do p ← lift (parse_target target); check_token p
