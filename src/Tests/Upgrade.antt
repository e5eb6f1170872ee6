-- ===== src/Tests/Upgrade.antt =====
-- Runs of the WebSocket upgrade.
use my_tiny_im.Base.{◌≡◌, refl, some, [], arith}
use my_tiny_im.Base.Text.{bytes, text_eq, c_str}
use my_tiny_im.Base.Int.{pos}
use my_tiny_im.Services.{History, Services, string_reply, ok}
use my_tiny_im.Services.Redis.{hget, with_conn}
use my_tiny_im.Gateway.Upgrade.{Params, parse_target, check_token, upgrade}
use my_tiny_im.Gateway.Upgrade.Query.{LacksByte, target_of, parse_target-target_of}
use my_tiny_im.Gateway.Upgrade.Token.{IsChecked, upgrade_checks}
use my_tiny_im.Tests.Stub.{stub}

-- A Redis that holds the token "abc" for everybody.
abbrev one_token : Services
one_token = record (stub []) { redis = λ h args. some (string_reply (bytes "abc")) }

abbrev params : Params
params = record { user_id = pos 7; token = bytes "abc"; device = bytes "PC" }

abc_lacks : LacksByte b'&' (bytes "abc")
unfolding bytes
abc_lacks = (omega arith, (omega arith, (omega arith, tt)))

pc_lacks : LacksByte b'&' (bytes "PC")
unfolding bytes
pc_lacks = (omega arith, (omega arith, tt))

parsed : parse_target (target_of (bytes "abc") (pos 7) (bytes "PC")) ≡ ok params
parsed = parse_target-target_of (bytes "abc") (pos 7) (bytes "PC") abc_lacks pc_lacks (omega arith)

abbrev later : History
later = (check_token one_token params []).1

upgraded :
    upgrade one_token (target_of (bytes "abc") (pos 7) (bytes "PC")) []
    ≡ (ok (pos 7, bytes "PC"), later)
unfolding upgrade check_token hget with_conn bytes text_eq c_str
upgraded = rw parsed refl

upgrade_checks_example : (pos 7 ≡ pos 7) × (bytes "PC" ≡ bytes "PC") × IsChecked one_token params []
upgrade_checks_example =
    upgrade_checks one_token (target_of (bytes "abc") (pos 7) (bytes "PC")) [] later params (pos 7)
      (bytes "PC") parsed upgraded refl
