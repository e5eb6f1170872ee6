-- ===== src/Tests/Routes.antt =====
-- Runs of the JSON routes of a gateway, of the Redis contexts, the kick listener and the channels.
use my_tiny_im.Base.{
  ℕ, ◌+◌, ◌≤◌, ◌≡◌, refl, Bool, true, false, Option, some, none, List, [], ◌∷◌, ◌++◌, All, count,
  length, arith,
}
use my_tiny_im.Base.Text.{bytes, c_str, text_eq}
use my_tiny_im.Base.Eq.{text_Eq}
use my_tiny_im.Base.Int.{pos, to_string, print_nat}
use my_tiny_im.Base.Map.{lookup}
use my_tiny_im.Services.{redis_command, redis_opened, integer_reply, History, ok}
use my_tiny_im.Services.Memory.{Spares}
use my_tiny_im.Services.Pool.{
  Uses, starts, takes, connects, releases, contexts_shared_out, StaysBroken, run_commands,
  broken_context_stays, take_context, connected, release_context,
}
use my_tiny_im.Services.Subscribe.{RedisLink, confirmation, heard}
use my_tiny_im.Auth.Account.{session_key}
use my_tiny_im.Auth.Login.{LoginReq, LoginResp}
use my_tiny_im.Rpc.{AuthStub, answered, failed}
use my_tiny_im.Http.{Request, Response, post, read_login}
use my_tiny_im.Registry.{Registry}
use my_tiny_im.Gateway.Connections.{Users}
use my_tiny_im.Gateway.Service.Listener.{
  Publication, kick_publication, other_publication, bus_of, IsSent, kicks_of, run_listener,
  listen_kicks,
}
use my_tiny_im.Gateway.Upgrade.{upgrade}
use my_tiny_im.Gateway.Upgrade.Query.{LacksByte, target_of}
use my_tiny_im.Gateway.Routes.{handle_request}
use my_tiny_im.Gateway.Routes.Session.{login_then_upgrade}
use my_tiny_im.Tests.Recall.{keeper, keeper-Remembers}
use my_tiny_im.Tests.Toy.{toy}

abbrev request : Request
request = record {
  verb = post;
  target = bytes "/api/login";
  version = 11;
  keep_alive = true;
  body = bytes "{}";
}

abbrev ann : LoginReq
ann = record { username = bytes "ann"; password = bytes "pw"; device = bytes "PC" }

abbrev resp : LoginResp
resp = record {
  user_id = pos 7;
  token = bytes "abc";
  nickname = bytes "Ann";
  success = true;
  error_message = [];
}

abbrev open_auth : AuthStub
open_auth = record {
  login = λ h address req. answered resp;
  register = λ h address req. failed [];
  logout = λ h address req. failed [];
}

abbrev registry : Registry
registry = record { registered = none; observed_services = []; cache = []; rr_index = [] }

read_ann : read_login toy (bytes "{}") ≡ some ann
unfolding read_login bytes lookup text_eq
read_ann = refl

abc_lacks : LacksByte b'&' (bytes "abc")
unfolding bytes
abc_lacks = (omega arith, (omega arith, (omega arith, tt)))

pc_lacks : LacksByte b'&' (bytes "PC")
unfolding bytes
pc_lacks = (omega arith, (omega arith, tt))

-- Another user logs in on a device of the same name.
abbrev other_login : History
other_login =
    redis_command (bytes "HSET" ∷ bytes "im:session:8" ∷ bytes "PC" ∷ bytes "xyz" ∷ [])
      (some (integer_reply (pos 1)))
    ∷ redis_opened true
    ∷ []

other_login-Spares : All (Spares (c_str (session_key (pos 7))) (c_str (bytes "PC"))) other_login
unfolding text_eq c_str bytes session_key to_string print_nat
other_login-Spares = (refl, (tt, tt))

login_then_upgrade_example :
    (res : Response) × (r' : Registry) × (later end : History) × (handle_request toy open_auth
        (keeper [])
        request
        registry
        []
      ≡ (ok (res, r'), later))
    × (upgrade (keeper []) (target_of (bytes "abc") (pos 7) (bytes "PC")) (other_login ++ later)
        ≡ (ok (pos 7, bytes "PC"), end))
unfolding bytes c_str
login_then_upgrade_example =
    login_then_upgrade toy open_auth (keeper []) request registry [] ann resp other_login
      (keeper-Remembers []) refl refl read_ann refl refl refl (omega arith) refl refl abc_lacks
      pc_lacks other_login-Spares

abbrev idle_context : List ℕ
idle_context = 101 ∷ []

abbrev taken_context : List ℕ
taken_context = 102 ∷ []

-- One caller has a context, another finds the pool empty, the first one gives its context back, and
-- the second one connects all the same.
two_made : Uses idle_context taken_context 0 2 2
unfolding take_context connected release_context
two_made =
    connects (some 102) (refl, refl)
      (releases [] 101 [] (takes (connects (some 101) (refl, refl) (takes starts))))

contexts_shared_out_example :
    (count 102 idle_context + count 102 taken_context ≤ 1)
    × (2 ≡ length idle_context + length taken_context)
    × (2 + 0 ≤ 2)
contexts_shared_out_example = contexts_shared_out 102 two_made

-- A context is broken or not; a broken one gives no reply.
abbrev exec : Bool → Option ℕ × Bool
exec true = (none, true)
exec false = (some 1, false)

exec-StaysBroken : StaysBroken (λ b. b ≡ true) exec
exec-StaysBroken = record { no_reply = λ b e. rw e refl; still = λ b e. rw e refl }

broken_context_stays_example :
    All
      (λ reply. reply ≡ none)
      (run_commands ((exec, some false) ∷ (exec, some false) ∷ []) (true ∷ [])).0
broken_context_stays_example =
    broken_context_stays (λ b. b ≡ true) ((exec, some false) ∷ (exec, some false) ∷ []) true []
      (exec-StaysBroken, (exec-StaysBroken, tt)) refl

abbrev two_kicks : List Publication
two_kicks =
    kick_publication (pos 7) (bytes "PC")
    ∷ other_publication (bytes "news") (bytes "9:PC")
    ∷ kick_publication (pos 8) []
    ∷ []

abbrev pub_sub : RedisLink
pub_sub (cmd ∷ channel ∷ []) = confirmation channel ∷ heard channel (bus_of two_kicks)
pub_sub args = []

two_kicks-IsSent : All IsSent two_kicks
unfolding bytes c_str
two_kicks-IsSent = ((omega arith, refl), ((λ e. cc e), ((omega arith, refl), tt)))

abbrev users : Users
users = (pos 7, 1 ∷ 2 ∷ []) ∷ (pos 8, 3 ∷ []) ∷ []

listen_kicks_example :
    run_listener (λ s. bytes "PC") users (some pub_sub)
    ≡ ok (kicks_of (λ s. bytes "PC") users two_kicks)
listen_kicks_example =
    listen_kicks (λ s. bytes "PC") users two_kicks pub_sub two_kicks-IsSent (λ channel. refl)
