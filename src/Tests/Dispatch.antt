-- ===== src/Tests/Dispatch.antt =====
-- Runs of the dispatch server.
use my_tiny_im.Base.{
  ℕ, ◌≤◌, ◌≡◌, ◌⊎◌, refl, ap, true, false, Option, some, none, List, [], ◌∷◌, ◌++◌, All, arith,
  if◌then◌else◌,
}
use my_tiny_im.Base.Text.{Text, bytes, c_str, is_empty, text_eq}
use my_tiny_im.Base.Eq.{text_Eq}
use my_tiny_im.Base.Int.{pos, stoll, stoi}
use my_tiny_im.Base.Map.{lookup}
use my_tiny_im.Services.{
  login_sent, Row, RedisReply, array_reply, string_reply, History, Services, ok,
}
use my_tiny_im.Services.Mysql.{stoll_column, text_column}
use my_tiny_im.Services.Redis.{keys, get, with_conn}
use my_tiny_im.Auth.Login.{
  LoginReq, LoginResp, device_or_pc, login_sql, login_statement, sql_prefix, token_of, login,
}
use my_tiny_im.Auth.Login.Session.{LoginCall}
use my_tiny_im.Rpc.{AuthStub, failed, answered}
use my_tiny_im.Http.{Reply, Request, Response, post, read_login}
use my_tiny_im.Registry.{contains_text, update_gateways, query_addresses, values_of}
use my_tiny_im.Dispatch.{auth_addr, login_json, respond, process_request, read_logout}
use my_tiny_im.Dispatch.Routes.{IsStatus, process_request_answers}
use my_tiny_im.Dispatch.Login.{LetIn, login_needs_auth}
use my_tiny_im.Dispatch.Served.{Replies, login_served}
use my_tiny_im.Dispatch.Logout.{replied_logout, called_logout, logout_replies}
use my_tiny_im.Dispatch.Server.{served, found, right_password_served}
use my_tiny_im.Dispatch.Connection.{
  Runs, starts, reads, writes, request_read, on_read, on_written, start, sendable, one_response,
}
use my_tiny_im.Tests.Stub.{stub}
use my_tiny_im.Tests.Toy.{toy, ann_json}

abbrev request : Text → Request
request target = record {
  verb = post;
  target = target;
  version = 11;
  keep_alive = true;
  body = bytes "{}";
}

abbrev ann : LoginReq
ann = record { username = bytes "ann"; password = bytes "pw"; device = bytes "PC" }

abbrev resp : LoginResp
resp = record {
  user_id = pos 7;
  token = bytes "abc";
  nickname = bytes "Ann";
  success = true;
  error_message = [];
}

-- An auth server that lets everybody in.
abbrev open_auth : AuthStub
open_auth = record {
  login = λ h address req. answered resp;
  register = λ h address req. failed [];
  logout = λ h address req. failed [];
}

abbrev gateways : List Text
gateways = bytes "127.0.0.1:8080" ∷ []

process_request_answers_example :
    (res : Response) × (later : History) × (process_request toy ann_json open_auth
        (stub [])
        gateways
        (request (bytes "/api/logout"))
        []
      ≡ (ok res, later))
    × IsStatus res.status
    × (res.version ≡ 11)
    × (res.keep_alive ≡ true)
    × (res.prepared ≡ true)
process_request_answers_example =
    process_request_answers toy ann_json open_auth (stub []) gateways
      (request (bytes "/api/logout")) []

logout_replies_example :
    process_request toy ann_json open_auth (stub []) gateways (request (bytes "/api/logout")) [] ≡ (
      ok (respond (request (bytes "/api/logout")) (replied_logout (read_logout toy (bytes "{}")))),
      called_logout (auth_addr toy ann_json) (read_logout toy (bytes "{}")) [],
    )
logout_replies_example =
    logout_replies toy ann_json open_auth (stub []) gateways (request (bytes "/api/logout")) [] refl
      refl

-- The user of the toy body is positive, so that the auth server is asked.
logout_asks :
    read_logout toy (bytes "{}") ≡ some (record { user_id = pos 7; token = []; device = [] })
unfolding read_logout bytes lookup text_eq stoi stoll
logout_asks = refl

read_ann : read_login toy (bytes "{}") ≡ some ann
unfolding read_login bytes lookup text_eq
read_ann = refl

picks_nothing : (h : History) (n : ℕ) → 0 ≤ n
picks_nothing h n = omega arith

gateways-All : All (λ a. is_empty a ≡ false) gateways
unfolding bytes
gateways-All = (refl, tt)

ann_served :
    (gw : Text) × (reply : Reply) × (process_request toy ann_json open_auth
        (stub [])
        gateways
        (request (bytes "/api/login"))
        []
      ≡ (
        ok (respond (request (bytes "/api/login")) reply),
        login_sent (auth_addr toy ann_json) (bytes "ann") (bytes "pw") (bytes "PC") ∷ [],
      ))
    × (contains_text gw gateways ≡ true)
    × (reply ≡ (200, bytes "json"))
ann_served =
    login_served toy ann_json open_auth (stub []) picks_nothing (bytes "127.0.0.1:8080") []
      (request (bytes "/api/login")) [] ann resp refl refl gateways-All read_ann refl refl
      (unfold bytes in refl)

login_needs_auth_example :
    LetIn toy ann_json open_auth gateways
      (bytes "{}")
      []
      ann_served.1.1
      (login_sent (auth_addr toy ann_json) (bytes "ann") (bytes "pw") (bytes "PC") ∷ [])
unfolding respond
login_needs_auth_example =
    login_needs_auth toy ann_json open_auth (stub []) picks_nothing gateways
      (request (bytes "/api/login")) []
      (login_sent (auth_addr toy ann_json) (bytes "ann") (bytes "pw") (bytes "PC") ∷ [])
      (respond (request (bytes "/api/login")) ann_served.1) refl refl ann_served.2
      (ap (λ (r : Reply). r.0) ann_served.4)

-- The auth server behind the stub, with one user.
abbrev row : Row
row = some (bytes "7") ∷ some (bytes "Ann") ∷ some (bytes "pw") ∷ []

abbrev other_row : Row
other_row = some (bytes "7") ∷ some (bytes "Ann") ∷ some (bytes "secret") ∷ []

abbrev redis_list : Text → Option RedisReply
redis_list cmd =
    if text_eq cmd (bytes "KEYS")
    then some (array_reply (some (bytes "im:service:gateway:127.0.0.1:8080") ∷ []))
    else some (string_reply (bytes "127.0.0.1:8080"))

-- A Redis that lists one gateway.
abbrev lister : Services
lister = record (stub []) {
  redis = λ h args. elim args [ [] ↦ none | cmd ∷ rest ↦ redis_list cmd ];
}

listed : update_gateways lister [] ≡ (ok gateways, (update_gateways lister []).1)
unfolding update_gateways query_addresses values_of keys get with_conn bytes text_eq c_str
listed = refl

right_password_served_example :
    let server = stub (row ∷ []) in
    let token =
      token_of (pos 7) (server.now (found toy ann_json [] server [] ann row [] (pos 7))) in
    (gw : Text) × (reply : Reply) × (new : History) × (process_request toy ann_json
        (served [] server [])
        lister
        gateways
        (request (bytes "/api/login"))
        []
      ≡ (
        ok (respond (request (bytes "/api/login")) reply),
        login_sent (auth_addr toy ann_json) (bytes "ann") (bytes "pw") (bytes "PC") ∷ [],
      ))
    × (contains_text gw gateways ≡ true)
    × Replies
        (toy.dump (
          login_json toy
            (record { token = token; user_id = pos 7; nickname = text_column row 1 })
            gw))
        reply
    × ((login server ann []).1 ≡ new ++ found toy ann_json [] server [] ann row [] (pos 7))
    × All (LoginCall (pos 7) (device_or_pc (bytes "PC")) token) new
unfolding login_sql login_statement sql_prefix bytes c_str text_eq stoll_column stoll text_column
right_password_served_example =
    right_password_served toy ann_json [] (stub (row ∷ [])) [] ann row [] (pos 7) lister
      (bytes "127.0.0.1:8080") [] (request (bytes "/api/login")) [] [] (update_gateways lister []).1
      picks_nothing refl refl read_ann refl refl refl refl listed

-- Two requests on one connection, with keep-alive.
abbrev res : Response
res = respond (request []) (200, [])

one_run : Runs (
    on_read
      (request_read res)
      true
      (on_written res true true (on_read (request_read res) true start)))
unfolding start on_read on_written respond
one_run =
    reads (request_read res) true refl
      (writes res true true refl (reads (request_read res) true refl starts))

one_response_example :
    let c =
      on_read
        (request_read res)
        true
        (on_written res true true (on_read (request_read res) true start)) in
    (sendable c.begun ≤ 1) × ((c.shut ≡ true) ⊎ ((c.reading ≡ false) ⊎ (sendable c.begun ≡ 0)))
one_response_example = one_response one_run
