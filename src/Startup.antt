-- ===== src/Startup.antt =====
-- How the five servers start: src/auth_server/main.cpp, src/chat_server/main.cpp,
-- src/user_server/main.cpp, src/gateway/main.cpp and src/dispatch/main.cpp, as the calls that they
-- make in a row, with what the configuration gives.
pub mod Endpoints
use my_tiny_im.Base.{
  ℕ, ◌+◌, ◌-◌, ◌%◌, ◌^◌, Bool, true, false, Option, none, some, List, [], ◌∷◌, ◌++◌,
}
use my_tiny_im.Base.Text.{Text, bytes, c_str}
use my_tiny_im.Base.Int.{ℤ, pos, negsuc, stoi, to_string}
use my_tiny_im.Json.{JsonLib}
use my_tiny_im.Config.{value_or, get_string, get_int, get_string_list, load_either}

-- What DBPool::Init is called with.
pub record DbSettings : Type 0 where
  pub host : Text
  pub slaves : List Text
  pub port : ℤ
  pub user : Text
  pub password : Text
  pub dbname : Text
  pub max_conns : ℕ

pub data Action : Type 0 where
  -- BuildAndStart of a gRPC server at an address
  rpc_listens : Text → Action
  db_init : DbSettings → Action
  redis_init : Text → ℤ → Action
  -- Register and Observe of the service registry
  registers : Text → Text → ℤ → Action
  observes : Text → Action
  -- the thread that subscribes to im:kick, and the one that looks for gateways
  listens_to_kicks : Action
  looks_for_gateways : Action
  http_listens : ℕ → Action

-- static_cast<unsigned short>
unfoldable pub unsigned_short : ℤ → ℕ
unsigned_short (pos n) = n % 2 ^ 16
unsigned_short (negsuc n) = 2 ^ 16 - 1 - n % 2 ^ 16

-- std::atoi, for a number that fits an int
unfoldable pub atoi : Text → ℤ
atoi s = value_or (stoi (c_str s)) (pos 0)

unfoldable pub any_address : ℤ → Text
any_address port = bytes "0.0.0.0:" ++ to_string port

module _ (js : JsonLib) where
  abbrev local_host : Text
  local_host = bytes "127.0.0.1"

  unfoldable pub redis_action : js.Value → Action
  redis_action json =
      redis_init (get_string js json (bytes "redis.host") local_host)
        (get_int js json (bytes "redis.port") (pos 6379))

  -- With the replicas, and the largest number of connections.
  unfoldable pub db_action : js.Value → List Text → ℕ → Action
  db_action json slaves max_conns = db_init (record {
    host = get_string js json (bytes "mysql.host") local_host;
    slaves = slaves;
    port = get_int js json (bytes "mysql.port") (pos 3306);
    user = get_string js json (bytes "mysql.user") (bytes "root");
    password = get_string js json (bytes "mysql.password") (bytes "root");
    dbname = get_string js json (bytes "mysql.dbname") (bytes "tinyim");
    max_conns = max_conns;
  })

  module _ (files : Text → Option Text) where
    abbrev settings : js.Value
    settings = load_either js files js.null

    -- RunServer of the auth server
    unfoldable pub start_auth : List Action
    start_auth =
        rpc_listens (any_address (get_int js settings (bytes "auth_service.port") (pos 50051)))
        ∷ db_action settings [] 5
        ∷ redis_action settings
        ∷ []

    -- RunServer of the chat server, which loads the configuration once more
    unfoldable pub run_chat : js.Value → List Action
    run_chat before =
        let json = load_either js files before in
        rpc_listens (any_address (get_int js json (bytes "chat_service.port") (pos 50052)))
        ∷ db_action json (get_string_list js json (bytes "mysql.slaves")) 5
        ∷ redis_action json
        ∷ []

    unfoldable pub start_chat : List Action
    unfolding run_chat
    start_chat =
        redis_action settings
        ∷ registers (bytes "chat_server") local_host
            (get_int js settings (bytes "chat_service.port") (pos 50052))
        ∷ run_chat settings

    unfoldable pub start_relation : List Action
    start_relation =
        let port = get_int js settings (bytes "user_service.port") (pos 50053) in
        db_action settings (get_string_list js settings (bytes "mysql.slaves")) 10
        ∷ redis_action settings
        ∷ registers (bytes "relation") local_host port
        ∷ rpc_listens (any_address port)
        ∷ []

    -- The port of a gateway: the first argument, or the configuration.
    unfoldable pub gateway_port : Option Text → ℕ
    gateway_port none = unsigned_short (get_int js settings (bytes "server.port") (pos 8080))
    gateway_port (some arg) = unsigned_short (atoi arg)

    unfoldable pub start_gateway : Option Text → List Action
    start_gateway arg =
        let port = gateway_port arg in
        redis_action settings
        ∷ listens_to_kicks
        ∷ rpc_listens (any_address (pos (port + 10000)))
        ∷ registers (bytes "gateway") local_host (pos port)
        ∷ observes (bytes "gateway")
        ∷ http_listens port
        ∷ []

    unfoldable pub start_dispatch : List Action
    start_dispatch =
        redis_action settings
        ∷ looks_for_gateways
        ∷ http_listens
            (unsigned_short (get_int js settings (bytes "server.dispatch_port") (pos 8000)))
        ∷ []
