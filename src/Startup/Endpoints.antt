-- ===== src/Startup/Endpoints.antt =====
-- Who listens where, and from when on: the main functions against the addresses that the servers
-- call.
use my_tiny_im.Base.{◌≡◌, refl, ap, ◌∙◌, false, Option, some, List, [], ◌∷◌, ◌++◌}
use my_tiny_im.Base.Text.{Text, bytes}
use my_tiny_im.Base.Int.{ℤ, pos, to_string, print_nat}
use my_tiny_im.Json.{JsonLib}
use my_tiny_im.Config.{get_int, get_string_list, load_either}
use my_tiny_im.Gateway.Routes.{auth_server}
use my_tiny_im.Gateway.Stubs.{chat_addr, relation_addr}
use my_tiny_im.Relation.{chat_server}
use my_tiny_im.Config.Paths.{IsUnread, load_unread_either, unread_gives_defaults}
use my_tiny_im.Dispatch.{auth_addr}
use my_tiny_im.Startup.{
  Action, rpc_listens, registers, any_address, redis_action, db_action, start_auth, run_chat,
  start_chat, start_relation,
}

-- What is done before a gRPC server listens.
abbrev pub before_rpc : List Action → List Action
before_rpc [] = []
before_rpc (rpc_listens address ∷ actions) = []
before_rpc (action ∷ actions) = action ∷ before_rpc actions

module _ (js : JsonLib) (files : Text → Option Text) where
  -- Whatever the configuration: the relation server has its database and Redis before it listens,
  -- and is registered before; the auth server listens before it has either; and the chat server is
  -- registered, and listens, before it has its database.
  pub ready_before_listening :
      let json = load_either js files js.null in
      (before_rpc (start_auth js files) ≡ [])
      × (before_rpc (start_chat js files)
          ≡ redis_action js json
            ∷ registers
                (bytes "chat_server")
                (bytes "127.0.0.1")
                (get_int js json (bytes "chat_service.port") (pos 50052))
            ∷ [])
      × (before_rpc (start_relation js files)
          ≡ db_action js json (get_string_list js json (bytes "mysql.slaves")) 10
            ∷ redis_action js json
            ∷ registers
                (bytes "relation")
                (bytes "127.0.0.1")
                (get_int js json (bytes "user_service.port") (pos 50053))
            ∷ [])
  unfolding start_auth start_chat start_relation db_action redis_action
  ready_before_listening = (refl, refl, refl)

  -- A server that starts so listens, at some point, at a port of all addresses.
  abbrev pub Listens : List Action → Text → Type 0
  Listens [] port = ⊥
  Listens (rpc_listens address ∷ actions) port = address ≡ bytes "0.0.0.0:" ++ port
  Listens (action ∷ actions) port = Listens actions port

  -- If no configuration can be read, the auth server, the chat server and the relation server listen
  -- at the ports at which the others call them: the dispatch server and the gateways the first, the
  -- gateways and the relation server the second, and the gateways the third. A json that holds
  -- nothing is assumed to have no member and no value behind a pointer.
  pub servers_reached_by_default :
      ((key : Text) → js.contains js.null key ≡ false)
      → ((p : js.Pointer) → js.contains_at js.null p ≡ some false)
      → IsUnread js (files (bytes "config.json"))
      → IsUnread js (files (bytes "../config.json"))
      → let json = load_either js files js.null in
        (auth_port chat_port relation_port : Text) × Listens (start_auth js files) auth_port
        × (auth_addr js json ≡ bytes "127.0.0.1:" ++ auth_port)
        × (auth_server ≡ bytes "localhost:" ++ auth_port)
        × Listens (start_chat js files) chat_port
        × (chat_addr js json ≡ bytes "127.0.0.1:" ++ chat_port)
        × (chat_server ≡ bytes "localhost:" ++ chat_port)
        × Listens (start_relation js files) relation_port
        × (relation_addr js json ≡ bytes "127.0.0.1:" ++ relation_port)
  unfolding start_auth start_chat run_chat start_relation auth_addr chat_addr relation_addr
      any_address db_action redis_action bytes to_string print_nat
  servers_reached_by_default m p a b =
      let json = load_either js files js.null in
      let at = λ (key default : Text) (number : ℤ).
        unread_gives_defaults js m p files key default number a b in
      (
        bytes "50051",
        bytes "50052",
        bytes "50053",
        ap any_address (at (bytes "auth_service.port") [] (pos 50051)).1,
        (at (bytes "auth_service.addr") (bytes "127.0.0.1:50051") (pos 0)).0,
        refl,
        ap
              (λ (before : js.Value).
                any_address (get_int js before (bytes "chat_service.port") (pos 50052)))
              (load_unread_either js files json a b)
            ∙ ap any_address (at (bytes "chat_service.port") [] (pos 50052)).1,
        (at (bytes "chat_service.addr") (bytes "127.0.0.1:50052") (pos 0)).0,
        refl,
        ap any_address (at (bytes "user_service.port") [] (pos 50053)).1,
        (at (bytes "relation_service.addr") (bytes "127.0.0.1:50053") (pos 0)).0,
      )
