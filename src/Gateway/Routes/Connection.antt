-- ===== src/Gateway/Routes/Connection.antt =====
-- The connection of an HTTP request to a gateway: OnRead and DoWrite of
-- src/gateway/http_session.cpp, for a WebSocket upgrade and for any other request.
use my_tiny_im.Base.{◌≡◌, refl, ◌⊎◌, ◌++◌}
use my_tiny_im.Base.Text.{Text}
use my_tiny_im.Base.Int.{ℤ, pos}
use my_tiny_im.Services.{History, Services, ok, M, ◌>>=◌, pure}
use my_tiny_im.Json.{JsonLib}
use my_tiny_im.Rpc.{AuthStub}
use my_tiny_im.Http.{Request, Response}
use my_tiny_im.Registry.{Registry}
use my_tiny_im.Gateway.Upgrade.{Params, parse_target, upgrade}
use my_tiny_im.Gateway.Upgrade.Token.{upgrade_opens}
use my_tiny_im.Gateway.Routes.{handle_request}
use my_tiny_im.Gateway.Routes.Reach.{handle_request_reaches}

-- What async_read completes with: the end of the stream, another error, a request for which
-- is_upgrade() holds, or any other.
pub data ReadResult : Type 0 where
  end_of_stream : ReadResult
  read_error : ReadResult
  upgrade_read : Request → ReadResult
  request_read : Request → ReadResult

-- What the connection does next: write a response, serve a WebSocket of a user on a device, or
-- nothing.
pub data Phase : Type 0 where
  writing : Response → Phase
  websocket : ℤ → Text → Phase
  finished : Phase

-- The handler of async_write shuts the connection down, whatever the response's keep-alive is.
unfoldable pub on_written : Response → Phase
on_written res = finished

module _ (js : JsonLib) (stub : AuthStub) (sv : Services) where
  unfoldable pub on_read : ReadResult → Registry → M (Phase × Registry)
  on_read end_of_stream r = pure (finished, r)
  on_read read_error r = pure (finished, r)
  on_read (upgrade_read req) r = do who ← upgrade sv req.target; pure (websocket who.0 who.1, r)
  on_read (request_read req) r = do
    answer ← handle_request js stub sv req r
    pure (writing answer.0, answer.1)

  -- What a read leads to.
  abbrev pub Leads : ReadResult → Phase → Type 0
  Leads end_of_stream phase = phase ≡ finished
  Leads read_error phase = phase ≡ finished
  Leads (request_read req) phase = (res : Response) × (phase ≡ writing res)
  Leads (upgrade_read req) phase =
      (p : Params) × (user_id : ℤ) × (parse_target req.target ≡ ok p)
      × (phase ≡ websocket user_id p.device)
      × ((user_id ≡ pos 0) ⊎ (user_id ≡ p.user_id))

  -- The target of an upgrade has a query that can be read.
  abbrev pub IsReadable : ReadResult → Type 0
  IsReadable (upgrade_read req) = (p : Params) × (parse_target req.target ≡ ok p)
  IsReadable result = Unit

  -- Unless the number in the query of an upgrade cannot be read, OnRead ends without an exception,
  -- whatever Redis and the auth server answer: an upgrade with a WebSocket that is anonymous or for
  -- the user of the query, on the device of the query, another request with a response, and an
  -- error with nothing.
  pub on_read_ends :
      (result : ReadResult) (r : Registry) (h : History)
      → IsReadable result
      → (phase : Phase) × (r' : Registry) × (later : History) × (on_read result r h
          ≡ (ok (phase, r'), later))
        × Leads result phase
  unfolding on_read
  on_read_ends end_of_stream r h i = (finished, r, h, refl, refl)
  on_read_ends read_error r h i = (finished, r, h, refl, refl)
  on_read_ends (upgrade_read req) r h (p, e) =
      let (user_id, later, opened, whose) = upgrade_opens sv req.target h p e in
      (websocket user_id p.device, r, later, rw opened refl, (p, user_id, e, refl, whose))
  on_read_ends (request_read req) r h i =
      let (res, r', new, answered, calls) = handle_request_reaches js stub sv req r h in
      (writing res, r', new ++ h, rw answered refl, (res, refl))
