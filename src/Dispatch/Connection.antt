-- ===== src/Dispatch/Connection.antt =====
-- The connection of a request in src/dispatch/main.cpp: DoRead, its handler, WriteResponse and its
-- handler, over the orders in which the socket's operations complete.
use my_tiny_im.Base.{
  ℕ, suc, ◌≤◌, ◌≡◌, ◌⊎◌, Bool, true, false, ◌&&◌, Option, none, some, List, [], ◌∷◌, arith,
  if◌then◌else◌,
}
use my_tiny_im.Http.{Response}

-- What async_read completes with: the end of the stream, another error, or a request, for which
-- ProcessRequest has made a response.
pub data ReadResult : Type 0 where
  end_of_stream : ReadResult
  read_error : ReadResult
  request_read : Response → ReadResult

-- `begun` has the responses whose writing has begun, newest first, each with whether the sending
-- side was shut by then.
pub record Connection : Type 0 where
  pub shut : Bool
  pub reading : Bool
  pub writing : Option Response
  pub begun : List (Response × Bool)

unfoldable pub do_read : Connection → Connection
do_read c = record c { reading = true }

-- socket_.shutdown(shutdown_send, ec), which gives ec and may fail
unfoldable pub shutdown_send : Bool → Connection → Connection
shutdown_send done c = if done then record c { shut = true } else c

unfoldable pub write_response : Response → Connection → Connection
write_response res c = record c { writing = some res; begun = (res, c.shut) ∷ c.begun }

-- The handler of async_read, with whether a shutdown succeeds.
unfoldable pub on_read : ReadResult → Bool → Connection → Connection
unfolding shutdown_send write_response
on_read end_of_stream done c = shutdown_send done (record c { reading = false })
on_read read_error done c = record c { reading = false }
on_read (request_read res) done c = write_response res (record c { reading = false })

-- The handler of async_write. The shutdown sets ec anew, so that the error of the write is not
-- looked at; `again` is whether a second shutdown succeeds.
unfoldable pub on_written : Response → Bool → Bool → Connection → Connection
unfolding do_read shutdown_send
on_written res done again c =
    if done && res.keep_alive
    then do_read (shutdown_send done (record c { writing = none }))
    else shutdown_send again (shutdown_send done (record c { writing = none }))

-- Run() on a new connection
unfoldable pub start : Connection
unfolding do_read
start = do_read (record { shut = false; reading = false; writing = none; begun = [] })

-- A handler is called once for each operation that was started.
pub data Runs : Connection → Type 0 where
  starts : Runs start
  reads :
      {c : Connection} (r : ReadResult) (done : Bool)
      → c.reading ≡ true
      → Runs c
      → Runs (on_read r done c)
  writes :
      {c : Connection} (res : Response) (done again : Bool)
      → c.writing ≡ some res
      → Runs c
      → Runs (on_written res done again c)

-- How many responses were begun with the sending side open.
unfoldable pub sendable : List (Response × Bool) → ℕ
sendable [] = 0
sendable ((res, shut) ∷ rs) = if shut then sendable rs else suc (sendable rs)

record Inv (c : Connection) : Type 0 where
  pub once : sendable c.begun ≤ 1
  pub first : (c.shut ≡ true) ⊎ ((c.reading ≡ false) ⊎ (sendable c.begun ≡ 0))

Runs-Inv : {c : Connection} → Runs c → Inv c
unfolding start on_read on_written sendable
Runs-Inv starts = ground arith
Runs-Inv (reads {c} end_of_stream done p r) = let v = Runs-Inv r in ground arith
Runs-Inv (reads {c} read_error done p r) = let v = Runs-Inv r in ground arith
Runs-Inv (reads {c} (request_read res) done p r) = let v = Runs-Inv r in ground arith
Runs-Inv (writes {c} res done again p r) = let v = Runs-Inv r in ground arith

-- In every order of completions at most one response of a connection is begun while it can still be
-- sent, whatever the keep-alive of the requests: a connection that reads again after that response
-- has its sending side shut.
pub one_response :
    {c : Connection}
    → Runs c
    → (sendable c.begun ≤ 1) × ((c.shut ≡ true) ⊎ ((c.reading ≡ false) ⊎ (sendable c.begun ≡ 0)))
one_response r = let v = Runs-Inv r in (v.once, v.first)
