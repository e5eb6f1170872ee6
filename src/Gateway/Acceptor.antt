-- ===== src/Gateway/Acceptor.antt =====
-- The acceptors of the two HTTP servers: Server of src/gateway/server.h, and DoAccept of
-- src/dispatch/main.cpp, which does the same.
use my_tiny_im.Base.{ℕ, suc, ◌+◌, ◌≡◌, Bool, true, false, ◌&&◌, List, [], ◌∷◌, length, arith}

-- Whether the socket listens and an accept is under way; how many connections were handed to a
-- session, and how many accepts failed.
pub record Server : Type 0 where
  pub listening : Bool
  pub accepting : Bool
  pub sessions : ℕ
  pub failures : ℕ

-- The constructor, with whether open, bind and listen succeed; it returns early where one fails.
unfoldable pub open_server : Bool → Bool → Bool → Server
open_server opened bound listens = record {
  listening = opened && bound && listens;
  accepting = false;
  sessions = 0;
  failures = 0;
}

unfoldable pub do_accept : Server → Server
do_accept s = record s { accepting = true }

-- OnAccept, with whether there is a connection.
unfoldable pub on_accept_done : Bool → Server → Server
unfolding do_accept
on_accept_done true s = do_accept (record s { sessions = suc s.sessions })
on_accept_done false s = do_accept (record s { failures = suc s.failures })

-- Run(), and the completions of its accepts in order.
unfoldable pub serve : List Bool → Server → Server
unfolding do_accept
serve [] s = do_accept s
serve (c ∷ cs) s = serve cs (on_accept_done c (do_accept s))

abbrev pub count_true : List Bool → ℕ
count_true [] = 0
count_true (true ∷ cs) = suc (count_true cs)
count_true (false ∷ cs) = count_true cs

-- However the accepts complete, every connection gets a session, the number of failures and sessions
-- is that of the completions, and the next accept is under way: also where the socket could not be
-- bound, so that every accept fails at once.
pub serve_goes_on :
    (cs : List Bool) (s : Server)
    → ((serve cs s).accepting ≡ true)
      × ((serve cs s).sessions ≡ s.sessions + count_true cs)
      × ((serve cs s).sessions + (serve cs s).failures ≡ s.sessions + s.failures + length cs)
      × ((serve cs s).listening ≡ s.listening)
unfolding serve on_accept_done
serve_goes_on [] s = ground arith
serve_goes_on (true ∷ cs) s = ground (arith, serve_goes_on cs (on_accept_done true (do_accept s)))
serve_goes_on (false ∷ cs) s = ground (arith, serve_goes_on cs (on_accept_done false (do_accept s)))
