-- ===== src/Tests/DbPool.antt =====
-- Runs of the pool of database connections.
use my_tiny_im.Base.{count, ℕ, ◌≤◌, refl, true, none, some, [], ◌∷◌, arith}
use my_tiny_im.DbPool.{
  Pool, Answers, DbPool, empty_pool, init_conns, init, get_start, get_write_connection,
  get_read_connection,
}
use my_tiny_im.DbPool.Lease.{conns, held, IsSound, Uses, starts, gets, Uses-IsSound}
use my_tiny_im.DbPool.Fallback.{begins, reads, Runs-IsSound}

-- Nothing can be made, and what is there is alive.
abbrev nothing_new : Answers
nothing_new = record { created = none; alive = true; replaced = none }

-- A pool of at most one connection, which starts with that one, and then lends it.
abbrev one : Pool
one = init_conns (empty_pool 1) (some 101 ∷ [])

one_count : (c : ℕ) → count c (conns (some 101 ∷ [])) ≤ 1
unfolding conns
one_count c = ground arith

one_used : Uses 1 one []
unfolding conns
one_used = starts 1 (some 101 ∷ []) one_count (omega arith)

one_lent : Uses 1 (get_start nothing_new one).1 (held (get_start nothing_new one).0 [])
one_lent = gets nothing_new (tt, tt) one_used

Uses-IsSound_example :
    IsSound 1 (get_start nothing_new one).1 (held (get_start nothing_new one).0 [])
Uses-IsSound_example = Uses-IsSound one_lent

-- Without slaves.
abbrev master_only : DbPool
master_only = init 4 [] (some 101) none []

no_duplicate : (c : ℕ) → count c (conns (some 101 ∷ none ∷ [])) ≤ 1
unfolding conns
no_duplicate c = ground arith

none_made : (c : ℕ) → count c (conns []) ≤ 1
unfolding conns
none_made c = omega arith

Runs-IsSound_example :
    IsSound 2
      (get_read_connection nothing_new master_only).1.master
      (held (get_read_connection nothing_new master_only).0 [])
    × IsSound 0 (get_read_connection nothing_new master_only).1.slave []
unfolding held init get_read_connection get_write_connection
Runs-IsSound_example = Runs-IsSound (
    reads nothing_new ((tt, tt), (tt, tt))
      (begins 4 [] (some 101) none [] no_duplicate none_made refl))
