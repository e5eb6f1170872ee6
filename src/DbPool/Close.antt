-- ===== src/DbPool/Close.antt =====
-- The end of the pools, ~DBPool in src/common/db_pool.cpp.
use my_tiny_im.Base.{ℕ, ◌+◌, ◌≤◌, ◌≡◌, refl, List, [], length, count}
use my_tiny_im.DbPool.{Pool, close_idle}
use my_tiny_im.DbPool.Lease.{Uses, Uses-IsSound}

-- At the end of any history of a pool no connection that is with a caller is closed, none is closed
-- twice, and every open one is closed or with a caller.
pub closes_only_idle :
    {first : ℕ} {p : Pool} {out : List ℕ}
    → Uses first p out
    → ((c : ℕ) → count c (close_idle p).0 + count c out ≤ 1)
      × (p.active_count ≡ length (close_idle p).0 + length out)
      × ((close_idle p).1.queue ≡ [])
unfolding close_idle
closes_only_idle u = ((Uses-IsSound u).distinct, (Uses-IsSound u).counted, refl)
