-- ===== src/DbPool/Fallback.antt =====
-- The two pools of src/common/db_pool.cpp together, with the fallback of reads to the master.
use my_tiny_im.Base.{
  count, ℕ, ◌≤◌, ◌≡◌, Bool, true, false, Option, none, some, List, [], ◌∷◌, ◌++◌, length, is_nil,
  arith, Bool-cases, inl, inr,
}
use my_tiny_im.Base.Text.{Text}
use my_tiny_im.DbPool.{
  Answers, Got, release, DbPool, init, get_write_connection, wake_write, get_read_connection,
  wake_read,
}
use my_tiny_im.DbPool.Lease.{
  conns, held, IsFresh, Uses, starts, gets, wakes, releases, IsSound, Uses-IsSound,
}

-- Who holds what a call for reading gives, by whether the master served it.
abbrev pub reader : Bool → Got → List ℕ × List ℕ → List ℕ × List ℕ
reader true g (om, os) = (held g om, os)
reader false g (om, os) = (om, held g os)

-- New addresses are new to both pools' queues and callers, as far as the call may use them.
abbrev pub BothFresh : Answers → DbPool → List ℕ → List ℕ → Type 0
BothFresh a d om os = IsFresh a d.master om × IsFresh a d.slave os

-- The histories of the two pools, with what is held of the master and of the slaves; a connection
-- is released into the pool that it came from.
pub data Runs : DbPool → List ℕ × List ℕ → Type 0 where
  begins :
      (max_conns : ℕ) (hosts : List Text) (first second : Option ℕ) (slaves : List (Option ℕ))
      → ((c : ℕ) → count c (conns (first ∷ second ∷ [])) ≤ 1)
      → ((c : ℕ) → count c (conns slaves) ≤ 1)
      → length slaves ≡ length hosts
      → Runs (init max_conns hosts first second slaves) ([], [])
  writes :
      {d : DbPool} {om os : List ℕ} (a : Answers)
      → BothFresh a d om os
      → Runs d (om, os)
      → Runs (get_write_connection a d).1 (held (get_write_connection a d).0 om, os)
  write_wakes :
      {d : DbPool} {om os : List ℕ} (a : Answers)
      → BothFresh a d om os
      → Runs d (om, os)
      → Runs (wake_write a d).1 (held (wake_write a d).0 om, os)
  reads :
      {d : DbPool} {om os : List ℕ} (a : Answers)
      → BothFresh a d om os
      → Runs d (om, os)
      → Runs
          (get_read_connection a d).1
          (reader (is_nil d.slave_hosts) (get_read_connection a d).0 (om, os))
  read_wakes :
      {d : DbPool} {om os : List ℕ} (a : Answers)
      → BothFresh a d om os
      → Runs d (om, os)
      → Runs (wake_read a d).1 (reader (is_nil d.slave.queue) (wake_read a d).0 (om, os))
  master_releases :
      {d : DbPool} {os : List ℕ} (before : List ℕ) (c : ℕ) (after : List ℕ)
      → Runs d (before ++ c ∷ after, os)
      → Runs (record d { master = release c d.master }) (before ++ after, os)
  slave_releases :
      {d : DbPool} {om : List ℕ} (before : List ℕ) (c : ℕ) (after : List ℕ)
      → Runs d (om, before ++ c ∷ after)
      → Runs (record d { slave = release c d.slave }) (om, before ++ after)

-- Both pools, each with its own histories; the slaves' pool starts with one connection a host.
abbrev pub BothUsed : DbPool → List ℕ × List ℕ → Type 0
BothUsed d o = Uses 2 d.master o.0 × Uses (length d.slave_hosts) d.slave o.1

length-conns : (made : List (Option ℕ)) → length (conns made) ≤ length made
unfolding conns
length-conns [] = omega arith
length-conns (none ∷ made) = omega (arith, length-conns made)
length-conns (some c ∷ made) = omega (arith, length-conns made)

BothUsed-reads :
    (d : DbPool) (om os : List ℕ) (a : Answers)
    → BothFresh a d om os
    → BothUsed d (om, os)
    → BothUsed
        (get_read_connection a d).1
        (reader (is_nil d.slave_hosts) (get_read_connection a d).0 (om, os))
unfolding get_read_connection get_write_connection
BothUsed-reads d om os a f (m, s) = elim (Bool-cases (is_nil d.slave_hosts)) [
  | inl e ↦ rw e (gets a f.0 m, s)
  | inr e ↦ rw e (m, gets a f.1 s)
]

BothUsed-read_wakes :
    (d : DbPool) (om os : List ℕ) (a : Answers)
    → BothFresh a d om os
    → BothUsed d (om, os)
    → BothUsed (wake_read a d).1 (reader (is_nil d.slave.queue) (wake_read a d).0 (om, os))
unfolding wake_read get_write_connection
BothUsed-read_wakes d om os a f (m, s) = elim (Bool-cases (is_nil d.slave.queue)) [
  | inl e ↦ rw e (gets a f.0 m, s)
  | inr e ↦ rw e (m, wakes a f.1 s)
]

Runs-BothUsed : {d : DbPool} {o : List ℕ × List ℕ} → Runs d o → BothUsed d o
unfolding init get_write_connection wake_write
Runs-BothUsed (begins max_conns hosts first second slaves d e l) = (
  starts max_conns (first ∷ second ∷ []) d (omega (arith, length-conns (first ∷ second ∷ []))),
  starts max_conns slaves e (omega (arith, length-conns slaves, l)),
)
Runs-BothUsed (writes a f r) = let (m, s) = Runs-BothUsed r in (gets a f.0 m, s)
Runs-BothUsed (write_wakes a f r) = let (m, s) = Runs-BothUsed r in (wakes a f.0 m, s)
Runs-BothUsed (reads {d} {om} {os} a f r) = BothUsed-reads d om os a f (Runs-BothUsed r)
Runs-BothUsed (read_wakes {d} {om} {os} a f r) = BothUsed-read_wakes d om os a f (Runs-BothUsed r)
Runs-BothUsed (master_releases before c after r) =
    let (m, s) = Runs-BothUsed r in (releases before c after m, s)
Runs-BothUsed (slave_releases before c after r) =
    let (m, s) = Runs-BothUsed r in (m, releases before c after s)

-- Whatever calls for writing and for reading are made, waits and falls back to the master included,
-- each of the two pools is in a history of its own, so that it is sound: its connections are idle
-- or with one caller, and its counter counts them.
pub Runs-IsSound :
    {d : DbPool} {o : List ℕ × List ℕ}
    → Runs d o
    → IsSound 2 d.master o.0 × IsSound (length d.slave_hosts) d.slave o.1
Runs-IsSound r = let (m, s) = Runs-BothUsed r in (Uses-IsSound m, Uses-IsSound s)
