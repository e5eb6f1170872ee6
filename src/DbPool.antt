-- ===== src/DbPool.antt =====
-- The pool of MySQL connections, src/common/db_pool.cpp and db_pool.h. A connection is its address.
-- A method runs under the mutex of a pool up to where it waits on the condition variable, and from
-- there to its end; what CreateConnection and mysql_ping give is passed in.
pub mod Lease
pub mod Fallback
pub mod Close
use my_tiny_im.Base.{
  ℕ, zero, suc, ◌+◌, ◌-◌, Bool, true, false, ◌&&◌, Option, none, some, List, [], ◌∷◌, ◌++◌, is_nil,
  ltb, if◌then◌else◌,
}
use my_tiny_im.Base.Text.{Text}

-- The queue and the counter of the master, or of the slaves.
pub record Pool : Type 0 where
  pub queue : List ℕ
  pub active_count : ℕ
  pub max_conns : ℕ

-- What the outside answers to a method: the connection made lazily, whether the connection at the
-- front answers the ping, and the connection made to replace it. `none` is a null pointer.
pub record Answers : Type 0 where
  pub created : Option ℕ
  pub alive : Bool
  pub replaced : Option ℕ

-- A connection; a null pointer; or the method waits.
pub data Got : Type 0 where
  lent : ℕ → Got
  null : Got
  waiting : Got

-- One round of the loops of Init.
add_created : Pool → Option ℕ → Pool
add_created p none = p
add_created p (some c) = record p { queue = p.queue ++ c ∷ []; active_count = suc p.active_count }

-- The loops of Init, over what CreateConnection gave for each host.
unfoldable pub init_conns : Pool → List (Option ℕ) → Pool
unfolding add_created
init_conns p [] = p
init_conns p (made ∷ more) = init_conns (add_created p made) more

abbrev pub empty_pool : ℕ → Pool
empty_pool max_conns = record { queue = []; active_count = 0; max_conns = max_conns }

lazy_create : Option ℕ → Pool → Got × Pool
lazy_create none p = (waiting, p)
lazy_create (some c) p = (lent c, record p { active_count = suc p.active_count })

-- A lost connection is closed and replaced; the counter goes down if that fails.
replace : Option ℕ → Pool → Got × Pool
replace none p = (null, record p { active_count = p.active_count - 1 })
replace (some c) p = (lent c, p)

-- The connection at the front, with its ping.
take_front : Answers → ℕ → List ℕ → Pool → Got × Pool
unfolding replace
take_front a conn rest p =
    let p' = record p { queue = rest } in if a.alive then (lent conn, p') else replace a.replaced p'

-- After the lazy creation: the front of the queue, or the wait.
front_or_wait : Answers → List ℕ → Pool → Got × Pool
unfolding take_front
front_or_wait a [] p = (waiting, p)
front_or_wait a (conn ∷ rest) p = take_front a conn rest p

-- A call up to its wait.
unfoldable pub get_start : Answers → Pool → Got × Pool
unfolding lazy_create front_or_wait
get_start a p =
    if is_nil p.queue && ltb p.active_count p.max_conns
    then lazy_create a.created p
    else front_or_wait a p.queue p

-- The end of the wait: by its time, if the queue is still empty.
front_or_null : Answers → List ℕ → Pool → Got × Pool
unfolding take_front
front_or_null a [] p = (null, p)
front_or_null a (conn ∷ rest) p = take_front a conn rest p

unfoldable pub get_wake : Answers → Pool → Got × Pool
unfolding front_or_null
get_wake a p = front_or_null a p.queue p

-- ReleaseMasterConnection and ReleaseSlaveConnection, of a connection that is not null.
unfoldable pub release : ℕ → Pool → Pool
release conn p = record p { queue = p.queue ++ conn ∷ [] }

pub record DbPool : Type 0 where
  pub master : Pool
  pub slave : Pool
  pub slave_hosts : List Text

-- Init: two connections to the master, and one to each slave.
unfoldable pub init : ℕ → List Text → Option ℕ → Option ℕ → List (Option ℕ) → DbPool
init max_conns slave_hosts first second slaves = record {
  master = init_conns (empty_pool max_conns) (first ∷ second ∷ []);
  slave = init_conns (empty_pool max_conns) slaves;
  slave_hosts = slave_hosts;
}

-- A result of one of the two pools, put back into the pair.
abbrev on_master : DbPool → Got × Pool → Got × DbPool
on_master d (g, p) = (g, record d { master = p })

abbrev on_slave : DbPool → Got × Pool → Got × DbPool
on_slave d (g, p) = (g, record d { slave = p })

unfoldable pub get_write_connection : Answers → DbPool → Got × DbPool
get_write_connection a d = on_master d (get_start a d.master)

unfoldable pub wake_write : Answers → DbPool → Got × DbPool
wake_write a d = on_master d (get_wake a d.master)

-- GetReadConnection; without slaves it is GetWriteConnection.
unfoldable pub get_read_connection : Answers → DbPool → Got × DbPool
get_read_connection a d =
    if is_nil d.slave_hosts then get_write_connection a d else on_slave d (get_start a d.slave)

-- The end of its wait: after the time it falls back to GetWriteConnection.
unfoldable pub wake_read : Answers → DbPool → Got × DbPool
wake_read a d =
    if is_nil d.slave.queue then get_write_connection a d else on_slave d (get_wake a d.slave)

-- A loop of ~DBPool: the idle connections are closed in order, and the counter is left as it is.
unfoldable pub close_idle : Pool → List ℕ × Pool
close_idle p = (p.queue, record p { queue = [] })

-- ~DBPool: what is closed, and the pools after it.
unfoldable pub close_pools : DbPool → List ℕ × DbPool
close_pools d =
    let master = close_idle d.master in
    let slave = close_idle d.slave in
    (master.0 ++ slave.0, record d { master = master.1; slave = slave.1 })
