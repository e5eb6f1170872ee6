-- ===== src/DbPool/Lease.antt =====
-- One of the two pools of src/common/db_pool.cpp, over its histories: the connections that are idle
-- and the ones with callers, and the counter.
use mathlib.Core.Path.{subst}
use mathlib.Core.List.{append_assoc, append-nil}
use my_tiny_im.Base.{
  count, count-append, ℕ, suc, ◌+◌, ◌≤◌, ◌≡◌, sym, ap, ◌∙◌, ◌⊎◌, inl, inr, Bool, true, false,
  Option, none, some, List, [], ◌∷◌, ◌++◌, length, length-append, ltb, ==_iff, arith, Bool-cases,
}
use my_tiny_im.DbPool.{
  Pool, Answers, Got, lent, null, waiting, init_conns, empty_pool, get_start, get_wake, release,
  add_created, take_front, front_or_wait, lazy_create, replace,
}

-- The connections among some answers.
unfoldable pub conns : List (Option ℕ) → List ℕ
conns [] = []
conns (none ∷ made) = conns made
conns (some c ∷ made) = c ∷ conns made

-- What the callers hold after a call.
unfoldable pub held : Got → List ℕ → List ℕ
held (lent c) out = c ∷ out
held null out = out
held waiting out = out

abbrev pub IsNew : Option ℕ → List ℕ → List ℕ → Type 0
IsNew none queue out = Unit
IsNew (some c) queue out = (count c queue ≡ 0) × (count c out ≡ 0)

abbrev pub rest_of : List ℕ → List ℕ
rest_of [] = []
rest_of (c ∷ q) = q

-- A new connection has the address of none that is open; one that replaces another comes when that
-- one is closed, and may have its address.
abbrev pub IsFresh : Answers → Pool → List ℕ → Type 0
IsFresh a p out = IsNew a.created p.queue out × IsNew a.replaced (rest_of p.queue) out

-- The histories of a pool that starts with at most `first` connections, with the connections that
-- its callers hold.
pub data Uses (first : ℕ) : Pool → List ℕ → Type 0 where
  starts :
      (max_conns : ℕ) (made : List (Option ℕ))
      → ((c : ℕ) → count c (conns made) ≤ 1)
      → length (conns made) ≤ first
      → Uses first (init_conns (empty_pool max_conns) made) []
  gets :
      {p : Pool} {out : List ℕ} (a : Answers)
      → IsFresh a p out
      → Uses first p out
      → Uses first (get_start a p).1 (held (get_start a p).0 out)
  wakes :
      {p : Pool} {out : List ℕ} (a : Answers)
      → IsFresh a p out
      → Uses first p out
      → Uses first (get_wake a p).1 (held (get_wake a p).0 out)
  releases :
      {p : Pool} (before : List ℕ) (c : ℕ) (after : List ℕ)
      → Uses first p (before ++ c ∷ after)
      → Uses first (release c p) (before ++ after)

-- `first` is the number of connections made at the start.
pub record IsSound (first : ℕ) (p : Pool) (out : List ℕ) : Type 0 where
  pub distinct : (c : ℕ) → count c p.queue + count c out ≤ 1
  pub counted : p.active_count ≡ length p.queue + length out
  pub bounded : (p.active_count ≤ first) ⊎ (p.active_count ≤ p.max_conns)

abbrev pool : List ℕ → ℕ → ℕ → Pool
pool q n m = record { queue = q; active_count = n; max_conns = m }

abbrev answers : Option ℕ → Bool → Option ℕ → Answers
answers l b r = record { created = l; alive = b; replaced = r }

module _ (first : ℕ) where
  take_front-IsSound :
      (l : Option ℕ) (b : Bool) (r : Option ℕ) (c : ℕ) (q : List ℕ) (n m : ℕ) (out : List ℕ)
      → IsNew r q out
      → IsSound first (pool (c ∷ q) n m) out
      → IsSound first
          (take_front (answers l b r) c q (pool (c ∷ q) n m)).1
          (held (take_front (answers l b r) c q (pool (c ∷ q) n m)).0 out)
  unfolding take_front held
  take_front-IsSound l true r c q n m out f v = record {
    distinct = λ x. ground (arith, v.distinct x);
    counted = omega (arith, v.counted);
    bounded = v.bounded;
  }
  take_front-IsSound l false none c q n m out f v = record {
    distinct = λ x. ground (arith, v.distinct x);
    counted = omega (arith, v.counted);
    bounded = ground (arith, v.bounded);
  }
  take_front-IsSound l false (some d) c q n m out f v = record {
    distinct = λ x. ground (arith, v.distinct x, v.distinct d, f.0, f.1, ==_iff x d);
    counted = omega (arith, v.counted);
    bounded = v.bounded;
  }

  front_or_wait-IsSound :
      (l : Option ℕ) (b : Bool) (r : Option ℕ) (q : List ℕ) (n m : ℕ) (out : List ℕ)
      → IsNew r (rest_of q) out
      → IsSound first (pool q n m) out
      → IsSound first
          (front_or_wait (answers l b r) q (pool q n m)).1
          (held (front_or_wait (answers l b r) q (pool q n m)).0 out)
  unfolding front_or_wait held
  front_or_wait-IsSound l b r [] n m out f v = v
  front_or_wait-IsSound l b r (c ∷ q) n m out f v = take_front-IsSound l b r c q n m out f v

  get_wake-IsSound :
      (l : Option ℕ) (b : Bool) (r : Option ℕ) (q : List ℕ) (n m : ℕ) (out : List ℕ)
      → IsNew r (rest_of q) out
      → IsSound first (pool q n m) out
      → IsSound first
          (get_wake (answers l b r) (pool q n m)).1
          (held (get_wake (answers l b r) (pool q n m)).0 out)
  unfolding get_wake held
  get_wake-IsSound l b r [] n m out f v = v
  get_wake-IsSound l b r (c ∷ q) n m out f v = take_front-IsSound l b r c q n m out f v

  lazy_create-IsSound :
      (l : Option ℕ) (n m : ℕ) (out : List ℕ)
      → IsNew l [] out
      → ltb n m ≡ true
      → IsSound first (pool [] n m) out
      → IsSound first (lazy_create l (pool [] n m)).1 (held (lazy_create l (pool [] n m)).0 out)
  unfolding lazy_create held
  lazy_create-IsSound none n m out f e v = v
  lazy_create-IsSound (some d) n m out f e v = record {
    distinct = λ x. ground (arith, v.distinct x, f.1, ==_iff x d);
    counted = omega (arith, v.counted);
    bounded = inr (ground arith);
  }

  get_start-IsSound :
      (l : Option ℕ) (b : Bool) (r : Option ℕ) (q : List ℕ) (n m : ℕ) (out : List ℕ)
      → IsNew l q out
      → IsNew r (rest_of q) out
      → IsSound first (pool q n m) out
      → IsSound first
          (get_start (answers l b r) (pool q n m)).1
          (held (get_start (answers l b r) (pool q n m)).0 out)
  unfolding get_start
  get_start-IsSound l b r (c ∷ q) n m out f g v = front_or_wait-IsSound l b r (c ∷ q) n m out g v
  get_start-IsSound l b r [] n m out f g v = elim (Bool-cases (ltb n m)) [
    | inl e ↦ rw e (lazy_create-IsSound l n m out f e v)
    | inr e ↦ rw e (front_or_wait-IsSound l b r [] n m out g v)
  ]

  release-IsSound :
      (before : List ℕ) (c : ℕ) (after : List ℕ) (q : List ℕ) (n m : ℕ)
      → IsSound first (pool q n m) (before ++ c ∷ after)
      → IsSound first (release c (pool q n m)) (before ++ after)
  unfolding release
  release-IsSound before c after q n m v = record {
    distinct = λ x. ground (
      arith,
      v.distinct x,
      count-append x before (c ∷ after),
      count-append x before after,
      count-append x q (c ∷ []),
    );
    counted = omega (
      arith,
      v.counted,
      length-append before (c ∷ after),
      length-append before after,
      length-append q (c ∷ []),
    );
    bounded = v.bounded;
  }

init_conns-shape :
    (q : List ℕ) (n m : ℕ) (made : List (Option ℕ))
    → init_conns (pool q n m) made ≡ pool (q ++ conns made) (n + length (conns made)) m
unfolding init_conns conns add_created
init_conns-shape q n m [] = ground (arith, append-nil q)
init_conns-shape q n m (none ∷ made) = init_conns-shape q n m made
init_conns-shape q n m (some c ∷ made) =
    init_conns-shape (q ++ c ∷ []) (suc n) m made
    ∙ ground (arith, append_assoc q (c ∷ []) (conns made))

init_conns-IsSound :
    (first max_conns : ℕ) (made : List (Option ℕ))
    → ((c : ℕ) → count c (conns made) ≤ 1)
    → length (conns made) ≤ first
    → IsSound first (init_conns (empty_pool max_conns) made) []
init_conns-IsSound first max_conns made d b =
    subst (λ p. IsSound first p []) (sym (init_conns-shape [] 0 max_conns made))
      (record {
        distinct = λ c. ground (arith, d c);
        counted = omega arith;
        bounded = inl (omega (arith, b));
      })

-- In every history of a pool, where a new connection never has the address of an open one, each
-- connection is idle or with one caller, never both nor twice; the counter is the number of idle
-- connections and of those with callers; and it is at most the number of connections made at the
-- start, or at most max_conns.
pub Uses-IsSound : {first : ℕ} {p : Pool} {out : List ℕ} → Uses first p out → IsSound first p out
Uses-IsSound {first} (starts max_conns made d b) = init_conns-IsSound first max_conns made d b
Uses-IsSound {first} (gets {p} {out} a f r) =
    get_start-IsSound first a.created a.alive a.replaced p.queue p.active_count p.max_conns out f.0
      f.1 (Uses-IsSound r)
Uses-IsSound {first} (wakes {p} {out} a f r) =
    get_wake-IsSound first a.created a.alive a.replaced p.queue p.active_count p.max_conns out f.1
      (Uses-IsSound r)
Uses-IsSound {first} (releases {p} before c after r) =
    release-IsSound first before c after p.queue p.active_count p.max_conns (Uses-IsSound r)

waits_go :
    (l : Option ℕ) (b : Bool) (r : Option ℕ) (q : List ℕ) (n m : ℕ)
    → (get_start (answers l b r) (pool q n m)).0 ≡ waiting
    → (q ≡ []) × ((get_start (answers l b r) (pool q n m)).1 ≡ pool q n m) × ((m ≤ n) ⊎ (l ≡ none))
unfolding get_start lazy_create front_or_wait take_front replace
waits_go l true r (c ∷ q) n m e = cc
waits_go l false none (c ∷ q) n m e = cc
waits_go l false (some d) (c ∷ q) n m e = cc
waits_go none b r [] n m e = ground arith
waits_go (some d) b r [] n m e = ground arith

-- In every history of a pool, a call that waits has changed nothing, and every open connection is
-- with a caller; and the counter has reached max_conns, or a new connection could not be made.
pub waits_when_lent :
    (a : Answers) {first : ℕ} {p : Pool} {out : List ℕ}
    → Uses first p out
    → (get_start a p).0 ≡ waiting
    → ((get_start a p).1 ≡ p)
      × (p.active_count ≡ length out)
      × ((p.max_conns ≤ p.active_count) ⊎ (a.created ≡ none))
waits_when_lent a {p = p} r e =
    let (q, same, why) =
      waits_go a.created a.alive a.replaced p.queue p.active_count p.max_conns e in
    (same, omega (arith, (Uses-IsSound r).counted, ap length q), why)
