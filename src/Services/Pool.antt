-- ===== src/Services/Pool.antt =====
-- The contexts of src/common/redis_client.cpp: GetContext, ReleaseContext, and RedisConn of
-- src/common/redis_client.h around one command.
use my_tiny_im.Base.{
  ℕ, suc, ◌+◌, ◌≤◌, ◌≡◌, refl, Option, none, some, List, [], ◌∷◌, ◌++◌, All, length, length-append,
  count, count-append, ==_iff, arith, if◌then◌else◌, ltb,
}
use mathlib.Core.List.{reverse}

module _ {C : Type 0} where
  -- The block of GetContext under the mutex. The back of pool_ is the head of the list.
  unfoldable pub take_context : List C → Option C × List C
  take_context [] = (none, [])
  take_context (c ∷ pool) = (some c, pool)

  -- The rest of GetContext, without the mutex, with what redisConnect gives: a context without an
  -- error, or nothing.
  unfoldable pub connected : Option C → Option C → Option C
  connected none made = made
  connected (some c) made = some c

  -- GetContext, where nobody else comes between the two parts.
  unfoldable pub get_context : Option C → List C → Option C × List C
  get_context made pool = let taken = take_context pool in (connected taken.0 made, taken.1)

  -- Whether its error is set is not looked at.
  unfoldable pub release_context : Option C → List C → List C
  release_context none pool = pool
  release_context (some c) pool = c ∷ pool

  -- ~RedisClient: the contexts that are freed, in order, and the pool after it.
  unfoldable pub free_contexts : List C → List C × List C
  free_contexts pool = (reverse pool, [])

  abbrev with_context : {A : Type 0} → (C → Option A × C) → Option C → List C → Option A × List C
  with_context exec none pool = (none, release_context none pool)
  with_context exec (some c) pool = ((exec c).0, release_context (some (exec c).1) pool)

  -- RedisConn conn; redisCommand(conn.get(), …); ~RedisConn
  unfoldable pub run_command :
      {A : Type 0} → (C → Option A × C) → Option C → List C → Option A × List C
  run_command exec made pool = let got = get_context made pool in with_context exec got.0 got.1

  -- Commands one after the other, each with what redisConnect would give it.
  unfoldable pub run_commands :
      {A : Type 0} → List ((C → Option A × C) × Option C) → List C → List (Option A) × List C
  run_commands [] pool = ([], pool)
  run_commands ((exec, made) ∷ more) pool =
      let first = run_command exec made pool in
      let rest = run_commands more first.1 in (first.0 ∷ rest.0, rest.1)

-- What the callers hold, with what one of them has got.
abbrev pub held : Option ℕ → List ℕ → List ℕ
held none out = out
held (some c) out = c ∷ out

-- How many contexts there are, and how many callers go on to connect.
abbrev pub one_if_there : Option ℕ → ℕ
one_if_there none = 0
one_if_there (some c) = 1

abbrev pub one_if_none : Option ℕ → ℕ
one_if_none none = 1
one_if_none (some c) = 0

abbrev pub larger : ℕ → ℕ → ℕ
larger a b = if ltb a b then b else a

-- A new context has the address of none that is open.
abbrev pub IsUnused : Option ℕ → List ℕ → List ℕ → Type 0
IsUnused none pool out = Unit
IsUnused (some c) pool out = (count c pool ≡ 0) × (count c out ≡ 0)

-- The histories of the pool: the contexts in it, those that callers hold, how many callers have
-- found it empty and are connecting, how many contexts were made, and the most callers that held a
-- context or were connecting at once. Between the two parts of a GetContext others take and release.
pub data Uses : List ℕ → List ℕ → ℕ → ℕ → ℕ → Type 0 where
  starts : Uses [] [] 0 0 0
  takes :
      {pool out : List ℕ} {connecting total peak : ℕ}
      → Uses pool out connecting total peak
      → Uses
          (take_context pool).1
          (held (take_context pool).0 out)
          (connecting + one_if_none (take_context pool).0)
          total
          (larger peak (1 + length out + connecting))
  connects :
      {pool out : List ℕ} {connecting total peak : ℕ} (made : Option ℕ)
      → IsUnused made pool out
      → Uses pool out (suc connecting) total peak
      → Uses pool
          (held (connected none made) out)
          connecting
          (total + one_if_there (connected none made))
          peak
  releases :
      {pool : List ℕ} {connecting total peak : ℕ} (before : List ℕ) (c : ℕ) (after : List ℕ)
      → Uses pool (before ++ c ∷ after) connecting total peak
      → Uses (release_context (some c) pool) (before ++ after) connecting total peak

record Inv (pool out : List ℕ) (connecting total peak : ℕ) : Type 0 where
  pub distinct : (c : ℕ) → count c pool + count c out ≤ 1
  pub kept : total ≡ length pool + length out
  pub bounded : total + connecting ≤ peak
  pub reached : length out + connecting ≤ peak

takes-Inv :
    (pool out : List ℕ) (connecting total peak : ℕ)
    → Inv pool out connecting total peak
    → Inv
        (take_context pool).1
        (held (take_context pool).0 out)
        (connecting + one_if_none (take_context pool).0)
        total
        (larger peak (1 + length out + connecting))
unfolding take_context
takes-Inv [] out connecting total peak v = record {
  distinct = v.distinct;
  kept = v.kept;
  bounded = ground (arith, v.bounded, v.kept);
  reached = ground (arith, v.reached);
}
takes-Inv (d ∷ pool) out connecting total peak v = record {
  distinct = λ x. ground (arith, v.distinct x);
  kept = omega (arith, v.kept);
  bounded = ground (arith, v.bounded);
  reached = ground (arith, v.reached);
}

connects-Inv :
    (pool out : List ℕ) (connecting total peak : ℕ) (made : Option ℕ)
    → IsUnused made pool out
    → Inv pool out (suc connecting) total peak
    → Inv pool
        (held (connected none made) out)
        connecting
        (total + one_if_there (connected none made))
        peak
unfolding connected
connects-Inv pool out connecting total peak none u v = record {
  distinct = v.distinct;
  kept = omega (arith, v.kept);
  bounded = omega (arith, v.bounded);
  reached = omega (arith, v.reached);
}
connects-Inv pool out connecting total peak (some c) u v = record {
  distinct = λ x. ground (arith, v.distinct x, u.0, u.1, ==_iff x c);
  kept = omega (arith, v.kept);
  bounded = omega (arith, v.bounded);
  reached = omega (arith, v.reached);
}

releases-Inv :
    (pool before : List ℕ) (c : ℕ) (after : List ℕ) (connecting total peak : ℕ)
    → Inv pool (before ++ c ∷ after) connecting total peak
    → Inv (c ∷ pool) (before ++ after) connecting total peak
releases-Inv pool before c after connecting total peak v =
    let longer = length-append before (c ∷ after) in
    let shorter = length-append before after in
    record {
      distinct = λ x.
          ground
            (arith, v.distinct x, count-append x before (c ∷ after), count-append x before after);
      kept = omega (arith, v.kept, longer, shorter);
      bounded = v.bounded;
      reached = omega (arith, v.reached, longer, shorter);
    }

Uses-Inv :
    {pool out : List ℕ} {connecting total peak : ℕ}
    → Uses pool out connecting total peak
    → Inv pool out connecting total peak
unfolding release_context
Uses-Inv starts = record {
  distinct = λ c. omega arith;
  kept = refl;
  bounded = omega arith;
  reached = omega arith;
}
Uses-Inv (takes {pool} {out} {connecting} {total} {peak} h) =
    takes-Inv pool out connecting total peak (Uses-Inv h)
Uses-Inv (connects {pool} {out} {connecting} {total} {peak} made u h) =
    connects-Inv pool out connecting total peak made u (Uses-Inv h)
Uses-Inv (releases {pool} {connecting} {total} {peak} before c after h) =
    releases-Inv pool before c after connecting total peak (Uses-Inv h)

-- In every history of the pool, in which GetContext gives up the mutex before it connects, if a new
-- context has the address of none that is open: no context is with two callers, or with a caller
-- and in the pool; every context that was made is in one of the two places; and those that were
-- made and those that are being made are no more than the callers that have held a context or were
-- connecting at once.
pub contexts_shared_out :
    {pool out : List ℕ} {connecting total peak : ℕ} (c : ℕ)
    → Uses pool out connecting total peak
    → (count c pool + count c out ≤ 1)
      × (total ≡ length pool + length out)
      × (total + connecting ≤ peak)
contexts_shared_out c h = let v = Uses-Inv h in (v.distinct c, v.kept, v.bounded)

-- A context whose connection has failed gives no reply to any command, and stays so.
pub record StaysBroken {C A : Type 0} (IsBroken : C → Type 0) (exec : C → Option A × C)
    : Type 0 where
  pub no_reply : (c : C) → IsBroken c → (exec c).0 ≡ none
  pub still : (c : C) → IsBroken c → IsBroken (exec c).1

abbrev pub AllStayBroken :
    {C A : Type 0} → (C → Type 0) → List ((C → Option A × C) × Option C) → Type 0
AllStayBroken IsBroken commands = All (λ command. StaysBroken IsBroken command.0) commands

-- While the last released context is broken, commands one after the other all get no reply, however
-- many they are and whatever connection could be made for them.
pub broken_context_stays :
    {C A : Type 0} (IsBroken : C → Type 0) (commands : List ((C → Option A × C) × Option C)) (c : C)
    (pool : List C)
    → AllStayBroken IsBroken commands
    → IsBroken c
    → All (λ reply. reply ≡ none) (run_commands commands (c ∷ pool)).0
unfolding run_commands run_command get_context take_context connected release_context
broken_context_stays IsBroken [] c pool a b = tt
broken_context_stays IsBroken ((exec, made) ∷ more) c pool a b =
    (a.0.no_reply c b, broken_context_stays IsBroken more (exec c).1 pool a.1 (a.0.still c b))
