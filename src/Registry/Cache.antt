-- ===== src/Registry/Cache.antt =====
-- The cache of src/common/service_registry.cpp, as it is refreshed and as Discover uses it.
use my_tiny_im.Base.{
  ℕ, zero, suc, ◌<◌, ◌≡◌, refl, true, false, Option, some, List, [], ◌∷◌, ◌++◌, length, leb, arith,
  Bool-cases, inl, inr, All,
}
use mathlib.Core.Path.{subst}
use my_tiny_im.Base.Text.{Text, bytes, is_empty, text_eq_self}
use my_tiny_im.Base.Eq.{text_Eq}
use my_tiny_im.Base.Map.{Map, lookup, insert, All-insert, All-lookup}
use my_tiny_im.Services.{RedisReply, History, Services, ok, M}
use my_tiny_im.Services.Redis.{with_conn, keys, get}
use my_tiny_im.Services.Trace.{with_conn-Emits_of}
use my_tiny_im.Registry.{
  Registry, contains_text, observe, nth, rr_pick, round_robin, values_of, query_addresses,
  update_gateways, refresh_all, refresh_cache, service_pattern, select, discover, index_or_zero,
}

-- Ends with a value that satisfies a predicate.
pub record Returns {A : Type 0} (P : A → Type 0) (m : M A) (h : History) : Type 0 where
  pub value : A
  pub later : History
  pub result : m h ≡ (ok value, later)
  pub holds : P value

abbrev pub IsAddress : Text → Type 0
IsAddress a = is_empty a ≡ false

module _ (sv : Services) where
  with_conn-Returns :
      {A : Type 0} (args : List Text) (default : A) (read : Option RedisReply → A) (h : History)
      → Returns (λ _. Unit {0}) (with_conn sv args default read) h
  with_conn-Returns args default read h =
      let a =
        (with_conn-Emits_of {P = λ _. Unit {0}} sv args default read (λ _. tt) (λ _. tt)).at h in
      record { value = a.value; later = a.new ++ h; result = a.result; holds = tt }

  get-Returns : (key : Text) (h : History) → Returns (λ _. Unit {0}) (get sv key) h
  unfolding get
  get-Returns key h = with_conn-Returns _ _ _ h

  keys-Returns : (key : Text) (h : History) → Returns (λ _. Unit {0}) (keys sv key) h
  unfolding keys
  keys-Returns key h = with_conn-Returns _ _ _ h

  values_of-Returns : (ks : List Text) (h : History) → Returns (All IsAddress) (values_of sv ks) h
  unfolding values_of
  values_of-Returns [] h = record { value = []; later = h; result = refl; holds = tt }
  values_of-Returns (key ∷ ks) h =
      let g = get-Returns key h in
      let v = values_of-Returns ks g.later in
      elim (Bool-cases (is_empty g.value)) [
        | inl e ↦ record {
          value = v.value;
          later = v.later;
          result = rw (g.result, v.result, e);
          holds = v.holds;
        }
        | inr e ↦ record {
          value = g.value ∷ v.value;
          later = v.later;
          result = rw (g.result, v.result, e);
          holds = (e, v.holds);
        }
      ]

  query_addresses-Returns :
      (p : Text) (h : History) → Returns (All IsAddress) (query_addresses sv p) h
  unfolding query_addresses
  query_addresses-Returns p h =
      let k = keys-Returns p h in
      let v = values_of-Returns k.value k.later in
      record { value = v.value; later = v.later; result = rw (k.result, v.result); holds = v.holds }

  refresh_all-Returns :
      (targets : List Text) (cache : Map Text (List Text)) (h : History)
      → All (λ x. All IsAddress x.1) cache
      → Returns (All (λ x. All IsAddress x.1)) (refresh_all sv targets cache) h
  unfolding refresh_all
  refresh_all-Returns [] cache h a = record { value = cache; later = h; result = refl; holds = a }
  refresh_all-Returns (s ∷ targets) cache h a =
      let q = query_addresses-Returns (service_pattern s) h in
      let r =
        refresh_all-Returns targets (insert s q.value cache) q.later
          (All-insert (All IsAddress) s q.value cache q.holds a) in
      record { value = r.value; later = r.later; result = rw (q.result, r.result); holds = r.holds }

-- Every address that the cache holds is not empty.
abbrev pub IsCache : Registry → Type 0
IsCache r = All (λ x. All IsAddress x.1) r.cache

-- Refreshing a well-formed cache ends with a value, whatever Redis answers, changes only the cache,
-- and keeps out of it the empty addresses that expired keys give.
pub refresh_cache-IsCache :
    (sv : Services) (r : Registry) (h : History)
    → IsCache r
    → (r' : Registry) × (later : History) × (refresh_cache sv r h ≡ (ok r', later))
      × IsCache r'
      × (r'.registered ≡ r.registered)
      × (r'.observed_services ≡ r.observed_services)
      × (r'.rr_index ≡ r.rr_index)
unfolding refresh_cache
refresh_cache-IsCache sv r h c =
    let a = refresh_all-Returns sv r.observed_services r.cache h c in
    (record r { cache = a.value }, a.later, rw a.result refl, a.holds, refl, refl, refl)

pub nth-All : (P : Text → Type 0) (xs : List Text) (i : ℕ) → All P xs → i < length xs → P (nth xs i)
nth-All P [] i a h = absurd (omega arith)
nth-All P (x ∷ xs) zero a h = a.0
nth-All P (x ∷ xs) (suc i) a h = nth-All P xs i a.1 (omega arith)

rr_pick-All :
    (P : Text → Type 0) (x : Text) (xs : List Text) (i : ℕ)
    → All P (x ∷ xs)
    → P (rr_pick (x ∷ xs) i).0
unfolding rr_pick
rr_pick-All P x xs i a = elim (Bool-cases (leb (length (x ∷ xs)) i)) [
  | inl e ↦ rw e a.0
  | inr e ↦ rw e (nth-All P (x ∷ xs) i a (ground arith))
]

-- For a service with addresses in a well-formed cache, Discover calls nothing, changes only the
-- round robin's indices, and gives an address that is not empty, whatever the index was.
pub discover_cached :
    (sv : Services) (s : Text) (r : Registry) (h : History) (address : Text) (more : List Text)
    → IsCache r
    → lookup s r.cache ≡ some (address ∷ more)
    → (chosen : Text) × (rr : Map Text ℕ) × (discover sv s r h
        ≡ (ok (chosen, record r { rr_index = rr }), h))
      × IsAddress chosen
unfolding discover select round_robin
discover_cached sv s r h address more c e = (
  (rr_pick (address ∷ more) (index_or_zero (lookup s r.rr_index))).0,
  insert s (rr_pick (address ∷ more) (index_or_zero (lookup s r.rr_index))).1 r.rr_index,
  rw e,
  rr_pick-All IsAddress address more (index_or_zero (lookup s r.rr_index))
      (All-lookup (All IsAddress) s r.cache (address ∷ more) c e),
)

contains_text-snoc : (s : Text) (ss : List Text) → contains_text s (ss ++ s ∷ []) ≡ true
unfolding contains_text
contains_text-snoc s [] = rw (text_eq_self s)
contains_text-snoc s (t ∷ ss) = ground (arith, contains_text-snoc s ss)

-- Observing a service a second time changes nothing.
pub observe_twice : (s : Text) (r : Registry) → observe s (observe s r) ≡ observe s r
unfolding observe
observe_twice s r = elim (Bool-cases (contains_text s r.observed_services)) [
  | inl e ↦ rw (e, e)
  | inr e ↦ rw (e, contains_text-snoc s r.observed_services)
]

-- Looking for gateways ends with a list of addresses.
pub update_gateways-ends :
    (sv : Services) (h : History)
    → (gateways : List Text) × (later : History) × (update_gateways sv h ≡ (ok gateways, later))
      × All IsAddress gateways
unfolding update_gateways
update_gateways-ends sv h =
    let q = query_addresses-Returns sv (bytes "im:service:gateway:*") h in
    (q.value, q.later, q.result, q.holds)

-- Every address that discovery finds for the dispatch server is one.
pub update_gateways-All :
    (sv : Services) (h later : History) (gateways : List Text)
    → update_gateways sv h ≡ (ok gateways, later)
    → All IsAddress gateways
update_gateways-All sv h later gateways e =
    let (found, end, result, holds) = update_gateways-ends sv h in
    let same : found ≡ gateways = ground arith in subst (All IsAddress) same holds
