-- ===== src/Registry.antt =====
-- Service discovery through Redis: src/common/service_registry.cpp, and the gateway list of
-- src/dispatch/service_discovery.h. The two threads of the registry repeat `heartbeat` and
-- `refresh_cache`.
pub mod Rotation
pub mod Cache
pub mod Reach
pub mod Keys
pub mod Gateways
pub mod Discovery
use my_tiny_im.Base.{
  ℕ, zero, suc, ◌+◌, ◌%◌, ◌-◌, Bool, true, false, Option, none, some, List, [], ◌∷◌, ◌++◌, length,
  get_elem?, is_nil, leb, if◌then◌else◌,
}
use my_tiny_im.Base.Text.{Text, bytes, is_empty, text_eq}
use my_tiny_im.Base.Int.{ℤ, pos, to_string}
use my_tiny_im.Base.Eq.{text_Eq}
use my_tiny_im.Base.Map.{Map, lookup, insert}
use my_tiny_im.Services.{Services, ok, M, ◌>>=◌, ◌>>◌, pure}
use my_tiny_im.Services.Redis.{keys, get, set_ex}

-- A service that this process has registered.
pub record Registered : Type 0 where
  pub service_name : Text
  pub ip : Text
  pub port : ℤ

-- The members of ServiceRegistry.
pub record Registry : Type 0 where
  pub registered : Option Registered
  pub observed_services : List Text
  pub cache : Map Text (List Text)
  pub rr_index : Map Text ℕ

unfoldable pub service_key : Registered → Text
service_key r =
    bytes "im:service:"
    ++ (r.service_name ++ (bytes ":" ++ (r.ip ++ (bytes ":" ++ to_string r.port))))

unfoldable pub service_value : Registered → Text
service_value r = r.ip ++ (bytes ":" ++ to_string r.port)

unfoldable pub service_pattern : Text → Text
service_pattern service_name = bytes "im:service:" ++ (service_name ++ bytes ":*")

unfoldable pub contains_text : Text → List Text → Bool
contains_text s [] = false
contains_text s (t ∷ ts) = if text_eq t s then true else contains_text s ts

unfoldable pub observe : Text → Registry → Registry
observe service_name r =
    if contains_text service_name r.observed_services
    then r
    else record r { observed_services = r.observed_services ++ service_name ∷ [] }

-- rr_index_[service_name]
abbrev pub index_or_zero : Option ℕ → ℕ
index_or_zero none = 0
index_or_zero (some i) = i

abbrev pub nth : List Text → ℕ → Text
nth xs i = elim (get_elem? xs i) [ none ↦ [] | some x ↦ x ]

-- The address at the index, and the next index; an index past the end is 0.
unfoldable pub rr_pick : List Text → ℕ → Text × ℕ
rr_pick addresses idx =
    let i = if leb (length addresses) idx then 0 else idx in
    (nth addresses i, (i + 1) % length addresses)

-- The round robin of Discover, for addresses that are not empty.
unfoldable pub round_robin : Text → List Text → Map Text ℕ → Text × Map Text ℕ
round_robin service_name addresses rr =
    let picked = rr_pick addresses (index_or_zero (lookup service_name rr)) in
    (picked.0, insert service_name picked.1 rr)

abbrev pub cached : Option (List Text) → List Text
cached none = []
cached (some addresses) = addresses

module _ (sv : Services) where
  unfoldable pub register_service : Text → Text → ℤ → Registry → M Registry
  register_service service_name ip port r = do
    let me : Registered = record { service_name = service_name; ip = ip; port = port }
    set_ex sv (service_key me) (service_value me) (pos 10)
    pure (record r { registered = some me })

  -- One round of HeartbeatLoop.
  unfoldable pub heartbeat : Registry → M (Unit {0})
  heartbeat r = elim r.registered [
    | none ↦ pure tt
    | some me ↦ (do set_ex sv (service_key me) (service_value me) (pos 10); pure tt)
  ]

  -- The values of some keys, those that are empty left out.
  unfoldable pub values_of : List Text → M (List Text)
  values_of [] = pure []
  values_of (key ∷ more) = do
    value ← get sv key
    values ← values_of more
    pure (if is_empty value then values else value ∷ values)

  unfoldable pub query_addresses : Text → M (List Text)
  query_addresses pattern_ = do found ← keys sv pattern_; values_of found

  -- The loop of RefreshCache.
  unfoldable pub refresh_all : List Text → Map Text (List Text) → M (Map Text (List Text))
  refresh_all [] cache = pure cache
  refresh_all (service_name ∷ targets) cache = do
    addresses ← query_addresses (service_pattern service_name)
    refresh_all targets (insert service_name addresses cache)

  unfoldable pub refresh_cache : Registry → M Registry
  refresh_cache r = do
    cache ← refresh_all r.observed_services r.cache
    pure (record r { cache = cache })

  -- The end of Discover.
  unfoldable pub select : Text → List Text → Registry → M (Text × Registry)
  select service_name addresses r =
      if is_nil addresses
      then pure ([], r)
      else let picked = round_robin service_name addresses r.rr_index in
        pure (picked.0, record r { rr_index = picked.1 })

  unfoldable pub discover : Text → Registry → M (Text × Registry)
  discover service_name r =
      if is_nil (cached (lookup service_name r.cache))
      then (do
        addresses ← query_addresses (service_pattern service_name)
        select service_name addresses r)
      else select service_name (cached (lookup service_name r.cache)) r

  -- UpdateGateways of the dispatch server: the new list, empty or not.
  unfoldable pub update_gateways : M (List Text)
  update_gateways = query_addresses (bytes "im:service:gateway:*")

  -- GetRandomGateway, on the list.
  unfoldable pub get_random_gateway : List Text → M Text
  get_random_gateway [] h = (ok [], h)
  get_random_gateway (g ∷ gateways) h = (ok (nth (g ∷ gateways) (sv.pick h (length gateways))), h)
