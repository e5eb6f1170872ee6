-- ===== src/Registry/Reach.antt =====
-- The calls of service discovery in src/common/service_registry.cpp, for a predicate that holds of
-- its lists of keys and its reads.
use my_tiny_im.Base.{List, [], ◌∷◌}
use my_tiny_im.Base.Text.{Text}
use my_tiny_im.Services.{Event, Services}
use my_tiny_im.Services.Redis.{keys, get}
use my_tiny_im.Services.Trace.{Emits, emits_rules}
use my_tiny_im.Registry.{Registry, values_of, query_addresses, select, discover}

module _ {P : Event → Type 0} (sv : Services) (listed : (p : Text) → Emits P (keys sv p))
    (read : (k : Text) → Emits P (get sv k)) where
  pub values_of-Emits : (ks : List Text) → Emits P (values_of sv ks)
  unfolding values_of
  values_of-Emits [] = search emits_rules
  values_of-Emits (k ∷ ks) = search (emits_rules, read k, values_of-Emits ks)

  query_addresses-Emits : (p : Text) → Emits P (query_addresses sv p)
  unfolding query_addresses
  query_addresses-Emits p = search (emits_rules, listed, values_of-Emits)

  pub discover-Emits : (s : Text) (r : Registry) → Emits P (discover sv s r)
  unfolding discover select
  discover-Emits s r = search (emits_rules, query_addresses-Emits)
