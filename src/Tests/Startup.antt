-- ===== src/Tests/Startup.antt =====
-- Runs of the configuration.
use my_tiny_im.Base.{◌≡◌, refl, some, none, [], ◌∷◌, arith}
use my_tiny_im.Base.Text.{bytes, text_eq}
use my_tiny_im.Base.Eq.{text_Eq}
use my_tiny_im.Base.Int.{pos}
use my_tiny_im.Base.Map.{lookup}
use my_tiny_im.Config.{get_string, get_int, get_string_list, value_or, read_array}
use my_tiny_im.Config.Paths.{dotted, slashed, IsPlain, getters_nested}
use my_tiny_im.Tests.Toy.{toy, ann_json}

redis-IsPlain : IsPlain (bytes "redis")
unfolding bytes
redis-IsPlain = (
  (omega arith, omega arith),
  (
    (omega arith, omega arith),
    ((omega arith, omega arith), ((omega arith, omega arith), ((omega arith, omega arith), tt))),
  ),
)

host-IsPlain : IsPlain (bytes "host")
unfolding bytes
host-IsPlain = (
  (omega arith, omega arith),
  ((omega arith, omega arith), ((omega arith, omega arith), ((omega arith, omega arith), tt))),
)

getters_nested_example :
    let key = dotted (bytes "redis") (bytes "host" ∷ []) in
    (get_string toy ann_json key [] ≡ value_or (some (bytes "cache")) [])
    × (get_int toy ann_json key (pos 1) ≡ value_or none (pos 1))
    × (get_string_list toy ann_json key ≡ read_array toy none)
unfolding bytes dotted slashed lookup text_eq
getters_nested_example =
    getters_nested toy ann_json (bytes "redis") (bytes "host" ∷ []) (bytes "/redis/host") [] (pos 1)
      (λ e. cc e) redis-IsPlain (host-IsPlain, tt) refl refl refl
