-- ===== src/Config/Paths.antt =====
-- Keys with dots in src/common/config.h, and a configuration that could not be loaded.
use my_tiny_im.Base.{
  ℕ, ◌≡◌, ◌≢◌, refl, ap, ◌∙◌, true, false, Option, none, some, List, [], ◌∷◌, ◌++◌, All, map, ◌==◌,
  ==_ne, if◌then◌else◌, inl, inr, Option-cases, ◌⊎◌,
}
use my_tiny_im.Base.Text.{Text, bytes}
use my_tiny_im.Base.Int.{ℤ}
use my_tiny_im.Json.{JsonLib}
use my_tiny_im.Config.{
  path_of, with_slash, found, missing, raised, value_or, resolve, located, get_string, get_int,
  read_array, get_string_list, load, load_either,
}

-- The parts of a key, with a dot between them, and with a slash in front of each.
unfoldable pub dotted : Text → List Text → Text
dotted s [] = s
dotted s (t ∷ ts) = s ++ b'.' ∷ dotted t ts

unfoldable pub slashed : Text → List Text → Text
slashed s [] = b'/' ∷ s
slashed s (t ∷ ts) = b'/' ∷ (s ++ slashed t ts)

abbrev pub IsPlain : Text → Type 0
IsPlain s = All (λ c. (c ≢ b'.') × (c ≢ b'/')) s

abbrev slashes : Text → Text
slashes s = map (λ (c : ℕ). if c == b'.' then b'/' else c) s

slashes-plain : (s t : Text) → IsPlain s → slashes (s ++ t) ≡ s ++ slashes t
slashes-plain [] t p = refl
slashes-plain (c ∷ s) t p = rw (==_ne c b'.' p.0.0) (ap (◌∷◌ c) (slashes-plain s t p.1))

slashes_self : (s : Text) → IsPlain s → slashes s ≡ s
slashes_self [] p = refl
slashes_self (c ∷ s) p = rw (==_ne c b'.' p.0.0) (ap (◌∷◌ c) (slashes_self s p.1))

slashes-dotted :
    (s : Text) (ss : List Text)
    → IsPlain s
    → All IsPlain ss
    → b'/' ∷ slashes (dotted s ss) ≡ slashed s ss
unfolding dotted slashed
slashes-dotted s [] p q = ap (◌∷◌ b'/') (slashes_self s p)
slashes-dotted s (t ∷ ts) p q =
    ap (◌∷◌ b'/')
      (slashes-plain s (b'.' ∷ dotted t ts) p ∙ ap (λ r. s ++ r) (slashes-dotted t ts q.0 q.1))

with_slash-dotted :
    (s : Text) (ss : List Text)
    → s ≢ []
    → IsPlain s
    → with_slash (slashes (dotted s ss)) ≡ b'/' ∷ slashes (dotted s ss)
unfolding dotted
with_slash-dotted [] ss n p = absurd (n refl)
with_slash-dotted (c ∷ s) [] n p = rw (==_ne c b'.' p.0.0, ==_ne c b'/' p.0.1)
with_slash-dotted (c ∷ s) (t ∷ ts) n p = rw (==_ne c b'.' p.0.0, ==_ne c b'/' p.0.1)

pub path_of-dotted :
    (s : Text) (ss : List Text)
    → s ≢ []
    → IsPlain s
    → All IsPlain ss
    → path_of (dotted s ss) ≡ slashed s ss
unfolding path_of
path_of-dotted s ss n p q = with_slash-dotted s ss n p ∙ slashes-dotted s ss p q

module _ (js : JsonLib) where
  resolve-found :
      (json : js.Value) (path : Text) (p : js.Pointer)
      → js.pointer path ≡ some p
      → js.contains_at json p ≡ some true
      → resolve js json path ≡ found (js.member_at json p)
  unfolding resolve
  resolve-found json path p a b = rw (a, b)

  -- A key of parts without dots and slashes, the first of them not empty, that is not itself a
  -- member: if the pointer with a slash in front of each part points to a value, then the three
  -- getters read that value, as a string, as an int and as an array of strings, and the first two
  -- give the default if it is none.
  pub getters_nested :
      (json : js.Value) (s : Text) (ss : List Text) (p : js.Pointer) (default : Text) (number : ℤ)
      → s ≢ []
      → IsPlain s
      → All IsPlain ss
      → js.contains json (dotted s ss) ≡ false
      → js.pointer (slashed s ss) ≡ some p
      → js.contains_at json p ≡ some true
      → let v = js.member_at json p in
        (get_string js json (dotted s ss) default ≡ value_or (js.get_string v) default)
        × (get_int js json (dotted s ss) number ≡ value_or (js.get_int v) number)
        × (get_string_list js json (dotted s ss) ≡ read_array js (js.elements v))
  unfolding get_string get_int get_string_list located
  getters_nested json s ss p default number n a b c d e =
      let r = path_of-dotted s ss n a b in
      let f = resolve-found json (slashed s ss) p d e in (rw (c, r, f), rw (c, r, f), rw (c, r, f))

-- A file that cannot be opened, or holds no JSON.
pub data IsUnread (js : JsonLib) : Option Text → Type 0 where
  absent : IsUnread js none
  malformed : {content : Text} → js.parse content ≡ none → IsUnread js (some content)

load_unread :
    (js : JsonLib) (file : Option Text) (json : js.Value)
    → IsUnread js file
    → load js file json ≡ (false, json)
unfolding load
load_unread js none json absent = refl
load_unread js (some content) json (malformed e) = rw e

pub load_unread_either :
    (js : JsonLib) (files : Text → Option Text) (json : js.Value)
    → IsUnread js (files (bytes "config.json"))
    → IsUnread js (files (bytes "../config.json"))
    → load_either js files json ≡ json
unfolding load_either
load_unread_either js files json a b = rw (load_unread js _ json a, load_unread js _ json b)

module _ (js : JsonLib) (no_member : (key : Text) → js.contains js.null key ≡ false)
    (no_pointee : (p : js.Pointer) → js.contains_at js.null p ≡ some false) where
  resolve_null :
      (path : Text) → (resolve js js.null path ≡ missing) ⊎ (resolve js js.null path ≡ raised)
  unfolding resolve
  resolve_null path = elim (Option-cases (js.pointer path)) [
    | inl e ↦ inr (rw e)
    | inr (p, e) ↦ inl (rw (e, no_pointee p))
  ]

  -- If a json that holds nothing has no member and no value behind a pointer, then a server that
  -- finds neither configuration file, or no JSON in them, starts with every setting at its default
  -- and every list empty.
  pub unread_gives_defaults :
      (files : Text → Option Text) (key default : Text) (number : ℤ)
      → IsUnread js (files (bytes "config.json"))
      → IsUnread js (files (bytes "../config.json"))
      → let json = load_either js files js.null in
        (get_string js json key default ≡ default)
        × (get_int js json key number ≡ number)
        × (get_string_list js json key ≡ [])
  unfolding get_string get_int get_string_list located
  unread_gives_defaults files key default number a b =
      rw (load_unread_either js files js.null a b) (elim (resolve_null (path_of key)) [
        | inl e ↦ (rw (no_member key, e), rw (no_member key, e), rw (no_member key, e))
        | inr e ↦ (rw (no_member key, e), rw (no_member key, e), rw (no_member key, e))
      ])
