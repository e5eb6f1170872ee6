-- ===== src/Registry/Discovery.antt =====
-- From a gateway that registers, src/common/service_registry.cpp, to the list of gateways of the
-- dispatch server, src/dispatch/service_discovery.h: both through Redis.
use my_tiny_im.Base.{
  ℕ, ◌≡◌, refl, sym, ap, ◌∙◌, true, false, some, List, [], ◌∷◌, ◌++◌, map, All, Bool-cases, inl,
  inr, arith,
}
use mathlib.Core.List.{append_assoc}
use mathlib.Core.Path.{subst}
use my_tiny_im.Base.Int.{ℤ, pos, to_string, c_str-to_string}
use my_tiny_im.Base.Text.{
  Text, bytes, c_str, is_empty, text_eq, text_eq_self, text_eq→eq, c_str-append,
}
use my_tiny_im.Services.{
  redis_opened, redis_command, status_reply, array_reply, History, Services, ok,
}
use my_tiny_im.Services.Redis.{with_conn, strings, keys, set_ex}
use my_tiny_im.Services.Trace.{All-append}
use my_tiny_im.Services.Memory.{IsRead}
use my_tiny_im.Registry.Reach.{values_of-Emits}
use my_tiny_im.Registry.Keys.{
  last_value, KeepsKeys, last_value-reads, get-Adds, get-Emits, keys-Emits, get-known,
}
use my_tiny_im.Registry.{
  Registered, Registry, service_key, service_value, contains_text, values_of, query_addresses,
  register_service, update_gateways,
}

module _ (sv : Services) (memory : KeepsKeys sv) (key value : Text) (plain : c_str key ≡ key) where
  -- Values that are read, the one of the key among them.
  record Reads (ks : List Text) (h : History) : Type 0 where
    pub values : List Text
    pub new : History
    pub result : values_of sv ks h ≡ (ok values, new ++ h)
    pub all : All IsRead new
    pub holds : contains_text (c_str value) values ≡ true

  module _ (not_empty : is_empty (c_str value) ≡ false) where
    read_key : (ks : List Text) (h : History) → last_value key h ≡ some value → Reads (key ∷ ks) h
    unfolding values_of contains_text
    read_key ks h e =
        let (new, g, r) = get-known sv memory key value plain h e in
        let rest = (values_of-Emits sv (keys-Emits sv) (get-Emits sv) ks).at (new ++ h) in
        record {
          values = c_str value ∷ rest.value;
          new = rest.new ++ new;
          result =
              rw (g, rest.result, not_empty)
                (ap (λ (t : History). (ok (c_str value ∷ rest.value), t))
                  (sym (append_assoc rest.new new h)));
          all = All-append IsRead rest.new new rest.all r;
          holds = rw (text_eq_self (c_str value)) refl;
        }

    read_other :
        (k : Text) (ks : List Text) (h : History)
        → ((h' : History) → last_value key h' ≡ some value → Reads ks h')
        → last_value key h ≡ some value
        → Reads (k ∷ ks) h
    unfolding values_of contains_text
    read_other k ks h ih e =
        let a = get-Adds sv k h in
        let v = ih (a.new ++ h) (last_value-reads key a.new h a.all ∙ e) in
        let same = sym (append_assoc v.new a.new h) in
        elim (Bool-cases (is_empty a.value)) [
          | inl z ↦ record {
            values = v.values;
            new = v.new ++ a.new;
            result = rw (a.result, v.result, z) (ap (λ (t : History). (ok v.values, t)) same);
            all = All-append IsRead v.new a.new v.all a.all;
            holds = v.holds;
          }
          | inr z ↦ record {
            values = a.value ∷ v.values;
            new = v.new ++ a.new;
            result =
                rw (a.result, v.result, z)
                  (ap (λ (t : History). (ok (a.value ∷ v.values), t)) same);
            all = All-append IsRead v.new a.new v.all a.all;
            holds = ground (arith, v.holds);
          }
        ]

    values_of-Reads :
        (ks : List Text) (h : History)
        → contains_text key ks ≡ true
        → last_value key h ≡ some value
        → Reads ks h
    unfolding contains_text
    values_of-Reads [] h c e = absurd (ground arith)
    values_of-Reads (k ∷ ks) h c e = elim (Bool-cases (text_eq k key)) [
      | inl t ↦ subst (λ x. Reads (x ∷ ks) h) (sym (text_eq→eq k key t)) (read_key ks h e)
      | inr t ↦
          let more : contains_text key ks ≡ true = rw t at c in
          read_other k ks h (λ h' e'. values_of-Reads ks h' more e') e
    ]

strings-some :
    (sv : Services) (xs : List Text)
    → strings sv (map (λ (k : Text). some k) xs) ≡ map (λ (k : Text). c_str k) xs
strings-some sv [] = refl
strings-some sv (x ∷ xs) = ap (◌∷◌ (c_str x)) (strings-some sv xs)

contains_text-map :
    (key : Text) (xs : List Text)
    → c_str key ≡ key
    → contains_text key xs ≡ true
    → contains_text key (map (λ (k : Text). c_str k) xs) ≡ true
unfolding contains_text
contains_text-map key [] p c = c
contains_text-map key (x ∷ xs) p c = elim (Bool-cases (text_eq x key)) [
  | inl t ↦
      let same : c_str x ≡ key = ap c_str (text_eq→eq x key t) ∙ p in
      rw (same, text_eq_self key) refl
  | inr t ↦ let rest = contains_text-map key xs p (rw t at c) in ground (arith, rest)
]

append-ne_nil : (xs : Text) (c : ℕ) (ys : Text) → is_empty (xs ++ c ∷ ys) ≡ false
append-ne_nil [] c ys = refl
append-ne_nil (x ∷ xs) c ys = refl

pattern-split : c_str (bytes "im:service:gateway:*") ≡ bytes "im:service:gateway:" ++ b'*' ∷ []
unfolding bytes c_str
pattern-split = refl

abbrev pub gateway_at : Text → ℤ → Registered
gateway_at ip port = record { service_name = bytes "gateway"; ip = ip; port = port }

module _ (ip : Text) (port : ℤ) (plain : c_str ip ≡ ip) where
  service_value-plain :
      c_str (service_value (gateway_at ip port)) ≡ service_value (gateway_at ip port)
  unfolding service_value
  service_value-plain =
      c_str-append ip (bytes ":" ++ to_string port) plain
      ∙ ap (λ t. ip ++ t) (unfold bytes c_str in ap (◌∷◌ b':') (c_str-to_string port))

  service_value-ne_nil : is_empty (c_str (service_value (gateway_at ip port))) ≡ false
  unfolding service_value bytes
  service_value-ne_nil = ap is_empty service_value-plain ∙ append-ne_nil ip b':' (to_string port)

  service_key-plain : c_str (service_key (gateway_at ip port)) ≡ service_key (gateway_at ip port)
  unfolding service_key service_value bytes c_str
  service_key-plain =
      ap (λ t. bytes "im:service:" ++ (bytes "gateway" ++ (bytes ":" ++ t))) service_value-plain

  module _ (sv : Services) (memory : KeepsKeys sv) where
    abbrev key : Text
    key = service_key (gateway_at ip port)

    abbrev value : Text
    value = service_value (gateway_at ip port)

    key-split : key ≡ bytes "im:service:gateway:" ++ value
    unfolding service_key service_value bytes
    key-split = refl

    -- The key is stored.
    register_service-stores :
        (r : Registry) (h : History)
        → (later : History) × (register_service sv (bytes "gateway") ip port r h
            ≡ (ok (record r { registered = some (gateway_at ip port) }), later))
          × (last_value key later ≡ some value)
    unfolding register_service set_ex with_conn last_value
    register_service-stores r h =
        let done = memory.set_done (redis_opened true ∷ h) key value (to_string (pos 10)) in
        (
          redis_command (bytes "SET" ∷ key ∷ value ∷ bytes "EX" ∷ to_string (pos 10) ∷ [])
                (some (status_reply (bytes "OK")))
              ∷ redis_opened true
              ∷ h,
          rw (memory.connects h, service_key-plain, service_value-plain, done) refl,
          rw (text_eq_self key) (unfold bytes text_eq in refl),
        )

    keys-lists :
        (h : History)
        → last_value key h ≡ some value
        → (found : List Text) × (new : History) × (keys sv (bytes "im:service:gateway:*") h
            ≡ (ok found, new ++ h))
          × All IsRead new
          × (contains_text key found ≡ true)
    unfolding keys with_conn last_value
    keys-lists h e =
        let (found, listed, there) =
          memory.keys_list (redis_opened true ∷ h) (bytes "im:service:gateway:") value value
            (ap (λ k. last_value k h) (sym key-split) ∙ e) in
        (
          map (λ (k : Text). c_str k) found,
          redis_command (bytes "KEYS" ∷ c_str (bytes "im:service:gateway:*") ∷ [])
                (some (array_reply (map (λ (k : Text). some k) found)))
              ∷ redis_opened true
              ∷ [],
          rw (memory.connects h, pattern-split, listed, strings-some sv found) refl,
          unfold bytes text_eq in (refl, (tt, tt)),
          contains_text-map key found service_key-plain
              (ap (λ k. contains_text k found) key-split ∙ there),
        )

-- A gateway registers with an address without NUL, and the dispatch server then looks for gateways,
-- with nothing but reads of Redis between: if Redis does its SETs, keeps the key that long, and
-- answers KEYS and GET with what is stored, then both end with a value, and the address of the
-- gateway is in the list of the dispatch server.
pub registered_is_discovered :
    (sv : Services) (ip : Text) (port : ℤ) (r : Registry) (h between : History)
    → KeepsKeys sv
    → c_str ip ≡ ip
    → All IsRead between
    → (later end : History) × (gateways : List Text) × (register_service sv
          (bytes "gateway")
          ip
          port
          r
          h
        ≡ (ok (record r { registered = some (gateway_at ip port) }), later))
      × (update_gateways sv (between ++ later) ≡ (ok gateways, end))
      × (contains_text (ip ++ (bytes ":" ++ to_string port)) gateways ≡ true)
unfolding update_gateways query_addresses service_value
registered_is_discovered sv ip port r h between memory plain b =
    let (later, stored, holds) = register_service-stores ip port plain sv memory r h in
    let still = last_value-reads (service_key (gateway_at ip port)) between later b ∙ holds in
    let (found, new, listed, reads, there) =
      keys-lists ip port plain sv memory (between ++ later) still in
    let me = service_key (gateway_at ip port) in
    let v =
      values_of-Reads sv memory me (service_value (gateway_at ip port))
        (service_key-plain ip port plain) (service_value-ne_nil ip port plain) found
        (new ++ (between ++ later)) there
        (last_value-reads me new (between ++ later) reads ∙ still) in
    (
      later,
      v.new ++ (new ++ (between ++ later)),
      v.values,
      stored,
      rw (listed, v.result) refl,
      ap (λ t. contains_text t v.values) (sym (service_value-plain ip port plain)) ∙ v.holds,
    )
