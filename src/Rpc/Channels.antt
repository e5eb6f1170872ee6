-- ===== src/Rpc/Channels.antt =====
-- The pool of gRPC channels, src/common/grpc_channel_pool.h: one channel for each address, made when
-- it is first asked for.
use my_tiny_im.Base.{
  ℕ, suc, ◌<◌, ◌≡◌, ◌≢◌, ap, ◌∙◌, false, Option, none, some, List, [], ◌∷◌, inl, inr, Option-cases,
  arith, Bool-cases,
}
use my_tiny_im.Base.Text.{Text, text_eq, text_eq_self, text_eq_iff}
use my_tiny_im.Base.Eq.{text_Eq}
use my_tiny_im.Base.Map.{Map, lookup, insert, lookup-insert}

-- The channels, and how many have been made: a channel is known by its number.
pub record Channels : Type 0 where
  pub channels : Map Text ℕ
  pub made : ℕ

-- What find() in the map gave.
abbrev pooled : Text → Channels → Option ℕ → ℕ × Channels
pooled address s (some channel) = (channel, s)
pooled address s none =
    (s.made, record { channels = insert address s.made s.channels; made = suc s.made })

unfoldable pub get_channel : Text → Channels → ℕ × Channels
get_channel address s = pooled address s (lookup address s.channels)

-- The channels for some addresses, asked for one after the other.
unfoldable pub get_channels : List Text → Channels → List ℕ × Channels
get_channels [] s = ([], s)
get_channels (address ∷ more) s =
    let got = get_channel address s in
    let rest = get_channels more got.1 in (got.0 ∷ rest.0, rest.1)

get_channel-stored :
    (a : Text) (s : Channels) → lookup a (get_channel a s).1.channels ≡ some (get_channel a s).0
unfolding get_channel
get_channel-stored a s = elim (Option-cases (lookup a s.channels)) [
  | inl e ↦ rw e (rw (lookup-insert a a s.made s.channels, text_eq_self a))
  | inr (c, e) ↦ rw e e
]

get_channel-keeps :
    (a b : Text) (c : ℕ) (s : Channels)
    → lookup a s.channels ≡ some c
    → lookup a (get_channel b s).1.channels ≡ some c
unfolding get_channel
get_channel-keeps a b c s h = elim (Option-cases (lookup b s.channels)) [
  | inl e ↦ rw e (
      rw (lookup-insert a b s.made s.channels) (elim (Bool-cases (text_eq b a)) [
        | inl t ↦ ground (arith, text_eq_iff b a)
        | inr t ↦ rw t h
      ]))
  | inr (d, e) ↦ rw e h
]

get_channels-keeps :
    (bs : List Text) (a : Text) (c : ℕ) (s : Channels)
    → lookup a s.channels ≡ some c
    → lookup a (get_channels bs s).1.channels ≡ some c
unfolding get_channels
get_channels-keeps [] a c s h = h
get_channels-keeps (b ∷ bs) a c s h =
    get_channels-keeps bs a c (get_channel b s).1 (get_channel-keeps a b c s h)

get_channel_lem :
    (a : Text) (c : ℕ) (s : Channels) → lookup a s.channels ≡ some c → get_channel a s ≡ (c, s)
unfolding get_channel
get_channel_lem a c s h = rw h

-- A channel is for one address only.
pub record IsPool (s : Channels) : Type 0 where
  pub below : (a : Text) (c : ℕ) → lookup a s.channels ≡ some c → c < s.made
  pub apart :
      (a b : Text) (c : ℕ) → lookup a s.channels ≡ some c → lookup b s.channels ≡ some c → a ≡ b

module _ (a : Text) (s : Channels) (p : IsPool s) where
  added : Channels
  added = record { channels = insert a s.made s.channels; made = suc s.made }

  added-IsPool : IsPool added
  unfolding added
  added-IsPool = record {
    below = λ b c e. ground (arith, lookup-insert b a s.made s.channels, p.below b c);
    apart = λ b d c e f. ground (
      arith,
      lookup-insert b a s.made s.channels,
      lookup-insert d a s.made s.channels,
      p.below b c,
      p.below d c,
      p.apart b d c,
      text_eq_iff a b,
      text_eq_iff a d,
    );
  }

  get_channel-IsPool : IsPool (get_channel a s).1
  unfolding get_channel added
  get_channel-IsPool = elim (Option-cases (lookup a s.channels)) [
    | inl e ↦ rw e added-IsPool
    | inr (c, e) ↦ rw e p
  ]

get_channels-IsPool : (bs : List Text) (s : Channels) → IsPool s → IsPool (get_channels bs s).1
unfolding get_channels
get_channels-IsPool [] s p = p
get_channels-IsPool (b ∷ bs) s p =
    get_channels-IsPool bs (get_channel b s).1 (get_channel-IsPool b s p)

abbrev pub no_channels : Channels
no_channels = record { channels = []; made = 0 }

no_channels-IsPool : IsPool no_channels
unfolding lookup
no_channels-IsPool = record { below = λ a c e. cc e; apart = λ a b c e f. cc e }

-- Whatever addresses have been asked for since a pool was made, and whatever addresses are asked
-- for after an address: asking for that address again gives the channel of the first time and makes
-- none, and asking for another address gives another channel.
pub get_channel_once :
    (before between : List Text) (a b : Text)
    → text_eq a b ≡ false
    → let first = get_channel a (get_channels before no_channels).1 in
      let later = (get_channels between first.1).1 in
      (get_channel a later ≡ (first.0, later)) × ((get_channel b later).0 ≢ first.0)
get_channel_once before between a b n =
    let s = (get_channels before no_channels).1 in
    let first = get_channel a s in
    let later = (get_channels between first.1).1 in
    let stored = get_channels-keeps between a first.0 first.1 (get_channel-stored a s) in
    let p =
      get_channels-IsPool between first.1
        (get_channel-IsPool a s (get_channels-IsPool before no_channels no_channels-IsPool)) in
    let q = get_channel-IsPool b later p in
    (
      get_channel_lem a first.0 later stored,
      λ e.
          let same =
            q.apart a b first.0 (get_channel-keeps a b first.0 later stored)
              (get_channel-stored b later ∙ ap some e) in
          cc (n, (text_eq_iff a b).1 same),
    )
