-- ===== src/Base/Map.antt =====
-- `std::unordered_map` as an association list: `find`, `m[k] = v` and `erase`, with their laws.
use mathlib.Core.Path.{◌≡◌, refl, subst}
use mathlib.Core.Option.{Option, none, some}
use mathlib.Core.Logic.{inl, inr}
use mathlib.Core.List.{List, [], ◌∷◌}
use native.Mathlib.Omega.{arith}
use my_tiny_im.Base.Tests.{if◌then◌else◌, Bool-cases}
use my_tiny_im.Base.Lists.{All}
use my_tiny_im.Base.Eq.{Eq}

abbrev pub Map : Type 0 → Type 0 → Type 0
Map K V = List (K × V)

module _ {K V : Type 0} ⦃e : Eq K⦄ where
  unfoldable pub lookup : K → Map K V → Option V
  lookup k [] = none
  lookup k ((j, v) ∷ m) = if e.beq j k then some v else lookup k m

  unfoldable pub insert : K → V → Map K V → Map K V
  insert k v [] = (k, v) ∷ []
  insert k v ((j, w) ∷ m) = if e.beq j k then (j, v) ∷ m else (j, w) ∷ insert k v m

  unfoldable pub remove : K → Map K V → Map K V
  remove k [] = []
  remove k ((j, w) ∷ m) = let rest = remove k m in if e.beq j k then rest else (j, w) ∷ rest

  pub lookup-insert :
      (j k : K) (v : V) (m : Map K V)
      → lookup j (insert k v m) ≡ (if e.beq k j then some v else lookup j m)
  unfolding lookup insert
  lookup-insert j k v [] = refl
  lookup-insert j k v ((i, w) ∷ m) =
      ground (arith, lookup-insert j k v m, e.beq_iff i k, e.beq_iff i j, e.beq_iff k j)

  pub lookup-remove :
      (j k : K) (m : Map K V) → lookup j (remove k m) ≡ (if e.beq k j then none else lookup j m)
  unfolding lookup remove
  lookup-remove j k [] = ground arith
  lookup-remove j k ((i, w) ∷ m) =
      ground (arith, lookup-remove j k m, e.beq_iff i k, e.beq_iff i j, e.beq_iff k j)

  -- What holds of all values of a map holds after a write and an erasure too.
  pub All-insert :
      (P : V → Type 0) (k : K) (v : V) (m : Map K V)
      → P v
      → All (λ x. P x.1) m
      → All (λ x. P x.1) (insert k v m)
  unfolding insert
  All-insert P k v [] h a = (h, tt)
  All-insert P k v ((i, w) ∷ m) h a = elim (Bool-cases (e.beq i k)) [
    | inl b ↦ rw b (h, a.1)
    | inr b ↦ rw b (a.0, All-insert P k v m h a.1)
  ]

  pub All-remove :
      (P : V → Type 0) (k : K) (m : Map K V) → All (λ x. P x.1) m → All (λ x. P x.1) (remove k m)
  unfolding remove
  All-remove P k [] a = tt
  All-remove P k ((i, w) ∷ m) a = elim (Bool-cases (e.beq i k)) [
    | inl b ↦ rw b (All-remove P k m a.1)
    | inr b ↦ rw b (a.0, All-remove P k m a.1)
  ]

  pub All-lookup :
      (P : V → Type 0) (k : K) (m : Map K V) (v : V)
      → All (λ x. P x.1) m
      → lookup k m ≡ some v
      → P v
  unfolding lookup
  All-lookup P k [] v a h = cc
  All-lookup P k ((i, w) ∷ m) v a h = elim (Bool-cases (e.beq i k)) [
    | inl b ↦ let found : w ≡ v = ground arith in subst P found a.0
    | inr b ↦ All-lookup P k m v a.1 (rw b at h)
  ]
