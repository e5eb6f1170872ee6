-- ===== src/Registry/Rotation.antt =====
-- The round robin of Discover in src/common/service_registry.cpp.
use native.Mathlib.Nat.{mod-eq_of_lt, mod-mod, mod-add-mod, mod-lt, mod_self}
use mathlib.Core.Path.{ap₂, subst}
use my_tiny_im.Base.{
  ℕ, zero, suc, ◌+◌, ◌%◌, ◌≤◌, ◌<◌, ◌≡◌, ◌≢◌, refl, sym, ap, ◌∙◌, List, [], ◌∷◌, length, drop,
  arith,
}
use my_tiny_im.Base.Text.{Text, text_eq_self}
use my_tiny_im.Base.Eq.{text_Eq}
use my_tiny_im.Base.Map.{Map, lookup, insert, lookup-insert}
use my_tiny_im.Registry.{index_or_zero, nth, rr_pick, round_robin}

abbrev pub index_of : Text → Map Text ℕ → ℕ
index_of service_name rr = index_or_zero (lookup service_name rr)

-- So many selections from the same addresses, one after the other.
unfoldable pub selections : ℕ → Text → List Text → Map Text ℕ → List Text × Map Text ℕ
selections zero service_name addresses rr = ([], rr)
selections (suc k) service_name addresses rr =
    let picked = round_robin service_name addresses rr in
    let more = selections k service_name addresses picked.1 in (picked.0 ∷ more.0, more.1)

rr_pick_lem :
    (addresses : List Text) (i : ℕ)
    → i < length addresses
    → rr_pick addresses i ≡ (nth addresses i, (i + 1) % length addresses)
unfolding rr_pick
rr_pick_lem addresses i h = ground arith

index_of-insert : (s : Text) (i : ℕ) (rr : Map Text ℕ) → index_of s (insert s i rr) ≡ i
index_of-insert s i rr = rw (lookup-insert s s i rr, text_eq_self s)

-- The addresses from an index on, around the end.
unfoldable pub rotation : ℕ → ℕ → List Text → List Text
rotation zero i addresses = []
rotation (suc k) i addresses = nth addresses (i % length addresses) ∷ rotation k (i + 1) addresses

rotation-mod :
    (k i : ℕ) (addresses : List Text)
    → rotation k (i % length addresses) addresses ≡ rotation k i addresses
unfolding rotation
rotation-mod zero i addresses = refl
rotation-mod (suc k) i addresses = ap₂ ◌∷◌ (ap (nth addresses) (mod-mod i (length addresses))) (
    sym (rotation-mod k (i % length addresses + 1) addresses)
    ∙ ap (λ j. rotation k j addresses) (mod-add-mod i (length addresses) 1)
    ∙ rotation-mod k (i + 1) addresses)

-- If a service's index is below the number of its addresses, so many selections from them give the
-- addresses from the index on, around the end as often as it takes, and the index moves on by their
-- number, modulo the number of addresses.
pub selections-rotation :
    (k : ℕ) (s : Text) (addresses : List Text) (rr : Map Text ℕ)
    → index_of s rr < length addresses
    → ((selections k s addresses rr).0 ≡ rotation k (index_of s rr) addresses)
      × (index_of s (selections k s addresses rr).1 ≡ (index_of s rr + k) % length addresses)
unfolding selections rotation round_robin
selections-rotation zero s addresses rr h = (refl, ground (arith, mod-eq_of_lt h))
selections-rotation (suc k) s addresses rr h =
    let i = index_of s rr in
    let n = length addresses in
    let rr' = insert s ((i + 1) % n) rr in
    let next : index_of s rr' ≡ (i + 1) % n = index_of-insert s ((i + 1) % n) rr in
    let below : index_of s rr' < n = subst (λ j. j < n) (sym next) (mod-lt (i + 1) (omega arith)) in
    let (chosen, moved) = selections-rotation k s addresses rr' below in
    rw (rr_pick_lem addresses i h) (
      ap₂ ◌∷◌ (ap (nth addresses) (sym (mod-eq_of_lt h)))
          (chosen ∙ ap (λ j. rotation k j addresses) next ∙ rotation-mod k (i + 1) addresses),
      moved ∙ ap (λ j. (j + k) % n) next ∙ mod-add-mod (i + 1) n k ∙ ap (λ j. j % n) (omega arith),
    )

drop-all : (xs : List Text) (i : ℕ) → length xs ≤ i → drop i xs ≡ []
drop-all [] zero h = refl
drop-all [] (suc i) h = refl
drop-all (x ∷ xs) zero h = absurd (omega arith)
drop-all (x ∷ xs) (suc i) h = drop-all xs i (omega arith)

drop-nth : (xs : List Text) (i : ℕ) → i < length xs → drop i xs ≡ nth xs i ∷ drop (suc i) xs
drop-nth [] i h = absurd (omega arith)
drop-nth (x ∷ xs) zero h = refl
drop-nth (x ∷ xs) (suc i) h = drop-nth xs i (omega arith)

rotation-drop :
    (k i : ℕ) (addresses : List Text)
    → i + k ≡ length addresses
    → rotation k i addresses ≡ drop i addresses
unfolding rotation
rotation-drop zero i addresses e = sym (drop-all addresses i (omega (arith, e)))
rotation-drop (suc k) i addresses e =
    let step : i + 1 ≡ suc i = omega arith in
    ap₂ ◌∷◌ (ap (nth addresses) (mod-eq_of_lt (omega (arith, e))))
      (rotation-drop k (i + 1) addresses (omega (arith, e)))
    ∙ ap (λ j. nth addresses i ∷ drop j addresses) step
    ∙ sym (drop-nth addresses i (omega (arith, e)))

-- A round of selections for a service whose index is 0, as it is at first: each address once, in
-- order, and the index is 0 again.
pub selections-round :
    (s : Text) (addresses : List Text) (rr : Map Text ℕ)
    → addresses ≢ []
    → index_of s rr ≡ 0
    → ((selections (length addresses) s addresses rr).0 ≡ addresses)
      × (index_of s (selections (length addresses) s addresses rr).1 ≡ 0)
selections-round s [] rr n z = absurd (n refl)
selections-round s (a ∷ more) rr n z =
    let (chosen, moved) =
      selections-rotation (length (a ∷ more)) s (a ∷ more) rr (omega (arith, z)) in
    (
      chosen
          ∙ ap (λ i. rotation (length (a ∷ more)) i (a ∷ more)) z
          ∙ rotation-drop (length (a ∷ more)) 0 (a ∷ more) (omega arith),
      moved
          ∙ ap (λ i. (i + length (a ∷ more)) % length (a ∷ more)) z
          ∙ ap (λ i. i % length (a ∷ more)) (omega arith)
          ∙ mod_self (length (a ∷ more)),
    )
