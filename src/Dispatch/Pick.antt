-- ===== src/Dispatch/Pick.antt =====
-- The random gateway of src/dispatch/service_discovery.h: what is chosen from a list.
use my_tiny_im.Base.{ℕ, zero, suc, ◌≤◌, ◌<◌, ◌≡◌, refl, true, List, [], ◌∷◌, length, All, arith}
use my_tiny_im.Base.Text.{Text, text_eq_self}
use my_tiny_im.Services.{History, Services, ok}
use my_tiny_im.Registry.Cache.{nth-All}
use my_tiny_im.Registry.{contains_text, nth, get_random_gateway}

nth-contains : (xs : List Text) (i : ℕ) → i < length xs → contains_text (nth xs i) xs ≡ true
unfolding contains_text
nth-contains [] i h = absurd (omega arith)
nth-contains (x ∷ xs) zero h = rw (text_eq_self x)
nth-contains (x ∷ xs) (suc i) h = ground (arith, nth-contains xs i (omega arith))

module _ (sv : Services) (picks : (h : History) (n : ℕ) → sv.pick h n ≤ n) where
  pub get_random_gateway-listed :
      (g : Text) (gs : List Text) (h : History)
      → (gw : Text) × (get_random_gateway sv (g ∷ gs) h ≡ (ok gw, h))
        × (contains_text gw (g ∷ gs) ≡ true)
  unfolding get_random_gateway
  get_random_gateway-listed g gs h =
      let i = sv.pick h (length gs) in
      (nth (g ∷ gs) i, refl, nth-contains (g ∷ gs) i (omega (arith, picks h (length gs))))

  pub get_random_gateway-All :
      (P : Text → Type 0) (g : Text) (gs : List Text) (h : History)
      → All P (g ∷ gs)
      → (gw : Text) × (get_random_gateway sv (g ∷ gs) h ≡ (ok gw, h))
        × (contains_text gw (g ∷ gs) ≡ true)
        × P gw
  unfolding get_random_gateway
  get_random_gateway-All P g gs h a =
      let i = sv.pick h (length gs) in
      let inside : i < length (g ∷ gs) = omega (arith, picks h (length gs)) in
      (nth (g ∷ gs) i, refl, nth-contains (g ∷ gs) i inside, nth-All P (g ∷ gs) i a inside)

module _ (sv : Services) where
  pub get_random_gateway-nil : (h : History) → get_random_gateway sv [] h ≡ (ok [], h)
  unfolding get_random_gateway
  get_random_gateway-nil h = refl
