-- ===== src/Base/Bag.antt =====
-- Lists up to the order of their elements: the abstract view of what is walked in an order that the
-- language leaves open.
use mathlib.Core.List.{Permᴰ, map, List, [], ◌∷◌, ◌++◌}
use mathlib.Core.List
use mathlib.Core.Quot
use mathlib.Core.Quot.{Quot, Quot-set}
use mathlib.Core.Path.{◌≡◌, refl}

abbrev pub Bag : Type 0 → Type 0
Bag A = Quot (λ (xs ys : List A). Permᴰ xs ys)

abbrev pub bag : {A : Type 0} → List A → Bag A
bag xs = Quot.mk xs

-- An element moves from the end of a list to its start.
pub rotated : {A : Type 0} → (x : A) {xs ys : List A} → Permᴰ xs ys → Permᴰ (xs ++ x ∷ []) (x ∷ ys)
rotated x {xs} p = List.Permᴰ.trans (List.Permᴰ.append_comm xs (x ∷ [])) (List.Permᴰ.cons refl p)

module _ {A B : Type 0} (f : A → B) where
  unfoldable pub map_bag : Bag A → Bag B
  map_bag =
      Quot.lift Quot-set (λ xs. Quot.mk (map f xs)) (λ xs ys p. Quot.sound (List.Permᴰ.map f p))

  pub map_bag-bag : (xs : List A) → map_bag (bag xs) ≡ bag (map f xs)
  unfolding map_bag
  map_bag-bag xs = refl
