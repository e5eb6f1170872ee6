-- ===== src/Base/Text.antt =====
-- `std::string` as a list of bytes: literals, comparison, `find`, `substr`, and a C string's view
-- of it (`c_str()` read up to the first NUL).
use Prim.Native.Nat.{ℕ, zero, suc}
use Prim.Native.Char.{code}
use Prim.Native.String.{String}
use mathlib.Core.Path.{◌≡◌, refl, ap}
use mathlib.Core.Logic.{◌≢◌, ◌↔◌}
use mathlib.Core.Bool.{Bool, true, false, ◌&&◌}
use mathlib.Core.Option.{Option, none, some}
use mathlib.Core.Option
use mathlib.Core.List.{List, [], ◌∷◌, ◌++◌}
use native.Mathlib.Omega.{arith}
use my_tiny_im.Base.Tests.{◌==◌, ==_self, if◌then◌else◌, Bool-cases}
use mathlib.Core.Logic.{inl, inr}
use my_tiny_im.Base.Lists.{All, length, drop}

abbrev pub Text : Type 0
Text = List ℕ

-- A literal's bytes; every literal of the source is ASCII.
unfoldable pub bytes : String → Text
bytes String.[] = []
bytes (String.◌∷◌ c s) = code c ∷ bytes s

-- `s.empty()`
abbrev pub is_empty : Text → Bool
is_empty [] = true
is_empty (c ∷ s) = false

-- `s == t`
unfoldable pub text_eq : Text → Text → Bool
text_eq [] [] = true
text_eq [] (d ∷ t) = false
text_eq (c ∷ s) [] = false
text_eq (c ∷ s) (d ∷ t) = c == d && text_eq s t

-- `s.find(c)`, with `none` for `npos`.
unfoldable pub find : ℕ → Text → Option ℕ
find c [] = none
find c (d ∷ s) = if d == c then some 0 else Option.map suc (find c s)

-- `s.c_str()` as a C function reads it.
unfoldable pub c_str : Text → Text
c_str [] = []
c_str (zero ∷ s) = []
c_str (suc c ∷ s) = suc c ∷ c_str s

pub text_eq→eq : (s t : Text) → text_eq s t ≡ true → s ≡ t
unfolding text_eq
text_eq→eq [] [] h = refl
text_eq→eq [] (d ∷ t) h = cc
text_eq→eq (c ∷ s) [] h = cc
text_eq→eq (c ∷ s) (d ∷ t) h = ground (arith, text_eq→eq s t)

pub text_eq_self : (s : Text) → text_eq s s ≡ true
unfolding text_eq
text_eq_self [] = refl
text_eq_self (c ∷ s) = ground (arith, text_eq_self s)

pub text_eq_iff : (s t : Text) → (text_eq s t ≡ true) ↔ (s ≡ t)
text_eq_iff s t = (text_eq→eq s t, λ e. rw e (text_eq_self t))

-- The first occurrence is behind a part that does not hold the byte.
pub find-append :
    (c : ℕ) (xs ys : Text) → All (λ d. d ≢ c) xs → find c (xs ++ c ∷ ys) ≡ some (length xs)
unfolding find
find-append c [] ys h = rw (==_self c)
find-append c (x ∷ xs) ys h = ground (arith, find-append c xs ys h.1, h.0)

pub find-none : (c : ℕ) (xs : Text) → All (λ d. d ≢ c) xs → find c xs ≡ none
unfolding find
find-none c [] h = refl
find-none c (x ∷ xs) h = ground (arith, find-none c xs h.1, h.0)

pub text_eq_ne : (s t : Text) → s ≢ t → text_eq s t ≡ false
text_eq_ne s t n = elim (Bool-cases (text_eq s t)) [
  | inl e ↦ absurd (n (text_eq→eq s t e))
  | inr e ↦ e
]

-- A part without NUL is kept.
pub c_str-append : (s t : Text) → c_str s ≡ s → c_str (s ++ t) ≡ s ++ c_str t
unfolding c_str
c_str-append [] t e = refl
c_str-append (zero ∷ s) t e = cc
c_str-append (suc c ∷ s) t e = ap (◌∷◌ (suc c)) (c_str-append s t (ap (drop 1) e))

-- A C string holds no NUL.
pub c_str_twice : (s : Text) → c_str (c_str s) ≡ c_str s
unfolding c_str
c_str_twice [] = refl
c_str_twice (x ∷ xs) = ground (arith, c_str_twice xs)
