-- ===== src/Base/Int.antt =====
-- Signed 64-bit values as integers, `std::to_string` and `std::stoll` in base ten.
use Prim.Native.Nat.{ℕ, zero, suc, ◌+◌, ◌-◌, ◌*◌, ◌/◌, ◌%◌, ◌^◌, ◌≤◌, ◌<◌}
use mathlib.Core.Path.{◌≡◌, refl, sym, ap, ◌∙◌}
use mathlib.Core.Logic.{◌≢◌, inl, inr}
use mathlib.Core.Bool.{Bool, true, false, ◌&&◌, ◌||◌}
use mathlib.Core.Option.{Option, none, some}
use mathlib.Core.List.{[], ◌∷◌, ◌++◌, append_assoc, append-nil}
use native.Mathlib.Omega.{arith}
use my_tiny_im.Base.Tests.{leb, ltb, ◌==◌, if◌then◌else◌, Bool-cases, lt→ltb}
use my_tiny_im.Base.Lists.{All}
use my_tiny_im.Base.Text.{Text, bytes, c_str}

-- `negsuc n` is -(n + 1).
pub data ℤ : Type 0 where
  pos : ℕ → ℤ
  negsuc : ℕ → ℤ

-- `x > 0`
abbrev pub is_positive : ℤ → Bool
is_positive (pos zero) = false
is_positive (pos (suc n)) = true
is_positive (negsuc n) = false

-- `x == y`
abbrev pub int_eq : ℤ → ℤ → Bool
int_eq (pos m) (pos n) = m == n
int_eq (pos m) (negsuc n) = false
int_eq (negsuc m) (pos n) = false
int_eq (negsuc m) (negsuc n) = m == n

-- `x < y`
abbrev pub int_lt : ℤ → ℤ → Bool
int_lt (pos m) (pos n) = ltb m n
int_lt (pos m) (negsuc n) = false
int_lt (negsuc m) (pos n) = true
int_lt (negsuc m) (negsuc n) = ltb n m

pub int_eq→eq : (x y : ℤ) → int_eq x y ≡ true → x ≡ y
int_eq→eq x y h = ground arith

pub int_eq_self : (x : ℤ) → int_eq x x ≡ true
int_eq_self x = ground arith

pub int_eq_of : (x y : ℤ) → x ≡ y → int_eq x y ≡ true
int_eq_of x y h = ground arith

pub int_eq_ne : (x y : ℤ) → x ≢ y → int_eq x y ≡ false
int_eq_ne x y h = ground arith

-- An `int64_t`.
abbrev pub IsInt64 : ℤ → Type 0
IsInt64 (pos n) = n < 2 ^ 63
IsInt64 (negsuc n) = n < 2 ^ 63

-- The fuel exceeds the value, so the last clause is not reached.
print_fuel : ℕ → ℕ → Text
print_fuel (suc f) n =
    let front = print_fuel f (n / 10) in
    if ltb n 10 then (48 + n) ∷ [] else front ++ (48 + n % 10) ∷ []
print_fuel zero n = []

unfoldable pub print_nat : ℕ → Text
unfolding print_fuel
print_nat n = print_fuel (suc n) n

-- `std::to_string(x)`, and `os << x`
unfoldable pub to_string : ℤ → Text
to_string (pos n) = print_nat n
to_string (negsuc n) = b'-' ∷ print_nat (suc n)

abbrev pub is_digit : ℕ → Bool
is_digit c = leb 48 c && leb c 57

abbrev is_space : ℕ → Bool
is_space c = c == 32 || (leb 9 c && leb c 13)

-- The digits at the front; what follows them is left alone.
read_digits : ℕ → Text → ℕ
read_digits acc [] = acc
read_digits acc (c ∷ s) = elim (is_digit c) [
  | true ↦ read_digits (acc * 10 + (c - 48)) s
  | false ↦ acc
]

-- `none` stands for the exceptions `invalid_argument` and `out_of_range`.
abbrev read_negative : ℕ → Option ℤ
read_negative zero = some (pos 0)
read_negative (suc n) = if ltb n (2 ^ 63) then some (negsuc n) else none

abbrev read_positive : ℕ → Option ℤ
read_positive n = if ltb n (2 ^ 63) then some (pos n) else none

read_unsigned : (ℕ → Option ℤ) → Text → Option ℤ
unfolding read_digits
read_unsigned sign [] = none
read_unsigned sign (c ∷ s) = if is_digit c then sign (read_digits 0 (c ∷ s)) else none

read_signed : Text → Option ℤ
unfolding read_unsigned
read_signed [] = none
read_signed (c ∷ s) =
    if c == b'-'
    then read_unsigned read_negative s
    else if c == b'+'
    then read_unsigned read_positive s
    else read_unsigned read_positive (c ∷ s)

-- `std::stoll(s)`
unfoldable pub stoll : Text → Option ℤ
unfolding read_signed
stoll [] = none
stoll (c ∷ s) = elim (is_space c) [ true ↦ stoll s | false ↦ read_signed (c ∷ s) ]

-- An `int`.
abbrev pub in_int32 : ℤ → Bool
in_int32 (pos n) = ltb n (2 ^ 31)
in_int32 (negsuc n) = ltb n (2 ^ 31)

abbrev as_int32 : Option ℤ → Option ℤ
as_int32 none = none
as_int32 (some x) = if in_int32 x then some x else none

-- `std::stoi(s)`
unfoldable pub stoi : Text → Option ℤ
stoi s = as_int32 (stoll s)

abbrev pub IsDigits : Text → Type 0
IsDigits = All (λ c. (48 ≤ c) × (c ≤ 57))

IsDigits-append : (xs ys : Text) → IsDigits xs → IsDigits ys → IsDigits (xs ++ ys)
IsDigits-append [] ys hx hy = hy
IsDigits-append (x ∷ xs) ys hx hy = (hx.0, IsDigits-append xs ys hx.1 hy)

snoc-ne-nil : (xs : Text) (c : ℕ) → xs ++ c ∷ [] ≢ []
snoc-ne-nil [] c e = cc
snoc-ne-nil (x ∷ xs) c e = cc

is_digit_of : (c : ℕ) → 48 ≤ c → c ≤ 57 → is_digit c ≡ true
is_digit_of c h k = ground arith

IsDigits-All-ne : (s : Text) (c : ℕ) → 57 < c → IsDigits s → All (λ d. d ≢ c) s
IsDigits-All-ne [] c h d = tt
IsDigits-All-ne (x ∷ s) c h d = (omega arith, IsDigits-All-ne s c h d.1)

print_fuel-IsDigits : (f n : ℕ) → IsDigits (print_fuel f n)
unfolding print_fuel
print_fuel-IsDigits zero n = tt
print_fuel-IsDigits (suc f) n = ground (
  arith,
  IsDigits-append (print_fuel f (n / 10)) ((48 + n % 10) ∷ []) (print_fuel-IsDigits f (n / 10))
      (omega arith),
)

pub print_nat-IsDigits : (n : ℕ) → IsDigits (print_nat n)
unfolding print_nat
print_nat-IsDigits n = print_fuel-IsDigits (suc n) n

read_digits-cons :
    (acc c : ℕ) (s : Text)
    → 48 ≤ c
    → c ≤ 57
    → read_digits acc (c ∷ s) ≡ read_digits (acc * 10 + (c - 48)) s
unfolding read_digits
read_digits-cons acc c s h k = ground arith

read_digits-print_fuel :
    (f n : ℕ) (rest : Text) → n < f → read_digits 0 (print_fuel f n ++ rest) ≡ read_digits n rest
unfolding print_fuel
read_digits-print_fuel zero n rest h = elim h [ ]
read_digits-print_fuel (suc f) n rest h = elim (Bool-cases (ltb n 10)) [
  | inl small ↦ rw small (
      read_digits-cons 0 (48 + n) rest (omega arith) (ground arith)
      ∙ ap (λ k. read_digits k rest) (omega arith))
  | inr large ↦
      rw (large, append_assoc)
        (read_digits-print_fuel f (n / 10) ((48 + n % 10) ∷ rest) (ground arith)
          ∙ read_digits-cons (n / 10) (48 + n % 10) rest (omega arith) (omega arith)
          ∙ ap (λ k. read_digits k rest) (omega arith))
]

read_digits-print_nat : (n : ℕ) → read_digits 0 (print_nat n) ≡ n
unfolding print_nat
read_digits-print_nat n =
    ap (read_digits 0) (sym (append-nil (print_fuel (suc n) n)))
    ∙ read_digits-print_fuel (suc n) n [] (omega arith)
    ∙ unfold read_digits in refl

print_nat-ne-nil : (n : ℕ) → print_nat n ≢ []
unfolding print_nat print_fuel
print_nat-ne-nil n = ground (arith, snoc-ne-nil (print_fuel n (n / 10)) (48 + n % 10))

read_unsigned-digits :
    (sign : ℕ → Option ℤ) (s : Text)
    → IsDigits s
    → s ≢ []
    → read_unsigned sign s ≡ sign (read_digits 0 s)
unfolding read_unsigned
read_unsigned-digits sign [] d h = absurd (h refl)
read_unsigned-digits sign (c ∷ s) d h = rw (is_digit_of c d.0.0 d.0.1)

read_unsigned-print_nat : (sign : ℕ → Option ℤ) (n : ℕ) → read_unsigned sign (print_nat n) ≡ sign n
read_unsigned-print_nat sign n =
    read_unsigned-digits sign (print_nat n) (print_nat-IsDigits n) (print_nat-ne-nil n)
    ∙ ap sign (read_digits-print_nat n)

stoll-digits : (s : Text) → IsDigits s → s ≢ [] → stoll s ≡ read_unsigned read_positive s
unfolding stoll read_signed
stoll-digits [] d h = absurd (h refl)
stoll-digits (c ∷ s) d h = ground arith

IsDigits-All-ne_below : (s : Text) (c : ℕ) → c < 45 → IsDigits s → All (λ d. d ≢ c) s
IsDigits-All-ne_below [] c h d = tt
IsDigits-All-ne_below (x ∷ s) c h d = (omega (arith, d.0.0), IsDigits-All-ne_below s c h d.1)

-- The text of a number holds no byte below the minus sign.
pub to_string-All-ne_below : (x : ℤ) (c : ℕ) → c < 45 → All (λ d. d ≢ c) (to_string x)
unfolding to_string
to_string-All-ne_below (pos n) c h = IsDigits-All-ne_below (print_nat n) c h (print_nat-IsDigits n)
to_string-All-ne_below (negsuc n) c h =
    (omega arith, IsDigits-All-ne_below (print_nat (suc n)) c h (print_nat-IsDigits (suc n)))

-- `stoll` reads back what `to_string` wrote.
pub stoll-to_string : (x : ℤ) → IsInt64 x → stoll (to_string x) ≡ some x
unfolding to_string
stoll-to_string (pos n) h =
    stoll-digits (print_nat n) (print_nat-IsDigits n) (print_nat-ne-nil n)
    ∙ read_unsigned-print_nat read_positive n
    ∙ rw (lt→ltb n (2 ^ 63) h)
stoll-to_string (negsuc n) h =
    unfold stoll read_signed in
    (read_unsigned-print_nat read_negative (suc n) ∙ rw (lt→ltb n (2 ^ 63) h))

-- The text of a number holds no byte but digits and a minus sign.
pub to_string-All-ne : (x : ℤ) (c : ℕ) → 57 < c → All (λ d. d ≢ c) (to_string x)
unfolding to_string
to_string-All-ne (pos n) c h = IsDigits-All-ne (print_nat n) c h (print_nat-IsDigits n)
to_string-All-ne (negsuc n) c h =
    (omega arith, IsDigits-All-ne (print_nat (suc n)) c h (print_nat-IsDigits (suc n)))

to_string_min : to_string (negsuc 41) ≡ bytes "-42"
unfolding to_string print_nat print_fuel bytes
to_string_min = refl

stoll_trailing : stoll (bytes " +17abc") ≡ some (pos 17)
unfolding stoll bytes
stoll_trailing = refl

stoll_word : stoll (bytes "abc") ≡ none
unfolding stoll bytes
stoll_word = refl

-- `stoi` reads back what `to_string` wrote.
pub stoi-to_string : (x : ℤ) → in_int32 x ≡ true → stoi (to_string x) ≡ some x
unfolding stoi
stoi-to_string (pos n) h = rw (stoll-to_string (pos n) (ground arith), h)
stoi-to_string (negsuc n) h = rw (stoll-to_string (negsuc n) (ground arith), h)

-- The text of a number holds no NUL, so that it is its own C string.
IsDigits-c_str : (s : Text) → IsDigits s → c_str s ≡ s
unfolding c_str
IsDigits-c_str [] d = refl
IsDigits-c_str (zero ∷ s) d = absurd (omega (arith, d.0.0))
IsDigits-c_str (suc c ∷ s) d = ap (◌∷◌ (suc c)) (IsDigits-c_str s d.1)

pub c_str-to_string : (x : ℤ) → c_str (to_string x) ≡ to_string x
unfolding to_string
c_str-to_string (pos n) = IsDigits-c_str (print_nat n) (print_nat-IsDigits n)
c_str-to_string (negsuc n) =
    unfold c_str in ap (◌∷◌ b'-') (IsDigits-c_str (print_nat (suc n)) (print_nat-IsDigits (suc n)))
