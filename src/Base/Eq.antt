-- ===== src/Base/Eq.antt =====
-- Boolean equality of keys as an interface, with the key types of the program: numbers, signed
-- integers, texts.
use Prim.Native.Nat.{ℕ}
use mathlib.Core.Path.{◌≡◌}
use mathlib.Core.Logic.{◌↔◌}
use mathlib.Core.Bool.{Bool, true}
use my_tiny_im.Base.Tests.{◌==◌, ==_iff}
use my_tiny_im.Base.Text.{Text, text_eq, text_eq_iff}
use my_tiny_im.Base.Int.{ℤ, int_eq, int_eq→eq, int_eq_self}

pub record Eq {ℓ} (A : Type ℓ) : Type ℓ where
  pub beq : A → A → Bool
  pub beq_iff : (a b : A) → (beq a b ≡ true) ↔ (a ≡ b)

pub int_eq_iff : (x y : ℤ) → (int_eq x y ≡ true) ↔ (x ≡ y)
int_eq_iff x y = (int_eq→eq x y, λ e. rw e (int_eq_self y))

instance abbrev pub nat_Eq : Eq ℕ
nat_Eq = record { beq = ◌==◌; beq_iff = ==_iff }

instance abbrev pub int_Eq : Eq ℤ
int_Eq = record { beq = int_eq; beq_iff = int_eq_iff }

instance abbrev pub text_Eq : Eq Text
text_Eq = record { beq = text_eq; beq_iff = text_eq_iff }
