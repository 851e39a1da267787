-- ===== src/Base/Int.antt =====
-- Go's `int`, as far as the program reads configured values: signed numbers over the native ℕ.
use Prim.Native.Nat.{ℕ, ◌-◌}
use mathlib.Core.Path.{◌≡◌}
use mathlib.Core.Logic.{◌↔◌}
use mathlib.Core.Bool.{Bool, true, false}
use native.Mathlib.Omega.{arith}
use small_x.Base.Tests.{nat_eq, leb, ltb, if◌then◌else◌}

-- `negsuc n` is -(n + 1).
pub data ℤ : Type 0 where
  pos : ℕ → ℤ
  negsuc : ℕ → ℤ

abbrev pub int_eq : ℤ → ℤ → Bool
int_eq (pos a) (pos b) = nat_eq a b
int_eq (negsuc a) (negsuc b) = nat_eq a b
int_eq (pos a) (negsuc b) = false
int_eq (negsuc a) (pos b) = false

pub int_eq_iff : (a b : ℤ) → (int_eq a b ≡ true) ↔ (a ≡ b)
int_eq_iff (pos a) (pos b) = ground arith
int_eq_iff (negsuc a) (negsuc b) = ground arith
int_eq_iff (pos a) (negsuc b) = ((λ h. cc), λ h. cc)
int_eq_iff (negsuc a) (pos b) = ((λ h. cc), λ h. cc)

-- `x > 0`.
abbrev pub is_positive : ℤ → Bool
is_positive (pos n) = ltb 0 n
is_positive (negsuc n) = false

-- `a <= b` on signed numbers.
abbrev pub leb_int : ℤ → ℤ → Bool
leb_int (pos a) (pos b) = leb a b
leb_int (negsuc a) (negsuc b) = leb b a
leb_int (pos a) (negsuc b) = false
leb_int (negsuc a) (pos b) = true

abbrev pub pos_part : ℤ → ℕ
pos_part (pos n) = n
pos_part (negsuc n) = 0

-- The 64-bit two's complement pattern `w` (below 2 ^ 64) as the number that it stands for.
abbrev pub signed64 : ℕ → ℤ
signed64 w =
    if ltb w 9_223_372_036_854_775_808 then pos w else negsuc (18_446_744_073_709_551_616 - w - 1)

abbrev pub word64 : ℕ
word64 = 18_446_744_073_709_551_616
