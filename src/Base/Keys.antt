-- ===== src/Base/Keys.antt =====
-- Keys with a Boolean equality: `==` of the types that the program uses as map keys.
use Prim.Native.Nat.{ℕ}
use mathlib.Core.Path.{◌≡◌, refl, sym}
use mathlib.Core.Logic.{◌↔◌}
use mathlib.Core.Bool.{Bool, true, false, ◌&&◌}
use mathlib.Core.List.{List, [], ◌∷◌}
use small_x.Base.Tests.{nat_eq, nat_eq_iff, &&-true}
use small_x.Base.Int.{ℤ, int_eq, int_eq_iff}

pub record Eq {ℓ} (A : Type ℓ) : Type ℓ where
  pub same_key : A → A → Bool
  pub same_key_iff : (x y : A) → (same_key x y ≡ true) ↔ (x ≡ y)

infix 50 ◌==◌
abbrev pub ◌==◌ {ℓ} : {A : Type ℓ} ⦃e : Eq A⦄ → A → A → Bool
◌==◌ ⦃e⦄ = e.same_key

-- A Go string: its bytes.
abbrev pub Text : Type 0
Text = List ℕ

abbrev pub text_eq : Text → Text → Bool
text_eq [] [] = true
text_eq (a ∷ s) (b ∷ t) = nat_eq a b && text_eq s t
text_eq _ _ = false

pub text_eq-eq : (s t : Text) → text_eq s t ≡ true → s ≡ t
text_eq-eq [] [] h = refl
text_eq-eq (a ∷ s) (b ∷ t) h =
    let (p, q) = &&-true (nat_eq a b) (text_eq s t) h in
    let e : a ≡ b = (nat_eq_iff a b).0 p in cc (e, text_eq-eq s t q)
text_eq-eq [] (b ∷ t) h = cc
text_eq-eq (a ∷ s) [] h = cc

pub text_eq_refl : (s : Text) → text_eq s s ≡ true
text_eq_refl [] = refl
text_eq_refl (a ∷ s) = rw ((nat_eq_iff a a).1 refl, text_eq_refl s)

pub text_eq_iff : (s t : Text) → (text_eq s t ≡ true) ↔ (s ≡ t)
text_eq_iff s t = (text_eq-eq s t, λ e. rw e (text_eq_refl t))

instance abbrev pub nat_keys : Eq ℕ
nat_keys = record { same_key = nat_eq; same_key_iff = nat_eq_iff }

instance abbrev pub int_keys : Eq ℤ
int_keys = record { same_key = int_eq; same_key_iff = int_eq_iff }

instance abbrev pub text_keys : Eq Text
text_keys = record { same_key = text_eq; same_key_iff = text_eq_iff }

module _ {ℓ} {A : Type ℓ} ⦃e : Eq A⦄ where
  pub ==_refl : (a : A) → (a == a) ≡ true
  ==_refl a = (e.same_key_iff a a).1 refl

  pub ==_sym : (a b : A) → (a == b) ≡ true → (b == a) ≡ true
  ==_sym a b h = (e.same_key_iff b a).1 (sym ((e.same_key_iff a b).0 h))
