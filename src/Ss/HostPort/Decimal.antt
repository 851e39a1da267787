-- ===== src/Ss/HostPort/Decimal.antt =====
-- `Atoi` reads what `Itoa` writes.
use Prim.Native.Nat.{◌^◌}
use native.Mathlib.Nat.{pow-suc}
use small_x.Base.{
  ap, pos, ℕ, zero, suc, ◌+◌, ◌-◌, ◌*◌, ◌/◌, ◌%◌, ◌<◌, ◌≡◌, refl, ◌∙◌, Text, [], ◌∷◌, some, arith,
  ltb, Bool-cases, inl, inr, All, true,
}
use small_x.Ss.HostPort.{itoa_onto, itoa, digits_value, atoi, is_digit, unsigned_digits}

itoa_onto-value :
    (fuel n : ℕ) (acc : Text)
    → n < 10 ^ fuel
    → digits_value 0 (itoa_onto fuel n acc) ≡ digits_value n acc
unfolding itoa_onto digits_value
itoa_onto-value zero n acc h = let e : n ≡ 0 = omega arith in rw e
itoa_onto-value (suc fuel) n acc h =
    let step : 10 ^ suc fuel ≡ 10 ^ fuel * 10 = pow-suc 10 fuel in
    let digit : n / 10 * 10 + (n % 10 + 48 - 48) ≡ n = omega arith in
    elim (Bool-cases (ltb n 10)) [
      | inl small ↦ rw small (ground arith)
      | inr large ↦ rw large (
          itoa_onto-value fuel (n / 10) ((n % 10 + 48) ∷ acc) (omega arith)
          ∙ ground (arith, ap (λ (v : ℕ). digits_value v acc) digit))
    ]

-- The text is made of digits, and there is at least one.
pub itoa_onto-digits :
    (fuel n : ℕ) (acc : Text)
    → All (λ c. is_digit c ≡ true) acc
    → All (λ c. is_digit c ≡ true) (itoa_onto fuel n acc)
unfolding itoa_onto
itoa_onto-digits zero n acc h = h
itoa_onto-digits (suc fuel) n acc h =
    ground (arith, itoa_onto-digits fuel (n / 10) ((n % 10 + 48) ∷ acc))

pub itoa-digits : (n : ℕ) → All (λ c. is_digit c ≡ true) (itoa n)
unfolding itoa
itoa-digits n = itoa_onto-digits 20 n [] tt

atoi-digits :
    (s : Text) (n : ℕ)
    → All (λ c. is_digit c ≡ true) s
    → unsigned_digits s ≡ some n
    → n < 9_223_372_036_854_775_808
    → atoi s ≡ some (pos n)
unfolding atoi
atoi-digits [] n d e h = ground arith
atoi-digits (c ∷ s) n d e h = ground arith

itoa_onto-unsigned :
    (fuel n : ℕ) (c : ℕ) (acc : Text)
    → unsigned_digits (itoa_onto fuel n (c ∷ acc)) ≡ digits_value 0 (itoa_onto fuel n (c ∷ acc))
unfolding itoa_onto
itoa_onto-unsigned zero n c acc = refl
itoa_onto-unsigned (suc fuel) n c acc =
    ground (arith, itoa_onto-unsigned fuel (n / 10) (n % 10 + 48) (c ∷ acc))

itoa-unsigned : (n : ℕ) → unsigned_digits (itoa n) ≡ digits_value 0 (itoa n)
unfolding itoa itoa_onto
itoa-unsigned n = ground (arith, itoa_onto-unsigned 19 (n / 10) (n % 10 + 48) [])

-- Every number of an int64 comes back.
pub atoi-itoa : (n : ℕ) → n < 9_223_372_036_854_775_808 → atoi (itoa n) ≡ some (pos n)
atoi-itoa n h = atoi-digits (itoa n) n (itoa-digits n) (itoa-unsigned n ∙ value n h) h
  where
    value : (n : ℕ) → n < 9_223_372_036_854_775_808 → digits_value 0 (itoa n) ≡ some n
    value n h = unfold itoa digits_value in itoa_onto-value 20 n [] (omega arith)
