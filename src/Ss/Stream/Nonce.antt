-- ===== src/Ss/Stream/Nonce.antt =====
-- `incrementNonce` of stream.go counts.
use small_x.Base.{
  ℕ, zero, suc, ◌+◌, ◌*◌, ◌<◌, ◌≡◌, ◌%◌, ◌∙◌, inl, inr, refl, List, [], ◌∷◌, length, nat_eq,
  replicate, length-replicate, arith, All, Bool-cases,
}
use small_x.Ss.Stream.{increment_nonce}

abbrev pub IsByte : ℕ → Type 0
IsByte b = b < 256

-- The number that a nonce stands for, and the number of nonces of a length.
abbrev pub nonce_value : List ℕ → ℕ
nonce_value [] = 0
nonce_value (b ∷ nonce) = b + 256 * nonce_value nonce

abbrev pub nonce_count : ℕ → ℕ
nonce_count zero = 1
nonce_count (suc n) = 256 * nonce_count n

pub length-increment_nonce : (nonce : List ℕ) → length (increment_nonce nonce) ≡ length nonce
unfolding increment_nonce
length-increment_nonce [] = refl
length-increment_nonce (b ∷ nonce) = ground (arith, length-increment_nonce nonce)

increment_nonce-IsByte : (nonce : List ℕ) → All IsByte nonce → All IsByte (increment_nonce nonce)
unfolding increment_nonce
increment_nonce-IsByte [] h = tt
increment_nonce-IsByte (b ∷ nonce) (h, hs) = elim (Bool-cases (nat_eq ((b + 1) % 256) 0)) [
  | inl carry ↦ rw carry (omega arith, increment_nonce-IsByte nonce hs)
  | inr none_ ↦ rw none_ (omega arith, hs)
]

nonce_value_step :
    (nonce : List ℕ)
    → All IsByte nonce
    → nonce_value nonce + 1 < nonce_count (length nonce)
    → nonce_value (increment_nonce nonce) ≡ nonce_value nonce + 1
unfolding increment_nonce
nonce_value_step [] h small = absurd (omega arith)
nonce_value_step (b ∷ nonce) (h, hs) small = ground (arith, nonce_value_step nonce hs)

-- The nonce of a session after `k` increments.
abbrev pub nonce_after : ℕ → ℕ → List ℕ
nonce_after size zero = replicate size 0
nonce_after size (suc k) = increment_nonce (nonce_after size k)

pub length-nonce_after : (size k : ℕ) → length (nonce_after size k) ≡ size
length-nonce_after size zero = length-replicate size 0
length-nonce_after size (suc k) =
    omega (arith, length-increment_nonce (nonce_after size k), length-nonce_after size k)

nonce_after-IsByte : (size k : ℕ) → All IsByte (nonce_after size k)
nonce_after-IsByte zero zero = tt
nonce_after-IsByte (suc n) zero = (omega arith, nonce_after-IsByte n zero)
nonce_after-IsByte size (suc k) =
    increment_nonce-IsByte (nonce_after size k) (nonce_after-IsByte size k)

nonce_value_zeros : (size : ℕ) → nonce_value (replicate size 0) ≡ 0
nonce_value_zeros zero = refl
nonce_value_zeros (suc n) = omega (arith, nonce_value_zeros n)

-- A nonce of `size` bytes that starts at 0 has the value `k` after `k` increments, as long as `k` is
-- below the number of nonces: until then no nonce of a session is used twice.
pub nonce_value-nonce_after :
    (size k : ℕ) → k < nonce_count size → nonce_value (nonce_after size k) ≡ k
nonce_value-nonce_after size zero h = nonce_value_zeros size
nonce_value-nonce_after size (suc k) h =
    let before = nonce_value-nonce_after size k (omega arith) in
    let sized = length-nonce_after size k in
    nonce_value_step (nonce_after size k) (nonce_after-IsByte size k)
      (rw (before, sized) (omega arith))
    ∙ omega (arith, before)
