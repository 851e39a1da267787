-- ===== src/Ss/Translate/Ciphers.antt =====
-- The ciphers that `Translate` of internal/ss/translate.go knows, by their names.
use small_x.Base.{
  ℕ, ◌≡◌, refl, Text, Bool, true, false, ◌||◌, Option, none, some, text_eq, text_eq_iff, text_keys,
  Bool-cases, inl, inr, if◌then◌else◌,
}
use small_x.Base.Strings.{codes}
use small_x.Base.Map.{lookup}
use small_x.Ss.Types.{CipherSpec}
use small_x.Ss.Translate.{ciphers}

abbrev pub is_classic : Text → Bool
is_classic name =
    text_eq (codes "chacha20-ietf-poly1305") name
    || (text_eq (codes "aes-128-gcm") name
        || (text_eq (codes "aes-192-gcm") name || text_eq (codes "aes-256-gcm") name))

-- Whether a cipher of that name is a 2022 one, and the size of the key of a user for it.
abbrev pub kind_of : Text → Option (Bool × ℕ)
kind_of name =
    if is_classic name
    then some (false, 0)
    else if text_eq (codes "2022-blake3-aes-128-gcm") name
    then some (true, 16)
    else if text_eq (codes "2022-blake3-aes-256-gcm") name
    then some (true, 32)
    else none

-- The entry of a name has that name and kind.
abbrev pub Names : Text → Option CipherSpec → Type 0
Names name none = kind_of name ≡ none
Names name (some spec) =
    (spec.name ≡ name) × (kind_of name ≡ some (spec.is_2022, spec.user_key_size))

pub lookup-Names : (name : Text) → Names name (lookup name ciphers)
unfolding lookup
lookup-Names name = elim (Bool-cases (text_eq (codes "chacha20-ietf-poly1305") name)) [
  | inl h1 ↦ rw h1 ((text_eq_iff (codes "chacha20-ietf-poly1305") name).0 h1, rw h1 refl)
  | inr n1 ↦ elim (Bool-cases (text_eq (codes "aes-128-gcm") name)) [
    | inl h2 ↦ rw (n1, h2) ((text_eq_iff (codes "aes-128-gcm") name).0 h2, rw (n1, h2) refl)
    | inr n2 ↦ elim (Bool-cases (text_eq (codes "aes-192-gcm") name)) [
      | inl h3 ↦
          rw (n1, n2, h3) ((text_eq_iff (codes "aes-192-gcm") name).0 h3, rw (n1, n2, h3) refl)
      | inr n3 ↦ elim (Bool-cases (text_eq (codes "aes-256-gcm") name)) [
        | inl h4 ↦
            rw (n1, n2, n3, h4)
              ((text_eq_iff (codes "aes-256-gcm") name).0 h4, rw (n1, n2, n3, h4) refl)
        | inr n4 ↦ elim (Bool-cases (text_eq (codes "2022-blake3-aes-128-gcm") name)) [
          | inl h5 ↦
              rw (n1, n2, n3, n4, h5)
                (
                  (text_eq_iff (codes "2022-blake3-aes-128-gcm") name).0 h5,
                  rw (n1, n2, n3, n4, h5) refl,
                )
          | inr n5 ↦ elim (Bool-cases (text_eq (codes "2022-blake3-aes-256-gcm") name)) [
            | inl h6 ↦
                rw (n1, n2, n3, n4, n5, h6)
                  (
                    (text_eq_iff (codes "2022-blake3-aes-256-gcm") name).0 h6,
                    rw (n1, n2, n3, n4, n5, h6) refl,
                  )
            | inr n6 ↦ rw (n1, n2, n3, n4, n5, n6) (rw (n1, n2, n3, n4, n5, n6) refl)
          ]
        ]
      ]
    ]
  ]
]
