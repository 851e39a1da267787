-- ===== src/Ss/Translate/Secrets.antt =====
-- The secrets of users that `derivePassword` of internal/ss/translate.go takes, and the passwords that
-- it gives.
use small_x.Base.{
  ℕ, ◌≡◌, ◌≤◌, refl, ◌∙◌, Text, List, [], ◌∷◌, Bool, true, false, ◌&&◌, ◌||◌, not, none, some,
  length, take, ltb, leb, nat_eq, Result, ok, err, arith, Bool-cases, inl, inr, ◌⊎◌, any,
  if◌then◌else◌,
}
use small_x.Base.Strings.{trim_space, split, split_first, contains_byte}
use small_x.Ss.Types.{CipherSpec}
use small_x.Ss.Translate.{
  TranslateError, empty_user_secret, user_secret_too_short, is_empty, user_part, derive_password,
}

abbrev pub is_filled : Text → Bool
is_filled s = ltb 0 (length s)

pub filled_key :
    (is_2022 : Bool) (key : Text) → not (is_2022 && is_empty key) ≡ (not is_2022 || is_filled key)
filled_key is_2022 key = ground arith

-- The second one of exactly two parts.
abbrev pub second_of_two : List Text → Text
second_of_two [] = []
second_of_two (a ∷ []) = []
second_of_two (a ∷ b ∷ []) = b
second_of_two (a ∷ b ∷ c ∷ parts) = []

-- The user's part of a secret of the form `serverKey:userKey`.
abbrev pub user_key : Text → Text
user_key raw = trim_space (second_of_two (split b':' raw))

-- A secret that is not blank; for a 2022 cipher also one with a user's part, or of the size of a key.
abbrev pub is_good_secret : Bool → ℕ → Text → Bool
is_good_secret is_2022 key_size secret =
    let raw = trim_space secret in
    is_filled raw && (not is_2022 || (is_filled (user_key raw) || leb key_size (length raw)))

-- The password for a good secret: the secret itself, the user's part, or the encoded first bytes.
abbrev pub IsPasswordOf : (Text → Text) → Bool → ℕ → Text → Text → Type 0
IsPasswordOf encode is_2022 key_size raw pass =
    ((is_2022 ≡ false) × (pass ≡ raw))
    ⊎ ((is_2022 ≡ true) × (is_filled (user_key raw) ≡ true) × (pass ≡ user_key raw))
    ⊎ ((is_2022 ≡ true)
        × (is_filled (user_key raw) ≡ false)
        × (key_size ≤ length raw)
        × (pass ≡ encode (take key_size raw)))

split_whole : (c : ℕ) (s : Text) → contains_byte c s ≡ false → split_first c s ≡ (s, [])
unfolding contains_byte split_first
split_whole c [] h = refl
split_whole c (a ∷ s) h =
    let here : nat_eq a c ≡ false = ground (arith, h) in
    let there : any (nat_eq c) s ≡ false = ground (arith, h) in
    rw (split_whole c s there, here) refl

-- Without a colon there is no user's part.
no_user_key : (raw : Text) → contains_byte b':' raw ≡ false → is_filled (user_key raw) ≡ false
unfolding split trim_space
no_user_key raw h = rw (split_whole b':' raw h) refl

user_part-second :
    (parts : List Text)
    → user_part parts
      ≡ (let key = trim_space (second_of_two parts) in if is_filled key then some key else none)
unfolding trim_space
user_part-second [] = refl
user_part-second (a ∷ []) = refl
user_part-second (a ∷ b ∷ []) = ground arith
user_part-second (a ∷ b ∷ c ∷ parts) = refl

-- What `derivePassword` gives, if anything.
abbrev pub Derives : (Text → Text) → Bool → ℕ → Text → Result TranslateError Text → Type 0
Derives encode is_2022 key_size secret (ok pass) =
    (is_good_secret is_2022 key_size secret ≡ true)
    × IsPasswordOf encode is_2022 key_size (trim_space secret) pass
Derives encode is_2022 key_size secret (err e) = is_good_secret is_2022 key_size secret ≡ false

given_part :
    (raw : Text)
    → is_filled (user_key raw) ≡ true
    → user_part (split b':' raw) ≡ some (user_key raw)
given_part raw h = user_part-second (split b':' raw) ∙ rw h refl

no_part : (raw : Text) → is_filled (user_key raw) ≡ false → user_part (split b':' raw) ≡ none
no_part raw h = user_part-second (split b':' raw) ∙ rw h refl

has_colon : (raw : Text) → is_filled (user_key raw) ≡ true → contains_byte b':' raw ≡ true
has_colon raw h = elim (Bool-cases (contains_byte b':' raw)) [
  | inl found ↦ found
  | inr missing ↦ absurd (cc (h, no_user_key raw missing))
]

-- Without a user's part, the first bytes are encoded.
derive_unkeyed :
    (encode : Text → Text) (spec : CipherSpec) (secret : Text)
    → is_empty (trim_space secret) ≡ false
    → spec.is_2022 ≡ true
    → is_filled (user_key (trim_space secret)) ≡ false
    → derive_password encode spec secret ≡ (
        if ltb (length (trim_space secret)) spec.user_key_size
        then err (user_secret_too_short spec.name)
        else ok (encode (take spec.user_key_size (trim_space secret))))
unfolding derive_password
derive_unkeyed encode spec secret given new unkeyed =
    elim (Bool-cases (contains_byte b':' (trim_space secret))) [
      | inl colon ↦
          rw (derive_password, given, new, colon, no_part (trim_space secret) unkeyed) refl
      | inr plain ↦ rw (derive_password, given, new, plain) refl
    ]

pub derive_password-Derives :
    (encode : Text → Text) (spec : CipherSpec) (secret : Text)
    → Derives encode spec.is_2022 spec.user_key_size secret (derive_password encode spec secret)
unfolding derive_password
derive_password-Derives encode spec secret =
    let raw = trim_space secret in
    elim (Bool-cases (is_empty raw)) [
      | inl blank ↦
          let e : derive_password encode spec secret ≡ err empty_user_secret =
            rw (derive_password, blank) refl in
          rw e (ground (arith, blank))
      | inr given ↦
          let filled : is_filled raw ≡ true = ground (arith, given) in
          elim (Bool-cases spec.is_2022) [
            | inr old ↦
                let e : derive_password encode spec secret ≡ ok raw =
                  rw (derive_password, given, old) refl in
                rw e (rw (filled, old) refl, inl (old, refl))
            | inl new ↦ elim (Bool-cases (is_filled (user_key raw))) [
              | inl keyed ↦
                  let e : derive_password encode spec secret ≡ ok (user_key raw) =
                    rw (derive_password, given, new, has_colon raw keyed, given_part raw keyed)
                      refl in
                  rw e (rw (filled, new, keyed) refl, inr (inl (new, keyed, refl)))
              | inr unkeyed ↦ elim (Bool-cases (ltb (length raw) spec.user_key_size)) [
                | inl short ↦
                    let e : derive_password encode spec secret
                        ≡ err (user_secret_too_short spec.name) =
                      derive_unkeyed encode spec secret given new unkeyed ∙ rw short refl in
                    let no : leb spec.user_key_size (length raw) ≡ false = ground (arith, short) in
                    rw e (rw (filled, new, unkeyed, no) refl)
                | inr long ↦
                    let e : derive_password encode spec secret
                        ≡ ok (encode (take spec.user_key_size raw)) =
                      derive_unkeyed encode spec secret given new unkeyed ∙ rw long refl in
                    let yes : leb spec.user_key_size (length raw) ≡ true = ground (arith, long) in
                    rw e (
                      rw (filled, new, unkeyed, yes) refl,
                      inr (inr (new, unkeyed, ground (arith, long), refl)),
                    )
              ]
            ]
          ]
    ]
