-- ===== src/Ss/Stream/Authentic.antt =====
-- What `identifyTCPUser` has opened of the bytes of a stream, whoever sent them.
use small_x.Base.{
  ℕ, ◌+◌, ◌≡◌, refl, sym, ap, ◌∙◌, subst, List, [], ◌∷◌, ◌++◌, some, Result, ok, err, length, ltb,
  length-take, take, drop, take-append-drop, Option-cases, replicate, arith, In, inl, inr, ◌⊎◌,
  nat_eq, >>=-eq-ok, Bool-cases,
}
use small_x.Ss.Cipher.{CryptoLib, CipherDef, salt_size, overhead, derive_session_aead}
use small_x.Ss.Stream.{
  increment_nonce, fresh, frame_size, UserEntry, Identified, Session, StreamError, try_user,
  first_payload, find_user, identify_tcp_user, open_or, first_payload_refused, read_full,
}

some_injective : {A : Type 0} (a b : A) → some a ≡ some b → a ≡ b
some_injective a b h = cc

ok_injective : {E A : Type 0} (a b : A) → (let x : Result E A = ok a in x ≡ ok b) → a ≡ b
ok_injective a b h = cc

read_full_ok :
    (n : ℕ) (src a b : List ℕ) → read_full n src ≡ ok (a, b) → (src ≡ a ++ b) × (length a ≡ n)
unfolding read_full
read_full_ok n src a b = elim (Bool-cases (ltb (length src) n)) [
  | inl short ↦ rw short (λ h. cc)
  | inr long ↦ rw long (λ h.
      let e = ok_injective (take n src, drop n src) (a, b) h in
      let is_a : take n src ≡ a = ap (λ q. q.0) e in
      let is_b : drop n src ≡ b = ap (λ q. q.1) e in
      (
        sym (take-append-drop n src) ∙ ap (λ x. x ++ drop n src) is_a ∙ ap (λ y. a ++ y) is_b,
        ap length (sym is_a) ∙ ground (arith, length-take n src, long),
      ))
]

result-cases : {E A : Type 0} (r : Result E A) → ((e : E) × (r ≡ err e)) ⊎ ((a : A) × (r ≡ ok a))
result-cases (ok a) = inr (a, refl)
result-cases (err e) = inl (e, refl)

module _ (lib : CryptoLib) where
  -- The stream is a salt, a size frame, a payload frame and a rest. The user is one of the users;
  -- under the session key of the user and the salt, the size frame opens with the first nonce and
  -- gives the size of the payload frame, which opens with the second nonce and gives the payload.
  pub record IsAuthentic (c : CipherDef) (users : List (UserEntry lib)) (src : List ℕ)
      (i : Identified lib) : Type 0 where
    pub salt : List ℕ
    pub size_frame : List ℕ
    pub frame : List ℕ
    pub size : List ℕ
    pub key : lib.Aead
    pub whole : src ≡ salt ++ (size_frame ++ (frame ++ i.src))
    pub of_salt : length salt ≡ salt_size c
    pub known : In i.user users
    pub keyed : derive_session_aead lib c i.user.master_key salt ≡ ok key
    pub opens_size : lib.open_sealed key (replicate (lib.nonce_size key) 0) size_frame ≡ some size
    pub sized : length frame ≡ frame_size size + lib.aead_overhead key
    pub opens :
        lib.open_sealed key (increment_nonce (replicate (lib.nonce_size key) 0)) frame
        ≡ some i.payload

  -- A user that the loop stops at.
  abbrev Opens : CipherDef → List ℕ → List ℕ → UserEntry lib → Session lib × ℕ → Type 0
  Opens c salt size_frame user (s, n) =
      (key : lib.Aead) × (raw : List ℕ) × (derive_session_aead lib c user.master_key salt ≡ ok key)
      × (lib.open_sealed key (replicate (lib.nonce_size key) 0) size_frame ≡ some raw)
      × (s ≡ fresh lib key)
      × (n ≡ frame_size raw)

  try_user-Opens :
      (c : CipherDef) (salt size_frame : List ℕ) (user : UserEntry lib) (q : Session lib × ℕ)
      → try_user lib c salt size_frame user ≡ some q
      → Opens c salt size_frame user q
  unfolding try_user
  try_user-Opens c salt size_frame user q =
      elim (result-cases (derive_session_aead lib c user.master_key salt)) [
        | inl (e, d) ↦ rw (try_user, d) (λ h. cc)
        | inr (key, d) ↦
            elim (Option-cases
              (lib.open_sealed key (replicate (lib.nonce_size key) 0) size_frame)) [
                | inl o ↦ rw (try_user, d, o) (λ h. cc)
                | inr (raw, o) ↦ elim (Bool-cases (nat_eq (length raw) 2)) [
                  | inl two ↦
                      rw (try_user, d, o, two)
                        (λ h.
                          let e = some_injective (fresh lib key, frame_size raw) q h in
                          (key, raw, refl, o, ap (λ x. x.0) (sym e), ap (λ x. x.1) (sym e)))
                  | inr other ↦ rw (try_user, d, o, other) (λ h. cc)
                ]
              ]
      ]

  open_or_ok :
      (e : StreamError) (s : lib.Aead) (nonce frame payload : List ℕ)
      → open_or lib s nonce frame e ≡ ok payload
      → lib.open_sealed s nonce frame ≡ some payload
  open_or_ok e s nonce frame payload = elim (Option-cases (lib.open_sealed s nonce frame)) [
    | inl o ↦ rw (open_or, o) (λ h. cc)
    | inr (p, o) ↦ rw (open_or, o) (λ h. ap some (ok_injective p payload h))
  ]

  -- The rest of the loop's body.
  first_payload_ok :
      (user : UserEntry lib) (s : Session lib) (n : ℕ) (src : List ℕ) (i : Identified lib)
      → first_payload lib user s n src ≡ ok i
      → (frame : List ℕ) × (src ≡ frame ++ i.src)
        × (length frame ≡ n + lib.aead_overhead s.aead)
        × (i.user ≡ user)
        × (lib.open_sealed s.aead (increment_nonce s.nonce) frame ≡ some i.payload)
  unfolding first_payload
  first_payload_ok user s n src i h =
      let ((frame, src'), h1, k1) = >>=-eq-ok (read_full (n + lib.aead_overhead s.aead) src) _ h in
      let (split, sized) = read_full_ok (n + lib.aead_overhead s.aead) src frame src' h1 in
      let (payload, h2, k2) =
        >>=-eq-ok (open_or lib s.aead (increment_nonce s.nonce) frame first_payload_refused) _ k1 in
      let e = ok_injective _ i k2 in
      (
        frame,
        split ∙ ap (λ x. frame ++ x.src) e,
        sized,
        ap (λ x. x.user) (sym e),
        open_or_ok first_payload_refused s.aead (increment_nonce s.nonce) frame payload h2
            ∙ ap (λ x. some x.payload) e,
      )

  find_user-IsAuthentic :
      (c : CipherDef) (salt size_frame src : List ℕ) (users : List (UserEntry lib))
      (i : Identified lib)
      → length salt ≡ salt_size c
      → find_user lib c salt size_frame src users ≡ ok i
      → IsAuthentic c users (salt ++ (size_frame ++ src)) i
  unfolding find_user
  find_user-IsAuthentic c salt size_frame src [] i sized = λ h. cc
  find_user-IsAuthentic c salt size_frame src (user ∷ users) i sized =
      elim (Option-cases (try_user lib c salt size_frame user)) [
        | inl other ↦
            rw (find_user, other)
              (λ h.
                let w = find_user-IsAuthentic c salt size_frame src users i sized h in
                record {
                  salt = w.salt;
                  size_frame = w.size_frame;
                  frame = w.frame;
                  size = w.size;
                  key = w.key;
                  whole = w.whole;
                  of_salt = w.of_salt;
                  known = inr w.known;
                  keyed = w.keyed;
                  opens_size = w.opens_size;
                  sized = w.sized;
                  opens = w.opens;
                })
        | inr ((s, n), found) ↦
            rw (find_user, found)
              (λ h.
                let (key, raw, keyed, opened, fresh_one, size) =
                  try_user-Opens c salt size_frame user (s, n) found in
                let (frame, split, long, owner, opens) = first_payload_ok user s n src i h in
                let aead : s.aead ≡ key = ap (λ x. x.aead) fresh_one in
                record {
                  salt = salt;
                  size_frame = size_frame;
                  frame = frame;
                  size = raw;
                  key = key;
                  whole = ap (λ x. salt ++ (size_frame ++ x)) split;
                  of_salt = sized;
                  known = inl (sym owner);
                  keyed = ap (λ u. derive_session_aead lib c u.master_key salt) owner ∙ keyed;
                  opens_size = opened;
                  sized =
                      long
                      ∙ ap (λ k. k + lib.aead_overhead s.aead) size
                      ∙ ap (λ k. frame_size raw + lib.aead_overhead k) aead;
                  opens =
                      subst
                        (λ x.
                          lib.open_sealed x.aead (increment_nonce x.nonce) frame ≡ some i.payload)
                        fresh_one opens;
                })
      ]

  pub identify_tcp_user-IsAuthentic :
      (src : List ℕ) (c : CipherDef) (users : List (UserEntry lib)) (i : Identified lib)
      → identify_tcp_user lib src c users ≡ ok i
      → IsAuthentic c users src i
  unfolding identify_tcp_user
  identify_tcp_user-IsAuthentic src c users i h =
      let ((salt, src1), h1, k1) = >>=-eq-ok (read_full (salt_size c) src) _ h in
      let ((size_frame, src2), h2, k2) = >>=-eq-ok (read_full (2 + overhead lib c) src1) _ k1 in
      let (split1, sized) = read_full_ok (salt_size c) src salt src1 h1 in
      let (split2, framed) = read_full_ok (2 + overhead lib c) src1 size_frame src2 h2 in
      subst (λ x. IsAuthentic c users x i) (ap (λ x. salt ++ x) (sym split2) ∙ sym split1)
        (find_user-IsAuthentic c salt size_frame src2 users i sized k2)
