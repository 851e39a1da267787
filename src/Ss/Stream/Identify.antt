-- ===== src/Ss/Stream/Identify.antt =====
-- `identifyTCPUser` on what a client sends first.
use mathlib.Core.List.{append_assoc}
use small_x.Base.{
  ℕ, ◌+◌, ◌≡◌, refl, ◌∙◌, List, [], ◌∷◌, ◌++◌, some, none, length, length-replicate, arith, All, ok,
}
use small_x.Ss.Cipher.{CryptoLib, CipherDef, salt_size, overhead, derive_session_aead}
use small_x.Ss.Cipher.Keys.{overhead_16}
use small_x.Ss.Stream.{
  increment_nonce, size_bytes, fresh, advance, seal_frame, UserEntry, try_user, first_payload,
  find_user, identify_tcp_user, open_or, first_payload_refused,
}
use small_x.Ss.Stream.Nonce.{length-increment_nonce}
use small_x.Ss.Stream.Frames.{
  IsChunk, IsKeyed, frames, read_full-append, frame_size-size_bytes, length-size_bytes,
}

module _ (lib : CryptoLib) where
  -- The size frame of a first chunk under a session that starts.
  abbrev pub first_size_frame : lib.Aead → List ℕ → List ℕ
  first_size_frame a first = lib.seal a (fresh lib a).nonce (size_bytes (length first))

  -- The session of the user does not open the frame.
  abbrev pub IsOther : CipherDef → List ℕ → List ℕ → UserEntry lib → Type 0
  IsOther c salt size_frame user = try_user lib c salt size_frame user ≡ none

  fresh-IsKeyed : (a : lib.Aead) → IsKeyed lib (fresh lib a)
  fresh-IsKeyed a = length-replicate (lib.nonce_size a) 0

  try_user_owner :
      (c : CipherDef) (user : UserEntry lib) (a : lib.Aead) (salt first : List ℕ)
      → derive_session_aead lib c user.master_key salt ≡ ok a
      → IsChunk first
      → try_user lib c salt (first_size_frame a first) user ≡ some (fresh lib a, length first)
  unfolding try_user
  try_user_owner c user a salt first d small =
      rw
        (
          try_user,
          d,
          lib.open_sealed-seal a (fresh lib a).nonce (size_bytes (length first)) (fresh-IsKeyed a),
          length-size_bytes (length first),
          frame_size-size_bytes (length first) small,
        )
        refl

  first_payload_lem :
      (user : UserEntry lib) (a : lib.Aead) (first rest : List ℕ)
      → let s = fresh lib a in
        let body = lib.seal a (increment_nonce s.nonce) first in
        first_payload lib user s (length first) (body ++ rest)
        ≡ ok (record {
          user = user;
          session = advance lib (advance lib s);
          payload = first;
          src = rest;
        })
  unfolding first_payload
  first_payload_lem user a first rest =
      let n = increment_nonce (fresh lib a).nonce in
      let body = lib.seal a n first in
      let keyed : length n ≡ lib.nonce_size a =
        length-increment_nonce (fresh lib a).nonce ∙ fresh-IsKeyed a in
      let opened : open_or lib a n body first_payload_refused ≡ ok first =
        rw (open_or, lib.open_sealed-seal a n first keyed) refl in
      let sized : length body ≡ length first + lib.aead_overhead a =
        omega (arith, lib.length-seal a n first keyed, lib.aead_overhead_16 a) in
      rw (read_full-append (length first + lib.aead_overhead a) body rest sized) (rw opened refl)

  find_user_lem :
      (before after : List (UserEntry lib)) (c : CipherDef) (user : UserEntry lib) (a : lib.Aead)
      (salt first rest : List ℕ)
      → derive_session_aead lib c user.master_key salt ≡ ok a
      → IsChunk first
      → All (IsOther c salt (first_size_frame a first)) before
      → find_user lib c salt
          (first_size_frame a first)
          (lib.seal a (increment_nonce (fresh lib a).nonce) first ++ rest)
          (before ++ user ∷ after)
        ≡ ok (record {
          user = user;
          session = advance lib (advance lib (fresh lib a));
          payload = first;
          src = rest;
        })
  unfolding find_user
  find_user_lem [] after c user a salt first rest d small others =
      rw (find_user, try_user_owner c user a salt first d small)
        (first_payload_lem user a first rest)
  find_user_lem (u ∷ before) after c user a salt first rest d small others =
      rw (find_user, others.0)
        (find_user_lem before after c user a salt first rest d small others.1)

  -- A client sends the salt and frames, with a key of one of the users, and no user before that one
  -- in the list has a session that opens its first size frame. Then that user is identified, with the
  -- first payload, and with the session and the rest of the stream at exactly the second frame.
  pub identify_tcp_user-frames :
      (before after : List (UserEntry lib)) (c : CipherDef) (user : UserEntry lib) (a : lib.Aead)
      (salt first : List ℕ) (cs : List (List ℕ))
      → length salt ≡ salt_size c
      → derive_session_aead lib c user.master_key salt ≡ ok a
      → IsChunk first
      → All (IsOther c salt (first_size_frame a first)) before
      → let next = advance lib (advance lib (fresh lib a)) in
        identify_tcp_user lib
          (salt ++ frames lib (fresh lib a) (first ∷ cs))
          c
          (before ++ user ∷ after)
        ≡ ok (record { user = user; session = next; payload = first; src = frames lib next cs })
  unfolding identify_tcp_user seal_frame
  identify_tcp_user-frames before after c user a salt first cs sized d small others =
      let s = fresh lib a in
      let next = advance lib (advance lib s) in
      let size_frame = first_size_frame a first in
      let body = lib.seal a (increment_nonce s.nonce) first in
      let framed = lib.length-seal a s.nonce (size_bytes (length first)) (fresh-IsKeyed a) in
      let long : length size_frame ≡ 2 + overhead lib c =
        omega (arith, framed, overhead_16 lib c, length-size_bytes (length first)) in
      rw
        (
          read_full-append (salt_size c) salt (frames lib s (first ∷ cs)) sized,
          append_assoc size_frame body (frames lib next cs),
          read_full-append (2 + overhead lib c) size_frame (body ++ frames lib next cs) long,
        )
        (find_user_lem before after c user a salt first (frames lib next cs) d small others)
