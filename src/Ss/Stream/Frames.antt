-- ===== src/Ss/Stream/Frames.antt =====
-- The frames that `Write` sends, and `readChunk` on them.
use mathlib.Core.List.{append-nil, append_assoc}
use small_x.Base.{
  ◌<◌, ap, ℕ, zero, suc, ◌+◌, ◌≤◌, ◌≡◌, refl, ◌∙◌, sym, List, [], ◌∷◌, ◌++◌, false, length, take,
  drop, ltb, nat_eq, if◌then◌else◌, arith, All, inl, inr, Bool-cases, ok, length-append,
  length-take, length-drop, take-append_left, drop-append_left, take-append-drop,
}
use small_x.Ss.Cipher.{CryptoLib}
use small_x.Ss.Stream.{
  max_payload_size, increment_nonce, not_authentic, sink_write, read_full, size_bytes, frame_size,
  Session, advance, seal_frame, chunk_size, write_loop, open_or, read_payload, read_chunk,
}
use small_x.Ss.Stream.Nonce.{length-increment_nonce}

pub read_full-append :
    (n : ℕ) (xs ys : List ℕ) → length xs ≡ n → read_full n (xs ++ ys) ≡ ok (xs, ys)
unfolding read_full
read_full-append n xs ys h =
    let room : ltb (length (xs ++ ys)) n ≡ false = ground (arith, length-append xs ys) in
    rw (room, take-append_left n xs ys h, drop-append_left n xs ys h) refl

pub frame_size-size_bytes : (n : ℕ) → n ≤ max_payload_size → frame_size (size_bytes n) ≡ n
unfolding frame_size size_bytes
frame_size-size_bytes n h = omega arith

pub length-size_bytes : (n : ℕ) → length (size_bytes n) ≡ 2
unfolding size_bytes
length-size_bytes n = refl

-- The chunks that the loop of `Write` cuts, on the same fuel.
abbrev pub chunks : ℕ → List ℕ → List (List ℕ)
chunks zero p = []
chunks (suc fuel) p =
    let n = if ltb max_payload_size (length p) then max_payload_size else length p in
    let rest = chunks fuel (drop n p) in if nat_eq (length p) 0 then [] else take n p ∷ rest

abbrev pub concat : List (List ℕ) → List ℕ
concat [] = []
concat (c ∷ cs) = c ++ concat cs

-- A read gets a byte at least while there are any, if no chunk is empty.
abbrev pub IsFilled : List ℕ → Type 0
IsFilled c = 0 < length c

abbrev pub IsChunk : List ℕ → Type 0
IsChunk c = length c ≤ max_payload_size

pub no_bytes : (p : List ℕ) → length p ≡ 0 → p ≡ []
no_bytes [] h = refl
no_bytes (x ∷ p) h = absurd (omega arith)

pub concat-chunks : (fuel : ℕ) (p : List ℕ) → length p ≤ fuel → concat (chunks fuel p) ≡ p
concat-chunks zero p h = sym (no_bytes p (omega arith))
concat-chunks (suc fuel) p h = elim (Bool-cases (nat_eq (length p) 0)) [
  | inl empty ↦ ground (arith, empty, no_bytes p)
  | inr more ↦
      let n = if ltb max_payload_size (length p) then max_payload_size else length p in
      rw (more, concat-chunks fuel (drop n p) (ground (arith, length-drop n p, more)))
        (take-append-drop n p)
]

pub chunks-IsChunk : (fuel : ℕ) (p : List ℕ) → All IsChunk (chunks fuel p)
chunks-IsChunk zero p = tt
chunks-IsChunk (suc fuel) p = elim (Bool-cases (nat_eq (length p) 0)) [
  | inl empty ↦ rw empty tt
  | inr more ↦
      let n = if ltb max_payload_size (length p) then max_payload_size else length p in
      rw more (ground (arith, length-take n p), chunks-IsChunk fuel (drop n p))
]

pub chunks-IsFilled : (fuel : ℕ) (p : List ℕ) → All IsFilled (chunks fuel p)
chunks-IsFilled zero p = tt
chunks-IsFilled (suc fuel) p = elim (Bool-cases (nat_eq (length p) 0)) [
  | inl empty ↦ rw empty tt
  | inr more ↦
      let n = if ltb max_payload_size (length p) then max_payload_size else length p in
      rw more (ground (arith, more, length-take n p), chunks-IsFilled fuel (drop n p))
]

pub concat-append : (xs ys : List (List ℕ)) → concat (xs ++ ys) ≡ concat xs ++ concat ys
concat-append [] ys = refl
concat-append (x ∷ xs) ys =
    ap (◌++◌ x) (concat-append xs ys) ∙ sym (append_assoc x (concat xs) (concat ys))

module _ (lib : CryptoLib) where
  open lib use {
    Aead, seal, open_sealed, nonce_size, aead_overhead, open_sealed-seal, length-seal,
    aead_overhead_16,
  }

  -- The nonce has the length that the cipher takes.
  abbrev pub IsKeyed : Session lib → Type 0
  IsKeyed s = length s.nonce ≡ nonce_size s.aead

  abbrev pub session_after : Session lib → List (List ℕ) → Session lib
  session_after s [] = s
  session_after s (c ∷ cs) = session_after (advance lib (advance lib s)) cs

  abbrev pub frames : Session lib → List (List ℕ) → List ℕ
  frames s [] = []
  frames s (c ∷ cs) = seal_frame lib s c ++ frames (advance lib (advance lib s)) cs

  pub advance-IsKeyed : (s : Session lib) → IsKeyed s → IsKeyed (advance lib (advance lib s))
  advance-IsKeyed s k =
      length-increment_nonce (increment_nonce s.nonce) ∙ length-increment_nonce s.nonce ∙ k

  pub session_after-IsKeyed :
      (s : Session lib) (cs : List (List ℕ)) → IsKeyed s → IsKeyed (session_after s cs)
  session_after-IsKeyed s [] k = k
  session_after-IsKeyed s (c ∷ cs) k =
      session_after-IsKeyed (advance lib (advance lib s)) cs (advance-IsKeyed s k)

  -- A frame of at most `maxPayloadSize` bytes is read back, whatever follows it.
  pub read_chunk-seal_frame :
      (s : Session lib) (c rest : List ℕ)
      → IsKeyed s
      → IsChunk c
      → read_chunk lib s (seal_frame lib s c ++ rest) ≡ ok (c, advance lib (advance lib s), rest)
  unfolding read_chunk read_payload seal_frame
  read_chunk-seal_frame s c rest k small =
      let a = s.aead in
      let raw = size_bytes (length c) in
      let size_frame = seal a s.nonce raw in
      let body = seal a (increment_nonce s.nonce) c in
      let keyed : length (increment_nonce s.nonce) ≡ nonce_size a =
        length-increment_nonce s.nonce ∙ k in
      let size_read = read_full-append (2 + aead_overhead a) size_frame (body ++ rest) (
        omega
          (arith, length-seal a s.nonce raw k, aead_overhead_16 a, length-size_bytes (length c))) in
      let body_read =
        read_full-append (length c + aead_overhead a) body rest
          (omega (arith, length-seal a (increment_nonce s.nonce) c keyed, aead_overhead_16 a)) in
      let size_open : open_or lib a s.nonce size_frame not_authentic ≡ ok raw =
        rw (open_or, open_sealed-seal a s.nonce raw k) refl in
      let body_open : open_or lib a (increment_nonce s.nonce) body not_authentic ≡ ok c =
        rw (open_or, open_sealed-seal a (increment_nonce s.nonce) c keyed) refl in
      let whole : read_payload lib s raw (body ++ rest)
          ≡ ok (c, advance lib (advance lib s), rest) =
        rw (read_payload, frame_size-size_bytes (length c) small, body_read, body_open) refl in
      rw (append_assoc size_frame body rest, size_read)
        (rw (size_open, length-size_bytes (length c)) whole)

  -- On a connection that takes every write, the loop of `Write` sends all bytes, in frames, with
  -- fuel for each byte.
  pub write_loop_lem :
      (fuel : ℕ) (s : Session lib) (sent p : List ℕ) (written : ℕ)
      → length p ≤ fuel
      → write_loop lib fuel s (record { sent = sent; fails = [] }) p written ≡ (
        session_after s (chunks fuel p),
        record { sent = sent ++ frames s (chunks fuel p); fails = [] },
        written + length p,
        ok tt,
      )
  unfolding write_loop sink_write
  write_loop_lem zero s sent p written h =
      let none_left : written ≡ written + length p = omega arith in
      rw (append-nil sent, sym none_left) refl
  write_loop_lem (suc fuel) s sent [] written h =
      let same : written + 0 ≡ written = omega arith in rw (append-nil sent, same) refl
  write_loop_lem (suc fuel) s sent (x ∷ p) written h =
      let q = x ∷ p in
      let n = chunk_size lib q in
      let next = advance lib (advance lib s) in
      let frame = seal_frame lib s (take n q) in
      let rest = drop n q in
      let less : length rest ≤ fuel = ground (arith, length-drop n q) in
      let total : written + n + length rest ≡ written + length q =
        ground (arith, length-drop n q) in
      let more : nat_eq (length q) 0 ≡ false = ground arith in
      rw more (
        write_loop_lem fuel next (sent ++ frame) rest (written + n) less
        ∙ rw (total, append_assoc sent frame (frames next (chunks fuel rest))) refl)
