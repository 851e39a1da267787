-- ===== src/Ss/Stream/Transfer.antt =====
-- A writer at one end of a connection and a reader at the other.
use mathlib.Core.List.{append_assoc}
use small_x.Base.{
  subst, ℕ, suc, ◌+◌, ◌≤◌, ◌<◌, ◌≡◌, refl, ◌∙◌, sym, List, [], ◌∷◌, ◌++◌, false, true, length, take,
  drop, ltb, some, Option, min, arith, All, inl, inr, Bool-cases, ok, err, length-append,
  length-take, take-append-drop,
}
use small_x.Ss.Cipher.{CryptoLib}
use small_x.Ss.Stream.{
  StreamError, Sink, read_full, Session, advance, read_chunk, StreamWriter, write, StreamReader,
  init_from_salt, read, short_read,
}
use small_x.Ss.Stream.Frames.{
  concat, no_bytes, IsChunk, IsFilled, IsKeyed, frames, advance-IsKeyed, read_chunk-seal_frame,
}

abbrev pub IsPositive : ℕ → Type 0
IsPositive n = 0 < n

-- What was received is the beginning of what was sent, of at least `k` bytes or all of it.
abbrev pub Delivers : List ℕ → List ℕ → ℕ → Type 0
Delivers got total k = (rest : List ℕ) × (got ++ rest ≡ total) × (min k (length total) ≤ length got)

Delivers-none : (got : List ℕ) (k : ℕ) → got ≡ [] → Delivers got [] k
Delivers-none got k e = ([], rw e refl, omega arith)

Delivers-more :
    (front got tail total : List ℕ) (k : ℕ)
    → 0 < length front
    → front ++ tail ≡ total
    → Delivers got tail k
    → Delivers (front ++ got) total (suc k)
Delivers-more front got tail total k full eq (rest, same, enough) = (
  rest,
  append_assoc front got rest ∙ rw same eq,
  let whole : length total ≡ length front + length tail = rw (sym eq) (length-append front tail) in
      omega (arith, whole, enough, length-append front got),
)

module _ (lib : CryptoLib) where
  -- The bytes that a sequence of reads gets before the first error; one buffer size for each read.
  unfoldable pub received : StreamReader lib → List ℕ → List ℕ
  received r [] = []
  received r (n ∷ ns) = elim (read lib r n) [ err e ↦ [] | ok (xs, r') ↦ xs ++ received r' ns ]

  -- The writes of a sequence of payloads; only the first one asks for entropy.
  unfoldable pub write_all :
      StreamWriter lib → Option (List ℕ) → Sink → List (List ℕ) → StreamWriter lib × Sink
  write_all w entropy dst [] = (w, dst)
  write_all w entropy dst (p ∷ ps) =
      let (w', dst', n, result) = write lib w entropy dst p in write_all w' entropy dst' ps

  -- A reader in front of the frames of chunks.
  pub record IsFed (r : StreamReader lib) (s : Session lib) (cs : List (List ℕ)) : Type 0 where
    pub ready : r.ready ≡ some s
    pub src : r.src ≡ frames lib s cs
    pub keyed : IsKeyed lib s
    pub small : All IsChunk cs

  read_leftover :
      (r : StreamReader lib) (n : ℕ)
      → 0 < length r.leftover
      → read lib r n ≡ ok (take n r.leftover, record r { leftover = drop n r.leftover })
  unfolding read
  read_leftover r n h = let more : ltb 0 (length r.leftover) ≡ true = ground arith in rw more refl

  init_from_salt-IsFed :
      (r : StreamReader lib) (s : Session lib) (cs : List (List ℕ))
      → IsFed r s cs
      → init_from_salt lib r ≡ ok (s, frames lib s cs)
  unfolding init_from_salt
  init_from_salt-IsFed r s cs f = rw (init_from_salt, f.ready, f.src) refl

  read_chunk_end : (s : Session lib) → read_chunk lib s [] ≡ err short_read
  unfolding read_chunk read_full
  read_chunk_end s =
      let short : ltb 0 (2 + lib.aead_overhead s.aead) ≡ true = ground arith in rw short refl

  read_end :
      (r : StreamReader lib) (s : Session lib) (n : ℕ)
      → IsFed r s []
      → length r.leftover ≡ 0
      → read lib r n ≡ err short_read
  unfolding read
  read_end r s n f h =
      let idle : ltb 0 (length r.leftover) ≡ false = ground arith in
      rw (idle, init_from_salt-IsFed r s [] f) (rw (read_chunk_end s) refl)

  read_next :
      (r : StreamReader lib) (s : Session lib) (c : List ℕ) (cs : List (List ℕ)) (n : ℕ)
      → IsFed r s (c ∷ cs)
      → length r.leftover ≡ 0
      → read lib r n
        ≡ ok (
          take n c,
          record r {
            src = frames lib (advance lib (advance lib s)) cs;
            ready = some (advance lib (advance lib s));
            leftover = drop n c;
          },
        )
  unfolding read
  read_next r s c cs n f h =
      let idle : ltb 0 (length r.leftover) ≡ false = ground arith in
      let rest = frames lib (advance lib (advance lib s)) cs in
      rw (idle, init_from_salt-IsFed r s (c ∷ cs) f)
        (rw (read_chunk-seal_frame lib s c rest f.keyed f.small.0) refl)

  received_ok :
      (r r' : StreamReader lib) (n : ℕ) (xs ns : List ℕ)
      → read lib r n ≡ ok (xs, r')
      → received r (n ∷ ns) ≡ xs ++ received r' ns
  unfolding received
  received_ok r r' n xs ns h = rw (received, h) refl

  received_err :
      (r : StreamReader lib) (n : ℕ) (ns : List ℕ) (e : StreamError)
      → read lib r n ≡ err e
      → received r (n ∷ ns) ≡ []
  unfolding received
  received_err r n ns e h = rw (received, h) refl

  -- What holds of every reader in front of frames for the buffer sizes `ns`.
  abbrev pub IsDelivered : List ℕ → Type 0
  IsDelivered ns =
      (r : StreamReader lib) (s : Session lib) (cs : List (List ℕ))
      → IsFed r s cs
      → All IsFilled cs
      → Delivers (received r ns) (r.leftover ++ concat cs) (length ns)

  IsDelivered-leftover :
      (n : ℕ) (ns : List ℕ) (r : StreamReader lib) (s : Session lib) (cs : List (List ℕ))
      → 0 < n
      → IsDelivered ns
      → IsFed r s cs
      → All IsFilled cs
      → 0 < length r.leftover
      → Delivers (received r (n ∷ ns)) (r.leftover ++ concat cs) (suc (length ns))
  IsDelivered-leftover n ns r s cs pos later f full more =
      let xs = take n r.leftover in
      let r' : StreamReader lib = record r { leftover = drop n r.leftover } in
      let f' : IsFed r' s cs = record {
        ready = f.ready;
        src = f.src;
        keyed = f.keyed;
        small = f.small;
      } in
      rw (received_ok r r' n xs ns (read_leftover r n more)) (
        Delivers-more xs (received r' ns) (drop n r.leftover ++ concat cs) (r.leftover ++ concat cs)
          (length ns) (ground (arith, length-take n r.leftover))
          (sym (append_assoc xs (drop n r.leftover) (concat cs))
            ∙ rw (take-append-drop n r.leftover) refl)
          (later r' s cs f' full))

  IsDelivered-idle :
      (n : ℕ) (ns : List ℕ) (r : StreamReader lib) (s : Session lib) (cs : List (List ℕ))
      → 0 < n
      → IsDelivered ns
      → IsFed r s cs
      → All IsFilled cs
      → length r.leftover ≡ 0
      → Delivers (received r (n ∷ ns)) (concat cs) (suc (length ns))
  IsDelivered-idle n ns r s [] pos later f full idle =
      Delivers-none (received r (n ∷ ns)) (suc (length ns))
        (received_err r n ns short_read (read_end r s n f idle))
  IsDelivered-idle n ns r s (c ∷ cs) pos later f full idle =
      let next = advance lib (advance lib s) in
      let r' : StreamReader lib = record r {
        src = frames lib next cs;
        ready = some next;
        leftover = drop n c;
      } in
      let f' : IsFed r' next cs = record {
        ready = refl;
        src = refl;
        keyed = advance-IsKeyed lib s f.keyed;
        small = f.small.1;
      } in
      rw (received_ok r r' n (take n c) ns (read_next r s c cs n f idle)) (
        Delivers-more (take n c) (received r' ns) (drop n c ++ concat cs) (c ++ concat cs)
          (length ns) (ground (arith, length-take n c, full.0))
          (sym (append_assoc (take n c) (drop n c) (concat cs)) ∙ rw (take-append-drop n c) refl)
          (later r' next cs f' full.1))

  pub received-IsFed : (ns : List ℕ) → All IsPositive ns → IsDelivered ns
  unfolding received
  received-IsFed [] pos r s cs f full = (r.leftover ++ concat cs, refl, omega arith)
  received-IsFed (n ∷ ns) pos r s cs f full = elim (Bool-cases (ltb 0 (length r.leftover))) [
    | inl more ↦
        IsDelivered-leftover n ns r s cs pos.0 (received-IsFed ns pos.1) f full
          (ground (arith, more))
    | inr idle ↦
        let empty : length r.leftover ≡ 0 = ground (arith, idle) in
        subst (λ l. Delivers (received r (n ∷ ns)) (l ++ concat cs) (suc (length ns)))
          (sym (no_bytes r.leftover empty))
          (IsDelivered-idle n ns r s cs pos.0 (received-IsFed ns pos.1) f full empty)
  ]
