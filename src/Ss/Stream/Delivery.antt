-- ===== src/Ss/Stream/Delivery.antt =====
-- From `Write` at one end of a connection to `Read` at the other.
use mathlib.Core.List.{append-nil, append_assoc}
use small_x.Base.{
  ℕ, ◌+◌, ◌≡◌, refl, ◌∙◌, sym, ap, subst, List, [], ◌∷◌, ◌++◌, some, none, length, arith, All, ok,
  length-replicate,
}
use small_x.Ss.Cipher.{CryptoLib, CipherDef, salt_size, derive_session_aead}
use small_x.Ss.Stream.{
  Sink, sink_write, Session, fresh, advance, seal_frame, StreamWriter, new_stream_writer,
  start_session, ensure_ready, write, StreamReader, new_client_stream_reader, init_from_salt, read,
}
use small_x.Ss.Stream.Frames.{
  chunks, concat, concat-append, IsChunk, IsFilled, concat-chunks, chunks-IsChunk, chunks-IsFilled,
  session_after, frames, write_loop_lem, read_full-append,
}
use small_x.Ss.Stream.Transfer.{received, write_all, IsFed, IsPositive, Delivers, received-IsFed}

abbrev pub all_chunks : List (List ℕ) → List (List ℕ)
all_chunks [] = []
all_chunks (p ∷ ps) = chunks (length p) p ++ all_chunks ps

concat-all_chunks : (ps : List (List ℕ)) → concat (all_chunks ps) ≡ concat ps
concat-all_chunks [] = refl
concat-all_chunks (p ∷ ps) =
    concat-append (chunks (length p) p) (all_chunks ps)
    ∙ rw (concat-chunks (length p) p (omega arith), concat-all_chunks ps) refl

All-append : (P : List ℕ → Type 0) (xs ys : List (List ℕ)) → All P xs → All P ys → All P (xs ++ ys)
All-append P [] ys h k = k
All-append P (x ∷ xs) ys h k = (h.0, All-append P xs ys h.1 k)

all_chunks-IsChunk : (ps : List (List ℕ)) → All IsChunk (all_chunks ps)
all_chunks-IsChunk [] = tt
all_chunks-IsChunk (p ∷ ps) =
    All-append IsChunk (chunks (length p) p) (all_chunks ps) (chunks-IsChunk (length p) p)
      (all_chunks-IsChunk ps)

all_chunks-IsFilled : (ps : List (List ℕ)) → All IsFilled (all_chunks ps)
all_chunks-IsFilled [] = tt
all_chunks-IsFilled (p ∷ ps) =
    All-append IsFilled (chunks (length p) p) (all_chunks ps) (chunks-IsFilled (length p) p)
      (all_chunks-IsFilled ps)

-- A destination that takes every write.
abbrev pub reliable : List ℕ → Sink
reliable sent = record { sent = sent; fails = [] }

module _ (lib : CryptoLib) where
  frames-append :
      (s : Session lib) (xs ys : List (List ℕ))
      → frames lib s (xs ++ ys) ≡ frames lib s xs ++ frames lib (session_after lib s xs) ys
  frames-append s [] ys = refl
  frames-append s (x ∷ xs) ys =
      let next = advance lib (advance lib s) in
      ap (◌++◌ (seal_frame lib s x)) (frames-append next xs ys)
      ∙ sym (
          append_assoc (seal_frame lib s x) (frames lib next xs)
            (frames lib (session_after lib next xs) ys))

  write_ready :
      (w : StreamWriter lib) (s : Session lib) (salt sent p : List ℕ)
      → w.ready ≡ some s
      → write lib w (some salt) (reliable sent) p ≡ (
        record w { ready = some (session_after lib s (chunks (length p) p)) },
        reliable (sent ++ frames lib s (chunks (length p) p)),
        length p,
        ok tt,
      )
  unfolding write ensure_ready
  write_ready w s salt sent p e =
      rw (ensure_ready, e, write_loop_lem lib (length p) s sent p 0 (omega arith))
        (let total : 0 + length p ≡ length p = omega arith in rw total refl)

  ensure_ready_first :
      (w : StreamWriter lib) (a : lib.Aead) (salt sent : List ℕ)
      → w.ready ≡ none
      → derive_session_aead lib w.cipher w.master_key salt ≡ ok a
      → ensure_ready lib w (some salt) (reliable sent) ≡ (reliable (sent ++ salt), ok (fresh lib a))
  unfolding ensure_ready start_session sink_write
  ensure_ready_first w a salt sent e d =
      let started : start_session lib w (some salt) ≡ ok (salt, a) = rw (start_session, d) refl in
      rw (ensure_ready, e, started) refl

  write_first :
      (w : StreamWriter lib) (a : lib.Aead) (salt sent p : List ℕ)
      → w.ready ≡ none
      → derive_session_aead lib w.cipher w.master_key salt ≡ ok a
      → let s = fresh lib a in
        write lib w (some salt) (reliable sent) p ≡ (
          record w { ready = some (session_after lib s (chunks (length p) p)) },
          reliable ((sent ++ salt) ++ frames lib s (chunks (length p) p)),
          length p,
          ok tt,
        )
  unfolding write
  write_first w a salt sent p e d =
      let started = ensure_ready_first w a salt sent e d in
      rw
        (
          write,
          started,
          ap (λ r. r.0) started,
          write_loop_lem lib (length p) (fresh lib a) (sent ++ salt) p 0 (omega arith),
        )
        (let total : 0 + length p ≡ length p = omega arith in rw total refl)

  sent-write_all :
      (ps : List (List ℕ)) (w : StreamWriter lib) (s : Session lib) (salt sent : List ℕ)
      → w.ready ≡ some s
      → (write_all lib w (some salt) (reliable sent) ps).1.sent
        ≡ sent ++ frames lib s (all_chunks ps)
  unfolding write_all
  sent-write_all [] w s salt sent e = sym (append-nil sent)
  sent-write_all (p ∷ ps) w s salt sent e =
      let cs = chunks (length p) p in
      rw (write_all, write_ready w s salt sent p e)
        (sent-write_all ps (record w { ready = some (session_after lib s cs) })
            (session_after lib s cs) salt (sent ++ frames lib s cs) refl
          ∙ append_assoc sent (frames lib s cs) _
          ∙ ap (◌++◌ sent) (sym (frames-append s cs (all_chunks ps))))

  -- A new reader reads the salt first.
  read_salt :
      (c : CipherDef) (key salt src : List ℕ) (a : lib.Aead) (n : ℕ)
      → length salt ≡ salt_size c
      → derive_session_aead lib c key salt ≡ ok a
      → read lib (new_client_stream_reader lib (salt ++ src) c key) n
        ≡ read lib
            (record {
              src = src;
              cipher = c;
              master_key = key;
              ready = some (fresh lib a);
              leftover = [];
            })
            n
  unfolding read init_from_salt new_client_stream_reader
  read_salt c key salt src a n sized d =
      rw (read_full-append (salt_size c) salt src sized) (rw d refl)

  abbrev after_salt : CipherDef → List ℕ → List ℕ → lib.Aead → StreamReader lib
  after_salt c key src a = record {
    src = src;
    cipher = c;
    master_key = key;
    ready = some (fresh lib a);
    leftover = [];
  }

  received_salt :
      (c : CipherDef) (key salt src : List ℕ) (a : lib.Aead) (ns : List ℕ)
      → length salt ≡ salt_size c
      → derive_session_aead lib c key salt ≡ ok a
      → received lib (new_client_stream_reader lib (salt ++ src) c key) ns
        ≡ received lib (after_salt c key src a) ns
  unfolding received
  received_salt c key salt src a [] sized d = refl
  received_salt c key salt src a (n ∷ ns) sized d =
      rw (received, read_salt c key salt src a n sized d) refl

  sent_first :
      (c : CipherDef) (key salt p : List ℕ) (ps : List (List ℕ)) (a : lib.Aead)
      → derive_session_aead lib c key salt ≡ ok a
      → (write_all lib (new_stream_writer lib c key) (some salt) (reliable []) (p ∷ ps)).1.sent
        ≡ salt ++ frames lib (fresh lib a) (all_chunks (p ∷ ps))
  unfolding write_all new_stream_writer
  sent_first c key salt p ps a d =
      let w : StreamWriter lib = new_stream_writer lib c key in
      let s = fresh lib a in
      let cs = chunks (length p) p in
      rw (write_all, write_first w a salt [] p refl d)
        (sent-write_all ps (record w { ready = some (session_after lib s cs) })
            (session_after lib s cs) salt (salt ++ frames lib s cs) refl
          ∙ append_assoc salt (frames lib s cs)
              (frames lib (session_after lib s cs) (all_chunks ps))
          ∙ ap (◌++◌ salt) (sym (frames-append s cs (all_chunks ps))))

  -- A writer that is new sends the payloads `p ∷ ps`, one `Write` each, over a connection that takes
  -- every write, with a salt of the cipher's size that gives a session with the key; a new reader with
  -- the same cipher and key then reads with buffers of any positive sizes. What it receives is the
  -- beginning of the payloads, and of at least one byte for each read until it is all of them.
  pub received-write_all :
      (c : CipherDef) (key salt p : List ℕ) (ps : List (List ℕ)) (a : lib.Aead) (ns : List ℕ)
      → length salt ≡ salt_size c
      → derive_session_aead lib c key salt ≡ ok a
      → All IsPositive ns
      → let sent =
          (write_all lib (new_stream_writer lib c key) (some salt) (reliable []) (p ∷ ps)).1.sent in
        Delivers
          (received lib (new_client_stream_reader lib sent c key) ns)
          (concat (p ∷ ps))
          (length ns)
  received-write_all c key salt p ps a ns sized d pos =
      let s = fresh lib a in
      let cs = all_chunks (p ∷ ps) in
      let fed : IsFed lib (after_salt c key (frames lib s cs) a) s cs = record {
        ready = refl;
        src = refl;
        keyed = length-replicate (lib.nonce_size a) 0;
        small = all_chunks-IsChunk (p ∷ ps);
      } in
      rw (sent_first c key salt p ps a d, received_salt c key salt (frames lib s cs) a ns sized d)
        (subst
          (λ t. Delivers (received lib (after_salt c key (frames lib s cs) a) ns) t (length ns))
          (concat-all_chunks (p ∷ ps))
          (received-IsFed lib ns pos (after_salt c key (frames lib s cs) a) s cs fed
            (all_chunks-IsFilled (p ∷ ps))))
