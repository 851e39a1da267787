-- ===== src/Ss/Copy.antt =====
-- internal/ss/service.go: `copyCount`, `writeWithLimit` and `waitForLimit`. A `Writer` stands for an
-- `io.Writer` with the laws of its documentation, `Waits` for `WaitN` of golang.org/x/time/rate with
-- the background context. A source is the sequence of what its `Read` returns.
pub mod Bursts
pub mod Relay
pub mod Upstream
use small_x.Base.{
  ℕ, ◌+◌, ◌%◌, ◌≤◌, ◌≡◌, Text, List, [], ◌++◌, Bool, true, false, ◌||◌, not, Option, none, some,
  if◌then◌else◌, Result, ok, err, is_ok, length, take, nat_eq, ltb, word64,
}
use small_x.Ss.Limits.Speed.{RateLib}

pub record Writer : Type 1 where
  pub State : Type 0
  -- The count and whether the error is nil.
  pub write : Text → State → State × (ℕ × Bool)
  -- What was written so far.
  pub written : State → Text
  pub write_at_most : (p : Text) (w : State) → (write p w).1.0 ≤ length p
  pub write_whole : (p : Text) (w : State) → (write p w).1.1 ≡ true → (write p w).1.0 ≡ length p
  pub written-write :
      (p : Text) (w : State) → written (write p w).0 ≡ written w ++ take (write p w).1.0 p

pub record Waits (rates : RateLib) : Type 0 where
  pub wait_n : rates.Limiter → ℕ → Bool
  -- Without a deadline it only refuses what exceeds the burst.
  pub wait_n_fine : (l : rates.Limiter) (n : ℕ) → n ≤ rates.burst l → wait_n l n ≡ true

-- The reads up to the first error, with the bytes of each; `last` has an error, `io.EOF` if it is true.
pub data Reads : Type 0 where
  next : Text → Reads → Reads
  last : Text → Bool → Reads

pub data CopyError : Type 0 where
  over_burst write_failed short_write read_failed : CopyError

abbrev pub or_short : ℕ → ℕ → Result CopyError (Unit {0}) → Result CopyError (Unit {0})
or_short nw nr (err e) = err e
or_short nw nr (ok u) = if nat_eq nw nr then ok tt else err short_write

-- The writer, what `onCount` changes, the total and the error so far.
pub record Copied (S C : Type 0) : Type 0 where
  pub writer : S
  pub counted : C
  pub total : ℕ
  pub result : Result CopyError (Unit {0})

-- What follows the `if nr > 0` block of a read with an error.
abbrev pub at_end : {S C : Type 0} → Bool → Copied S C → Copied S C
at_end is_eof s =
    if not (is_ok s.result)
    then s
    else record s { result = if is_eof then ok tt else err read_failed }

module _ (rates : RateLib) (waits : Waits rates) where
  unfoldable pub wait_for_limit : Option rates.Limiter → ℕ → Bool
  wait_for_limit none size = true
  wait_for_limit (some l) size = nat_eq size 0 || waits.wait_n l size

  module _ (W : Writer) where
    unfoldable pub write_with_limit :
        Option rates.Limiter → Text → W.State → W.State × (ℕ × Result CopyError (Unit {0}))
    write_with_limit limiter p w =
        let (w', (n, fine)) = W.write p w in
        if not (wait_for_limit limiter (length p))
        then (w, (0, err over_burst))
        else (w', (n, if fine then ok tt else err write_failed))

    module _ {C : Type 0} (count : ℕ → C → C) where
      -- What follows the write of a chunk.
      abbrev pub after_write :
          Text → Copied W.State C → W.State × (ℕ × Result CopyError (Unit {0})) → Copied W.State C
      after_write p s (w, (n, r)) = record {
        writer = w;
        counted = if ltb 0 n then count n s.counted else s.counted;
        total = (s.total + n) % word64;
        result = or_short n (length p) r;
      }

      -- The `if nr > 0` block.
      unfoldable pub copy_chunk : Option rates.Limiter → Text → Copied W.State C → Copied W.State C
      copy_chunk limiter p s =
          if nat_eq (length p) 0 then s else after_write p s (write_with_limit limiter p s.writer)

      unfoldable pub copy_loop : Option rates.Limiter → Reads → Copied W.State C → Copied W.State C
      copy_loop limiter (last p is_eof) s = at_end is_eof (copy_chunk limiter p s)
      copy_loop limiter (next p rest) s =
          let s' = copy_chunk limiter p s in
          let after = copy_loop limiter rest s' in if is_ok s'.result then after else s'

      unfoldable pub copy_count : Option rates.Limiter → Reads → W.State → C → Copied W.State C
      copy_count limiter reads w c =
          copy_loop limiter reads (record { writer = w; counted = c; total = 0; result = ok tt })

      -- The initial payload of `handleTCP` and then the upstream copy.
      abbrev pub after_initial :
          Option rates.Limiter
          → Reads
          → C
          → W.State × (ℕ × Result CopyError (Unit {0}))
          → Copied W.State C
      after_initial limiter reads c (w, (n, err e)) = record {
        writer = w;
        counted = c;
        total = 0;
        result = err e;
      }
      after_initial limiter reads c (w, (n, ok u)) = copy_count limiter reads w (count n c)

      unfoldable pub forward : Option rates.Limiter → Text → Reads → W.State → C → Copied W.State C
      forward limiter initial reads w c =
          if nat_eq (length initial) 0
          then copy_count limiter reads w c
          else after_initial limiter reads c (write_with_limit limiter initial w)
