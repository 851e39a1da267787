-- ===== src/Ss/Limits/Sessions.antt =====
-- The limiter with the sessions that it admitted: the closures that `acquire` returned, each under
-- its `sync.Once`. Calls of the mutex-guarded methods interleave in any order.
pub mod Refinement
pub mod Bounds
pub mod Drain
use small_x.Base.{
  ℤ, ℕ, zero, suc, ◌+◌, Text, List, [], ◌∷◌, Bool, true, false, ◌&&◌, not, Option, none, some,
  if◌then◌else◌, ◌==◌, int_keys, text_keys, Result, ok, err,
}
use small_x.Ss.Types.{UserConfig}
use small_x.Ss.Limits.{SessionLimiter, Lease, LimitError, acquire, release, new_session_limiter}

-- `done` is the state of the closure's `sync.Once`.
pub record Session : Type 0 where
  pub lease : Lease
  pub done : Bool

pub record Sessions (R : Type 0) : Type 0 where
  pub limiter : SessionLimiter R
  pub held : List Session

-- A call of `AcquireTCP` or `AcquireUDP`, or a call of the closure of the nth newest session.
pub data Event : Type 0 where
  open_session : UserConfig → Text → Bool → Bool → Event
  close_session : ℕ → Event

-- `once.Do(func() { l.release(user, ip, tcp) })`.
unfoldable pub close_once : {R : Type 0} → Session → SessionLimiter R → SessionLimiter R
close_once s l = if s.done then l else release l s.lease

unfoldable pub close_at :
    {R : Type 0} → ℕ → List Session → SessionLimiter R → SessionLimiter R × List Session
close_at n [] l = (l, [])
close_at zero (s ∷ ss) l = (close_once s l, record s { done = true } ∷ ss)
close_at (suc n) (s ∷ ss) l = let (l', rest) = close_at n ss l in (l', s ∷ rest)

unfoldable pub keep_closure : Result LimitError Lease → List Session → List Session
keep_closure (ok lease) ss = record { lease = lease; done = false } ∷ ss
keep_closure (err e) ss = ss

unfoldable pub step : {R : Type 0} → Event → Sessions R → Sessions R
step (open_session user ip tcp enforce) s =
    let (l, r) = acquire s.limiter user ip tcp enforce in
    record { limiter = l; held = keep_closure r s.held }
step (close_session n) s =
    let (l, ss) = close_at n s.held s.limiter in record { limiter = l; held = ss }

unfoldable pub run : {R : Type 0} → List Event → Sessions R → Sessions R
run [] s = s
run (e ∷ es) s = run es (step e s)

unfoldable pub no_sessions : {R : Type 0} → Sessions R
no_sessions = record { limiter = new_session_limiter; held = [] }

-- The sessions that are still open: of a user over TCP, and of a user on a device.
abbrev pub one_if : Bool → ℕ
one_if true = 1
one_if false = 0

unfoldable pub open_tcp : ℤ → List Session → ℕ
open_tcp id [] = 0
open_tcp id (s ∷ ss) =
    one_if (not s.done && (s.lease.tcp && s.lease.user_id == id)) + open_tcp id ss

unfoldable pub open_on : ℤ → Text → List Session → ℕ
open_on id ip [] = 0
open_on id ip (s ∷ ss) =
    one_if (not s.done && (s.lease.user_id == id && (s.lease.ip == ip))) + open_on id ip ss
