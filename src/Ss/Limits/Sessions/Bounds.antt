-- ===== src/Ss/Limits/Sessions/Bounds.antt =====
-- The limits over any sequence of calls.
use small_x.Base.{
  Bool-cases, ap, ℤ, pos, ℕ, zero, suc, ◌+◌, ◌≤◌, ◌<◌, ◌≡◌, Text, List, [], ◌∷◌, Bool, true, false,
  ◌&&◌, ◌==◌, int_keys, text_keys, inl, inr, arith, int_eq_iff, All, length, Option-cases,
  is_positive,
}
use small_x.Base.Map.{lookup, insert, length-insert_new, length-insert_old}
use small_x.Ss.Types.{UserConfig}
use small_x.Ss.Limits.{
  SessionLimiter, ip_count, refs_of, new_session_limiter, tcp_full, device_full,
}
use small_x.Ss.Limits.Counts.{length-refs_of-release}
use small_x.Ss.Limits.Acquire.{acquire_cases, refs_of-admit, admit-lease}
use small_x.Ss.Limits.Sessions.{
  Session, Sessions, Event, open_session, close_session, close_once, close_at, keep_closure, step,
  run, no_sessions, open_tcp, one_if,
}
use small_x.Ss.Limits.Sessions.Refinement.{Tracks, step-Tracks, no_sessions-Tracks}

-- Every TCP admission of the user is asked for under the connection limit `n`.
abbrev pub AsksTcp : ℤ → ℕ → Event → Type 0
AsksTcp id n (open_session user ip tcp enforce) = user.id ≡ id → user.tcp_conn_limit ≡ pos n
AsksTcp id n (close_session k) = Unit

-- Every admission of the user is asked for under the device limit `n`, which is enforced.
abbrev pub AsksDevices : ℤ → ℕ → Event → Type 0
AsksDevices id n (open_session user ip tcp enforce) =
    user.id ≡ id → (user.device_limit ≡ pos n) × (enforce ≡ true)
AsksDevices id n (close_session k) = Unit

module _ {R : Type 0} (id : ℤ) (n : ℕ) (set : 0 < n) where
  close_at-open_tcp :
      (k : ℕ) (ss : List Session) (l : SessionLimiter R)
      → open_tcp id (close_at k ss l).1 ≤ open_tcp id ss
  unfolding close_at open_tcp
  close_at-open_tcp k [] l = omega arith
  close_at-open_tcp zero (s ∷ ss) l = ground arith
  close_at-open_tcp (suc k) (s ∷ ss) l = omega (arith, close_at-open_tcp k ss l)

  room_for_one :
      (user : UserConfig) (ip : Text) (tcp : Bool) (s : Sessions R)
      → Tracks s.limiter s.held
      → user.id ≡ id
      → user.tcp_conn_limit ≡ pos n
      → tcp_full s.limiter user tcp ≡ false
      → open_tcp id s.held ≤ n
      → one_if (tcp && user.id == id) + open_tcp id s.held ≤ n
  unfolding tcp_full
  room_for_one user ip tcp s t same limit room bound =
      ground (arith, t.tcp user.id, ap (λ (j : ℤ). open_tcp j s.held) same)

  step-open_tcp :
      (e : Event) (s : Sessions R)
      → Tracks s.limiter s.held
      → AsksTcp id n e
      → open_tcp id s.held ≤ n
      → open_tcp id (step e s).held ≤ n
  unfolding step open_tcp keep_closure
  step-open_tcp (open_session user ip tcp enforce) s t asks bound =
      let l = s.limiter in
      elim (acquire_cases l user ip tcp enforce) [
        | inl (_, e) ↦ rw (e, keep_closure) bound
        | inr (inl (_, _, e)) ↦ rw (e, keep_closure) bound
        | inr (inr (room, _, e)) ↦
            rw (e, admit-lease l user ip tcp enforce, keep_closure)
              (elim (Bool-cases (user.id == id)) [
                | inl same ↦
                    room_for_one user ip tcp s t ((int_eq_iff _ _).0 same)
                      (asks ((int_eq_iff _ _).0 same)) room bound
                | inr other ↦ ground (arith, other)
              ])
      ]
  step-open_tcp (close_session k) s t asks bound =
      omega (arith, close_at-open_tcp k s.held s.limiter)

  close_at-devices :
      (k : ℕ) (ss : List Session) (l : SessionLimiter R)
      → length (refs_of (close_at k ss l).0 id) ≤ length (refs_of l id)
  unfolding close_at close_once
  close_at-devices k [] l = omega arith
  close_at-devices zero (s ∷ ss) l = ground (arith, length-refs_of-release l s.lease id)
  close_at-devices (suc k) (s ∷ ss) l = close_at-devices k ss l

  room_for_device :
      (user : UserConfig) (ip : Text) (enforce : Bool) (l : SessionLimiter R)
      → user.id ≡ id
      → (user.device_limit ≡ pos n) × (enforce ≡ true)
      → ((enforce && is_positive user.device_limit) && device_full l user ip) ≡ false
      → length (refs_of l id) ≤ n
      → length (insert ip (ip_count l user.id ip + 1) (refs_of l user.id)) ≤ n
  unfolding device_full ip_count
  room_for_device user ip enforce l same asks free bound =
      let k = ip_count l user.id ip + 1 in
      let refs = refs_of l user.id in
      let known = ap (λ (j : ℤ). length (refs_of l j)) same in
      elim (Option-cases (lookup ip refs)) [
        | inl absent ↦ ground (arith, absent, known, length-insert_new ip k refs absent)
        | inr (m, here) ↦ ground (arith, known, length-insert_old ip k m refs here)
      ]

  step-devices :
      (e : Event) (s : Sessions R)
      → AsksDevices id n e
      → length (refs_of s.limiter id) ≤ n
      → length (refs_of (step e s).limiter id) ≤ n
  unfolding step
  step-devices (open_session user ip tcp enforce) s asks bound =
      let l = s.limiter in
      elim (acquire_cases l user ip tcp enforce) [
        | inl (_, e) ↦ rw e bound
        | inr (inl (_, _, e)) ↦ rw e bound
        | inr (inr (_, free, e)) ↦
            rw (e, refs_of-admit l user ip tcp enforce id)
              (elim (Bool-cases (user.id == id)) [
                | inl same ↦ rw same (
                    room_for_device user ip enforce l ((int_eq_iff _ _).0 same)
                      (asks ((int_eq_iff _ _).0 same)) free bound)
                | inr other ↦ rw other bound
              ])
      ]
  step-devices (close_session k) s asks bound = omega (arith, close_at-devices k s.held s.limiter)

  run-open_tcp :
      (es : List Event) (s : Sessions R)
      → Tracks s.limiter s.held
      → All (AsksTcp id n) es
      → open_tcp id s.held ≤ n
      → open_tcp id (run es s).held ≤ n
  unfolding run
  run-open_tcp [] s t asks bound = bound
  run-open_tcp (e ∷ es) s t asks bound =
      run-open_tcp es (step e s) (step-Tracks e s t) asks.1 (step-open_tcp e s t asks.0 bound)

  run-devices :
      (es : List Event) (s : Sessions R)
      → All (AsksDevices id n) es
      → length (refs_of s.limiter id) ≤ n
      → length (refs_of (run es s).limiter id) ≤ n
  unfolding run
  run-devices [] s asks bound = bound
  run-devices (e ∷ es) s asks bound =
      run-devices es (step e s) asks.1 (step-devices e s asks.0 bound)

-- A user whose TCP admissions are all asked for under a positive limit never has more open TCP
-- sessions than the limit, whatever the other calls are and in whatever order they come.
pub run_tcp_bound :
    (R : Type 0) (id : ℤ) (n : ℕ)
    → 0 < n
    → (es : List Event) → All (AsksTcp id n) es
    → open_tcp id (run es (no_sessions {R = R})).held ≤ n
unfolding no_sessions open_tcp
run_tcp_bound R id n set es asks =
    run-open_tcp id n set es (no_sessions {R = R}) no_sessions-Tracks asks (omega arith)

-- A user whose admissions are all asked for under a positive device limit that is enforced never
-- has entries for more devices than the limit.
pub run_device_bound :
    (R : Type 0) (id : ℤ) (n : ℕ)
    → 0 < n
    → (es : List Event) → All (AsksDevices id n) es
    → length (refs_of (run es (no_sessions {R = R})).limiter id) ≤ n
unfolding no_sessions new_session_limiter refs_of lookup
run_device_bound R id n set es asks =
    run-devices id n set es (no_sessions {R = R}) asks (omega arith)
