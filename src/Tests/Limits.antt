-- ===== src/Tests/Limits.antt =====
-- internal/ss/limits.go at concrete inputs.
use small_x.Base.{
  pos, ℕ, ◌≡◌, refl, ◌≤◌, Text, List, [], ◌∷◌, true, false, ◌⊎◌, some, none, err, length, arith,
  ltb,
}
use small_x.Base.Strings.{codes}
use small_x.Base.Map.{lookup, insert, delete}
use small_x.Base.Sort.{sort, insert_sorted}
use small_x.Ss.Types.{UserConfig}
use small_x.Ss.Limits.{
  SessionLimiter, tcp_limit_reached, device_limit_reached, new_session_limiter, tcp_count, refs_of,
  ip_count, ensure_refs, add_ref, device_full, count_tcp, tcp_full, admit, acquire, uncount_tcp,
  uncount_ip, release,
}
use small_x.Ss.Limits.Outcomes.{Reached, HasRoom, IsAdmitted, acquire_lem}
use small_x.Ss.Limits.Rates.{IsLimitOf, get_speed_limiter-sync_users}
use small_x.Ss.Limits.Shape.{acquire-IsWell, new_session_limiter-IsWell}
use small_x.Ss.Limits.Snapshot.{snapshot_alive_ips, alive_of, reports, snapshot_alive_ips-counts}
use small_x.Ss.Limits.Speed.{
  RateLib, sync_users, sync_user, sync_loop, set_speed, put_limiter, retain_seen, get_speed_limiter,
  speed_limit_to_bytes, view,
}
use small_x.Ss.Limits.Sessions.{
  Event, open_session, close_session, close_once, close_at, keep_closure, step, run, no_sessions,
  open_tcp, open_on,
}
use small_x.Ss.Limits.Sessions.Refinement.{Tracks, run_counts}
use small_x.Ss.Limits.Sessions.Bounds.{run_tcp_bound, run_device_bound}
use small_x.Ss.Limits.Sessions.Drain.{run_drained}

program : Unit {0}
unfolding new_session_limiter tcp_count refs_of ip_count ensure_refs add_ref device_full count_tcp
    tcp_full admit acquire uncount_tcp uncount_ip release lookup insert delete close_once close_at
    keep_closure step run no_sessions open_tcp open_on snapshot_alive_ips alive_of sort
    insert_sorted
program = tt

abbrev pub alice : UserConfig
alice = record {
  id = pos 7;
  uuid = codes "u";
  method = codes "aes-256-gcm";
  password = codes "p";
  speed_limit = pos 8;
  device_limit = pos 2;
  tcp_conn_limit = pos 2;
}

abbrev home : Text
home = codes "1.1.1.1"

abbrev work : Text
work = codes "2.2.2.2"

abbrev phone : Text
phone = codes "3.3.3.3"

-- Two sessions fill the connection limit, a third is refused, a UDP session of a known device is
-- admitted, and one of a third device is refused.
abbrev busy : List Event
busy =
    open_session alice home true true
    ∷ open_session alice work true true
    ∷ open_session alice home true true
    ∷ open_session alice home false true
    ∷ open_session alice phone false true
    ∷ []

abbrev quiet : List Event
quiet =
    open_session alice home true true
    ∷ open_session alice work false true
    ∷ close_session 1
    ∷ close_session 1
    ∷ close_session 0
    ∷ []

abbrev limiter_after : List Event → SessionLimiter ℕ
limiter_after es = (run es (no_sessions {R = ℕ})).limiter

busy_counts :
    (tcp_count (limiter_after busy) (pos 7) ≡ 2)
    × (ip_count (limiter_after busy) (pos 7) home ≡ 2)
    × (ip_count (limiter_after busy) (pos 7) phone ≡ 0)
unfolding program
busy_counts = (refl, refl, refl)

refused :
    (acquire (limiter_after busy) alice home true true
      ≡ (limiter_after busy, err tcp_limit_reached))
    × (acquire (limiter_after busy) alice phone false true
        ≡ (limiter_after busy, err device_limit_reached))
unfolding program
refused = (refl, refl)

run_counts_example :
    Tracks (run busy (no_sessions {R = ℕ})).limiter (run busy (no_sessions {R = ℕ})).held
run_counts_example = run_counts {R = ℕ} busy

run_tcp_bound_example : open_tcp (pos 7) (run busy (no_sessions {R = ℕ})).held ≤ 2
run_tcp_bound_example =
    run_tcp_bound ℕ (pos 7) 2 (omega arith) busy
      ((λ e. refl), ((λ e. refl), ((λ e. refl), ((λ e. refl), ((λ e. refl), tt)))))

run_device_bound_example : length (refs_of (run busy (no_sessions {R = ℕ})).limiter (pos 7)) ≤ 2
run_device_bound_example = run_device_bound ℕ (pos 7) 2 (omega arith) busy (
  (λ e. (refl, refl)),
  ((λ e. (refl, refl)), ((λ e. (refl, refl)), ((λ e. (refl, refl)), ((λ e. (refl, refl)), tt)))),
)

run_drained_example :
    ((run quiet (no_sessions {R = ℕ})).limiter.tcp_counts ≡ [])
    × ((run quiet (no_sessions {R = ℕ})).limiter.ip_refs ≡ [])
unfolding program
run_drained_example = run_drained ℕ quiet (refl, (refl, tt))

acquire_lem_example :
    let l = limiter_after busy in
    ((true ≡ true)
      × Reached alice.tcp_conn_limit (tcp_count l alice.id)
      × (acquire l alice home true true ≡ (l, err tcp_limit_reached)))
    ⊎ (((true ≡ false) ⊎ HasRoom alice.tcp_conn_limit (tcp_count l alice.id))
        × (true ≡ true)
        × (ip_count l alice.id home ≡ 0)
        × Reached alice.device_limit (length (refs_of l alice.id))
        × (acquire l alice home true true ≡ (l, err device_limit_reached)))
    ⊎ (((true ≡ false) ⊎ HasRoom alice.tcp_conn_limit (tcp_count l alice.id))
        × ((true ≡ false)
            ⊎ (1 ≤ ip_count l alice.id home)
            ⊎ HasRoom alice.device_limit (length (refs_of l alice.id)))
        × IsAdmitted l alice home true (acquire l alice home true true))
acquire_lem_example = acquire_lem (limiter_after busy) alice home true true

abbrev one_session : SessionLimiter ℕ
one_session = (acquire new_session_limiter alice home true true).0

snapshot_alive_ips-counts_example :
    reports (pos 7) home (snapshot_alive_ips one_session)
    ≡ ltb 0 (ip_count one_session (pos 7) home)
snapshot_alive_ips-counts_example =
    snapshot_alive_ips-counts one_session
      (acquire-IsWell new_session_limiter new_session_limiter-IsWell alice home true true) (pos 7)
      home

snapshot_run : reports (pos 7) home (snapshot_alive_ips one_session) ≡ true
unfolding program
snapshot_run = refl

-- A rate limiter as the pair of its settings.
abbrev pub plain_rate : RateLib
plain_rate = record {
  Limiter = ℕ × ℕ;
  new_limiter = λ r b. (r, b);
  set_limit = λ l r. (r, l.1);
  set_burst = λ l b. (l.0, b);
  limit = λ l. l.0;
  burst = λ l. l.1;
  limit-new = λ r b. refl;
  burst-new = λ r b. refl;
  limit-set_limit = λ l r. refl;
  burst-set_limit = λ l r. refl;
  limit-set_burst = λ l b. refl;
  burst-set_burst = λ l b. refl;
}

abbrev throttled : SessionLimiter (ℕ × ℕ)
throttled = record { tcp_counts = []; ip_refs = []; speed_limiter = (pos 9, (1, 1)) ∷ [] }

get_speed_limiter-sync_users_example : IsLimitOf (some alice) (
    view plain_rate
      (get_speed_limiter plain_rate (sync_users plain_rate (alice ∷ []) throttled) (pos 7)))
get_speed_limiter-sync_users_example =
    get_speed_limiter-sync_users plain_rate (alice ∷ []) throttled (pos 7)

sync_run :
    (get_speed_limiter plain_rate (sync_users plain_rate (alice ∷ []) throttled) (pos 7)
      ≡ some (1_000_000, 1_000_000))
    × (get_speed_limiter plain_rate (sync_users plain_rate (alice ∷ []) throttled) (pos 9) ≡ none)
unfolding sync_users sync_user sync_loop set_speed put_limiter retain_seen get_speed_limiter
    speed_limit_to_bytes lookup insert delete
sync_run = (refl, refl)
