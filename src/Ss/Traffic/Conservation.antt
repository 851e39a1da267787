-- ===== src/Ss/Traffic/Conservation.antt =====
-- No byte is lost or counted twice between the calls that add and the reports.
use small_x.Base.{
  ℤ, ℕ, ◌+◌, ◌%◌, ◌≡◌, refl, List, [], ◌∷◌, ◌++◌, none, if◌then◌else◌, int_keys, word64, arith,
  int_eq, int_eq_iff,
}
use small_x.Base.Map.{lookup, insert, IsUnique, insert-IsUnique, lookup-insert}
use small_x.Model.{TrafficReport}
use small_x.Ss.Traffic.{
  TrafficValue, TrafficStore, no_traffic, ensure, item_of, add_up, add_down, report_all, reset_all,
  snapshot_and_reset,
}

pub data Call : Type 0 where
  up : ℤ → ℕ → Call
  down : ℤ → ℕ → Call
  snapshot : Call

-- A sequence of calls: the store after it, and all that the snapshots reported.
unfoldable pub run : List Call → TrafficStore → TrafficStore × List TrafficReport
run [] t = (t, [])
run (up id n ∷ cs) t = run cs (add_up t id n)
run (down id n ∷ cs) t = run cs (add_down t id n)
run (snapshot ∷ cs) t =
    let (t', out) = snapshot_and_reset t in let (t'', rest) = run cs t' in (t'', out ++ rest)

-- The sums of a user over the calls and over the reports.
abbrev pub added_up : ℤ → List Call → ℕ
added_up id [] = 0
added_up id (up j n ∷ cs) = (if int_eq j id then n else 0) + added_up id cs
added_up id (down j n ∷ cs) = added_up id cs
added_up id (snapshot ∷ cs) = added_up id cs

abbrev pub added_down : ℤ → List Call → ℕ
added_down id [] = 0
added_down id (up j n ∷ cs) = added_down id cs
added_down id (down j n ∷ cs) = (if int_eq j id then n else 0) + added_down id cs
added_down id (snapshot ∷ cs) = added_down id cs

abbrev pub reported_up : ℤ → List TrafficReport → ℕ
reported_up id [] = 0
reported_up id (r ∷ rs) = (if int_eq r.id id then r.u else 0) + reported_up id rs

abbrev pub reported_down : ℤ → List TrafficReport → ℕ
reported_down id [] = 0
reported_down id (r ∷ rs) = (if int_eq r.id id then r.d else 0) + reported_down id rs

reported_up-append :
    (id : ℤ) (rs qs : List TrafficReport)
    → reported_up id (rs ++ qs) ≡ reported_up id rs + reported_up id qs
reported_up-append id [] qs = omega arith
reported_up-append id (r ∷ rs) qs = omega (arith, reported_up-append id rs qs)

reported_down-append :
    (id : ℤ) (rs qs : List TrafficReport)
    → reported_down id (rs ++ qs) ≡ reported_down id rs + reported_down id qs
reported_down-append id [] qs = omega arith
reported_down-append id (r ∷ rs) qs = omega (arith, reported_down-append id rs qs)

item_of-ensure : (t : TrafficStore) (id j : ℤ) → item_of (ensure t id) j ≡ item_of t j
unfolding ensure item_of
item_of-ensure t id j = ground (arith, int_eq_iff id j, lookup-insert id j no_traffic t)

item_of-insert :
    (id j : ℤ) (v : TrafficValue) (t : TrafficStore)
    → item_of (insert id v t) j ≡ (if int_eq id j then v else item_of t j)
unfolding item_of
item_of-insert id j v t = ground (arith, lookup-insert id j v t)

pub item_of-add_up :
    (t : TrafficStore) (id : ℤ) (n : ℕ) (j : ℤ)
    → let v = item_of t id in
      item_of (add_up t id n) j
      ≡ (if int_eq id j then record { up = (v.up + n) % word64; down = v.down } else item_of t j)
unfolding add_up
item_of-add_up t id n j = rw (item_of-insert, item_of-ensure t id id, item_of-ensure t id j) refl

item_of-add_down :
    (t : TrafficStore) (id : ℤ) (n : ℕ) (j : ℤ)
    → let v = item_of t id in
      item_of (add_down t id n) j
      ≡ (if int_eq id j then record { up = v.up; down = (v.down + n) % word64 } else item_of t j)
unfolding add_down
item_of-add_down t id n j = rw (item_of-insert, item_of-ensure t id id, item_of-ensure t id j) refl

ensure-IsUnique : (t : TrafficStore) (id : ℤ) → IsUnique t → IsUnique (ensure t id)
unfolding ensure
ensure-IsUnique t id u = ground (arith, insert-IsUnique id no_traffic t u)

add_up-IsUnique : (t : TrafficStore) (id : ℤ) (n : ℕ) → IsUnique t → IsUnique (add_up t id n)
unfolding add_up
add_up-IsUnique t id n u = insert-IsUnique id _ (ensure t id) (ensure-IsUnique t id u)

add_down-IsUnique : (t : TrafficStore) (id : ℤ) (n : ℕ) → IsUnique t → IsUnique (add_down t id n)
unfolding add_down
add_down-IsUnique t id n u = insert-IsUnique id _ (ensure t id) (ensure-IsUnique t id u)

lookup-reset_all-none :
    (t : TrafficStore) (id : ℤ) → lookup id t ≡ none → lookup id (reset_all t) ≡ none
unfolding reset_all lookup
lookup-reset_all-none [] id h = refl
lookup-reset_all-none ((j, v) ∷ t) id h = ground (arith, lookup-reset_all-none t id)

reset_all-IsUnique : (t : TrafficStore) → IsUnique t → IsUnique (reset_all t)
unfolding reset_all
reset_all-IsUnique [] u = tt
reset_all-IsUnique ((j, v) ∷ t) u = (lookup-reset_all-none t j u.0, reset_all-IsUnique t u.1)

reported-report_all :
    (t : TrafficStore) (id : ℤ)
    → IsUnique t
    → (reported_up id (report_all t) ≡ (item_of t id).up)
      × (reported_down id (report_all t) ≡ (item_of t id).down)
unfolding report_all item_of lookup
reported-report_all [] id u = (refl, refl)
reported-report_all ((j, v) ∷ t) id u =
    ground (arith, int_eq_iff j id, reported-report_all t id u.1)

item_of-reset_all : (t : TrafficStore) (id : ℤ) → item_of (reset_all t) id ≡ no_traffic
unfolding reset_all item_of lookup
item_of-reset_all [] id = refl
item_of-reset_all ((j, v) ∷ t) id = ground (arith, item_of-reset_all t id)

-- What a user sent before `run` is still pending or is in a report.
run-up :
    (cs : List Call) (t : TrafficStore) (id : ℤ)
    → IsUnique t
    → (reported_up id (run cs t).1 + (item_of (run cs t).0 id).up) % word64
      ≡ ((item_of t id).up + added_up id cs) % word64
unfolding run snapshot_and_reset
run-up [] t id u = omega arith
run-up (up j n ∷ cs) t id u = ground (
  arith,
  run-up cs (add_up t j n) id (add_up-IsUnique t j n u),
  item_of-add_up t j n id,
  int_eq_iff j id,
)
run-up (down j n ∷ cs) t id u = ground (
  arith,
  run-up cs (add_down t j n) id (add_down-IsUnique t j n u),
  item_of-add_down t j n id,
  int_eq_iff j id,
)
run-up (snapshot ∷ cs) t id u = ground (
  arith,
  run-up cs (reset_all t) id (reset_all-IsUnique t u),
  reported-report_all t id u,
  item_of-reset_all t id,
  reported_up-append id (report_all t) (run cs (reset_all t)).1,
)

run-down :
    (cs : List Call) (t : TrafficStore) (id : ℤ)
    → IsUnique t
    → (reported_down id (run cs t).1 + (item_of (run cs t).0 id).down) % word64
      ≡ ((item_of t id).down + added_down id cs) % word64
unfolding run snapshot_and_reset
run-down [] t id u = omega arith
run-down (up j n ∷ cs) t id u = ground (
  arith,
  run-down cs (add_up t j n) id (add_up-IsUnique t j n u),
  item_of-add_up t j n id,
  int_eq_iff j id,
)
run-down (down j n ∷ cs) t id u = ground (
  arith,
  run-down cs (add_down t j n) id (add_down-IsUnique t j n u),
  item_of-add_down t j n id,
  int_eq_iff j id,
)
run-down (snapshot ∷ cs) t id u = ground (
  arith,
  run-down cs (reset_all t) id (reset_all-IsUnique t u),
  reported-report_all t id u,
  item_of-reset_all t id,
  reported_down-append id (report_all t) (run cs (reset_all t)).1,
)

-- From an empty store, whatever the calls and whenever the snapshots are taken: what was reported
-- for a user and what is still pending add up to what was added, as 64-bit words, in both directions.
pub run_conserves :
    (cs : List Call) (id : ℤ)
    → ((reported_up id (run cs []).1 + (item_of (run cs []).0 id).up) % word64
        ≡ added_up id cs % word64)
      × ((reported_down id (run cs []).1 + (item_of (run cs []).0 id).down) % word64
          ≡ added_down id cs % word64)
unfolding item_of lookup
run_conserves cs id = (omega (arith, run-up cs [] id tt), omega (arith, run-down cs [] id tt))

-- A snapshot reports the exact pending counters of every user, and leaves none pending.
pub snapshot_and_reset_lem :
    (t : TrafficStore) (id : ℤ)
    → IsUnique t
    → (reported_up id (snapshot_and_reset t).1 ≡ (item_of t id).up)
      × (reported_down id (snapshot_and_reset t).1 ≡ (item_of t id).down)
      × (item_of (snapshot_and_reset t).0 id ≡ no_traffic)
unfolding snapshot_and_reset
snapshot_and_reset_lem t id u =
    let (a, b) = reported-report_all t id u in (a, b, item_of-reset_all t id)
