-- ===== src/Tests/Tracking.antt =====
-- Traffic and online devices at concrete inputs.
use small_x.Base.{pos, ◌+◌, ◌%◌, ◌≡◌, List, [], ◌∷◌, none, arith, word64}
use small_x.Base.Strings.{codes}
use small_x.Ss.Traffic.{item_of}
use small_x.Ss.Traffic.Conservation.{
  Call, added_up, added_down, reported_up, reported_down, run_conserves,
}
use small_x.Ss.Traffic.Conservation
use small_x.Ss.Online.{snapshot}
use small_x.Ss.Online.History
use small_x.Ss.Online.History.{last_seen, run-reports_fresh}
use small_x.Ss.Online.Snapshots.{reports, is_fresh}

abbrev traffic : List Call
traffic =
    Conservation.Call.up (pos 1) 5
    ∷ Conservation.Call.down (pos 1) 7
    ∷ Conservation.Call.snapshot
    ∷ Conservation.Call.up (pos 1) 2
    ∷ []

run_conserves_example :
    ((reported_up (pos 1) (Conservation.run traffic []).1
          + (item_of (Conservation.run traffic []).0 (pos 1)).up)
        % word64
      ≡ added_up (pos 1) traffic % word64)
    × ((reported_down (pos 1) (Conservation.run traffic []).1
            + (item_of (Conservation.run traffic []).0 (pos 1)).down)
          % word64
        ≡ added_down (pos 1) traffic % word64)
run_conserves_example = run_conserves traffic (pos 1)

abbrev calls : List History.Call
calls =
    History.Call.sees 1 (pos 1) (codes "a")
    ∷ History.Call.snaps 9
    ∷ History.Call.sees 10 (pos 1) (codes "b")
    ∷ []

run-reports_fresh_example :
    reports
      (pos 1)
      (codes "b")
      (snapshot (History.run (record { ttl = 5; entries = [] }) calls) 12).1
    ≡ is_fresh 5 12 (last_seen none (pos 1) (codes "b") calls)
run-reports_fresh_example = run-reports_fresh calls 5 12 (pos 1) (codes "b") (omega arith)
