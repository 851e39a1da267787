-- ===== src/Ss/Online/History.antt =====
-- The tracker against the history of its calls.
use small_x.Base.{
  ℤ, ℕ, ◌≤◌, ◌≡◌, refl, ◌∙◌, List, [], ◌∷◌, ◌&&◌, Option, none, some, if◌then◌else◌, int_keys,
  text_keys, Text, arith, int_eq, text_eq,
}
use small_x.Base.Map.{lookup}
use small_x.Ss.Online.{OnlineTracker, mark_seen, snapshot}
use small_x.Ss.Online.Snapshots.{
  time_of, is_fresh, IsWell, reports, time_of-live_users, reports-fresh, live_users-IsWell,
  time_of-mark_seen, mark_seen-IsWell,
}

-- A call at a time: a device of a user is marked, or a snapshot is taken.
pub data Call : Type 0 where
  sees : ℕ → ℤ → Text → Call
  snaps : ℕ → Call

abbrev pub at : Call → ℕ
at (sees now id ip) = now
at (snaps now) = now

unfoldable pub step : OnlineTracker → Call → OnlineTracker
step o (sees now id ip) = mark_seen o id ip now
step o (snaps now) = (snapshot o now).0

unfoldable pub run : OnlineTracker → List Call → OnlineTracker
run o [] = o
run o (c ∷ cs) = run (step o c) cs

-- The clock does not go back.
abbrev pub IsTimed : ℕ → List Call → ℕ → Type 0
IsTimed start [] end = start ≤ end
IsTimed start (c ∷ cs) end = (start ≤ at c) × IsTimed (at c) cs end

-- The specification: the time of the last call that marked the device, `before` if none did.
abbrev pub last_seen : Option ℕ → ℤ → Text → List Call → Option ℕ
last_seen before id ip [] = before
last_seen before id ip (sees now j q ∷ cs) =
    last_seen (if int_eq j id && text_eq q ip then some now else before) id ip cs
last_seen before id ip (snaps now ∷ cs) = last_seen before id ip cs

-- The tracker agrees with the history at every time from `clock` on.
abbrev Agrees : ℕ → OnlineTracker → ℕ → ℤ → Text → Option ℕ → Type 0
Agrees ttl o clock id ip t =
    (now : ℕ) → clock ≤ now → is_fresh ttl now (time_of o.entries id ip) ≡ is_fresh ttl now t

step-ttl : (o : OnlineTracker) (c : Call) → (step o c).ttl ≡ o.ttl
unfolding step mark_seen snapshot
step-ttl o (sees now id ip) = refl
step-ttl o (snaps now) = refl

step-IsWell : (o : OnlineTracker) (c : Call) → IsWell o.entries → IsWell (step o c).entries
unfolding step snapshot
step-IsWell o (sees now id ip) w = mark_seen-IsWell o id ip now w
step-IsWell o (snaps now) w = live_users-IsWell o.ttl now o.entries w

step-Agrees :
    (ttl : ℕ) (o : OnlineTracker) (c : Call) (clock : ℕ) (id : ℤ) (ip : Text) (t : Option ℕ)
    → IsWell o.entries
    → o.ttl ≡ ttl
    → clock ≤ at c
    → Agrees ttl o clock id ip t
    → Agrees ttl (step o c) (at c) id ip (last_seen t id ip (c ∷ []))
unfolding step snapshot
step-Agrees ttl o (sees now j q) clock id ip t w e h same later k =
    ground (arith, time_of-mark_seen o j q now id ip, same later)
step-Agrees ttl o (snaps now) clock id ip t w e h same later k =
    ground (arith, time_of-live_users o.ttl now o.entries id ip w, same later, e)

run-reports :
    (cs : List Call) (ttl : ℕ) (o : OnlineTracker) (clock end : ℕ) (id : ℤ) (ip : Text)
    (t : Option ℕ)
    → IsWell o.entries
    → o.ttl ≡ ttl
    → IsTimed clock cs end
    → Agrees ttl o clock id ip t
    → reports id ip (snapshot (run o cs) end).1 ≡ is_fresh ttl end (last_seen t id ip cs)
unfolding run snapshot
run-reports [] ttl o clock end id ip t w e timed same =
    rw e (reports-fresh ttl end o.entries id ip w ∙ same end timed)
run-reports (sees now j q ∷ cs) ttl o clock end id ip t w e timed same =
    let c = sees now j q in
    run-reports cs ttl (step o c) now end id ip (last_seen t id ip (c ∷ [])) (step-IsWell o c w)
      (step-ttl o c ∙ e) timed.1 (step-Agrees ttl o c clock id ip t w e timed.0 same)
run-reports (snaps now ∷ cs) ttl o clock end id ip t w e timed same =
    let c = snaps now in
    run-reports cs ttl (step o c) now end id ip t (step-IsWell o c w) (step-ttl o c ∙ e) timed.1
      (step-Agrees ttl o c clock id ip t w e timed.0 same)

-- From an empty tracker, over any calls whose clock does not go back, snapshots in between included:
-- a snapshot reports a device of a user exactly when the device was marked, and the last time
-- that it was is no more than `ttl` ago.
pub run-reports_fresh :
    (cs : List Call) (ttl end : ℕ) (id : ℤ) (ip : Text)
    → IsTimed 0 cs end
    → reports id ip (snapshot (run (record { ttl = ttl; entries = [] }) cs) end).1
      ≡ is_fresh ttl end (last_seen none id ip cs)
unfolding time_of lookup
run-reports_fresh cs ttl end id ip timed =
    let o : OnlineTracker = record { ttl = ttl; entries = [] } in
    run-reports cs ttl o 0 end id ip none
      (record { users = tt; devices = λ j m e. absurd (ground arith) }) refl timed (λ now h. refl)
