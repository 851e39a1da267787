-- ===== src/Agent/Loss.antt =====
-- internal/agent/agent.go, `pushSnapshot`, with the runtime of internal/backend/ss_native.go.
use small_x.Base.{ℕ, ◌≡◌, refl, Text, [], ◌∷◌, err, arith}
use small_x.Provider.{Provider}
use small_x.Ss.Netip.{NetText}
use small_x.Ss.Rules.{RegexLib}
use small_x.Ss.Cipher.{CryptoLib}
use small_x.Ss.Limits.Speed.{RateLib}
use small_x.Ss.Traffic
use small_x.Ss.Traffic.{TrafficStore, reset_all, snapshot_and_reset}
use small_x.Ss.Service.{snapshot}
use small_x.Backend.{ss_native, native_snapshot}
use small_x.Agent.{Agent, PushEnv, push_snapshot, report_all, panel_failed}

report_all-reset_all : (t : TrafficStore) → Traffic.report_all (reset_all t) ≡ []
unfolding reset_all Traffic.report_all
report_all-reset_all [] = refl
report_all-reset_all ((id, item) ∷ t) = ground (arith, report_all-reset_all t)

module _ (P : Provider) (encode : Text → Text) (crypto : CryptoLib) (regex : RegexLib)
    (net : NetText) (rates : RateLib) where
  -- When the report of the status fails, the push ends with that error before any other report, and
  -- the traffic of its snapshot is gone: a snapshot at any later time, with no traffic in between,
  -- has none to report.
  pub push_snapshot_lost :
      (env : PushEnv P (ss_native encode crypto regex net rates))
      (a : Agent P (ss_native encode crypto regex net rates)) (p : P.State) (f : P.Fault)
      (later : ℕ)
      → P.report_status env.at_status
          (native_snapshot encode crypto regex net rates env.at_snapshot.now a.runtime).1.status
          a.provider
        ≡ (p, err f)
      → let after = push_snapshot P (ss_native encode crypto regex net rates) env a in
        (after.1 ≡ err (panel_failed f))
        × (after.0.provider ≡ p)
        × ((native_snapshot encode crypto regex net rates later after.0.runtime).1.traffic ≡ [])
  unfolding push_snapshot report_all native_snapshot snapshot snapshot_and_reset
  push_snapshot_lost env a p f later fails =
      rw fails (refl, refl, report_all-reset_all a.runtime.service.traffic)
