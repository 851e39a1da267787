-- ===== src/Agent/Pushes.antt =====
-- pushSnapshot of internal/agent/agent.go over the client of internal/provider/xboard/client.go.
use small_x.Base.{refl, ◌∙◌, Result, ok, err}
use small_x.Model.{RuntimeSnapshot}
use small_x.Backend.{Runtime}
use small_x.Agent.{PushEnv, report_all, and_then}
use small_x.Panel.{Codec, Client, ClientError, xboard, report_audits}
use small_x.Panel.Reports.{Same, report_traffic-Same, report_alive_ips-Same, report_status-Same}

module _ (codec : Codec) (R : Runtime) where
  and_then-Same :
      (c : Client) (next : Client → Client × Result ClientError (Unit {0}))
      (q : Client × Result ClientError (Unit {0}))
      → ((x : Client) → Same x (next x).0)
      → Same c q.0
      → Same c (and_then (xboard codec) R next q).0
  and_then-Same c next (x, err e) keeps w = w
  and_then-Same c next (x, ok u) keeps w = ((keeps x).0 ∙ w.0, (keeps x).1 ∙ w.1)

  pub report_all-Same :
      (env : PushEnv (xboard codec) R) (s : RuntimeSnapshot) (c : Client)
      → Same c (report_all (xboard codec) R env s c).0
  unfolding report_all report_audits
  report_all-Same env s c =
      let X = xboard codec in
      let status = X.report_status env.at_status s.status c in
      let traffic = and_then X R (X.report_traffic env.at_traffic s.traffic) status in
      let alive = and_then X R (X.report_alive_ips env.at_alive s.alive_ips) traffic in
      and_then-Same c (X.report_audits env.at_audits s.audits) alive (λ x. (refl, refl))
        (and_then-Same c (X.report_alive_ips env.at_alive s.alive_ips) traffic
          (report_alive_ips-Same codec env.at_alive s.alive_ips)
          (and_then-Same c (X.report_traffic env.at_traffic s.traffic) status
            (report_traffic-Same codec env.at_traffic s.traffic)
            (report_status-Same codec env.at_status s.status c)))
