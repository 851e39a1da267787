-- ===== src/Provider.antt =====
-- internal/provider/provider.go: what the agent asks of a panel. `Panel` is what the network answers
-- during one call.
use small_x.Base.{List, Bool, Result}
use small_x.Model.{NodeConfig, UserInfo, AuditRule, TrafficReport, AliveIp, StatusReport, AuditLog}

pub record Provider : Type 1 where
  pub State : Type 0
  pub Panel : Type 0
  pub Fault : Type 0
  pub fetch_node : Panel → State → State × Result Fault (NodeConfig × Bool)
  pub fetch_users : Panel → State → State × Result Fault (List UserInfo × Bool)
  pub fetch_rules : Panel → State → State × Result Fault (List AuditRule × Bool)
  pub report_traffic : Panel → List TrafficReport → State → State × Result Fault (Unit {0})
  pub report_alive_ips : Panel → List AliveIp → State → State × Result Fault (Unit {0})
  pub report_status : Panel → StatusReport → State → State × Result Fault (Unit {0})
  pub report_audits : Panel → List AuditLog → State → State × Result Fault (Unit {0})
