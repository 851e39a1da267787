-- ===== src/Model.antt =====
-- internal/model/model.go: what the panel sends and what the node reports.
-- JSON fragments that the program never reads are kept as texts.
use small_x.Base.{
  ℤ, pos, ℕ, Bool, not, Text, List, [], ◌∷◌, ◌++◌, nat_eq, length, if◌then◌else◌, is_positive,
}
use small_x.Base.Strings.{codes, to_lower}
use small_x.Ss.HostPort.{decimal}

pub record RouteRule : Type 0 where
  pub id : ℤ
  pub match : List Text
  pub action : Text
  pub action_value : Text

pub record NodeConfig : Type 0 where
  pub protocol : Text
  pub listen_ip : Text
  pub server_port : ℤ
  pub network : Text
  pub network_settings : Text
  pub tls : ℤ
  pub tls_settings : Text
  pub multiplex : Text
  pub flow : Text
  pub host : Text
  pub server_name : Text
  pub cipher : Text
  pub server_key : Text
  pub plugin : Text
  pub plugin_opts : Text
  pub routes : List RouteRule

pub record UserInfo : Type 0 where
  pub id : ℤ
  pub uuid : Text
  pub password : Text
  pub speed_limit : ℤ
  pub device_limit : ℤ
  pub tcp_limit : ℤ

pub record AuditRule : Type 0 where
  pub id : ℤ
  pub rule : Text

-- `u` and `d` are the 64-bit patterns of Go's int64.
pub record TrafficReport : Type 0 where
  pub id : ℤ
  pub u : ℕ
  pub d : ℕ

pub record AliveIp : Type 0 where
  pub id : ℤ
  pub ips : List Text

pub record AuditLog : Type 0 where
  pub user_id : ℤ
  pub audit_id : ℤ

pub record ResourceUsage : Type 0 where
  pub total : ℤ
  pub used : ℤ

-- The CPU load is a float in the source, which every runtime leaves at 0.
pub record StatusReport : Type 0 where
  pub mem : ResourceUsage
  pub swap : ResourceUsage
  pub disk : ResourceUsage
  pub uptime : ℤ

abbrev no_usage : ResourceUsage
no_usage = record { total = pos 0; used = pos 0 }

-- A status with nothing but the uptime, in seconds.
abbrev pub uptime_status : ℕ → StatusReport
uptime_status seconds = record {
  mem = no_usage;
  swap = no_usage;
  disk = no_usage;
  uptime = pos seconds;
}

pub record RuntimePlan : Type 0 where
  pub node : NodeConfig
  pub users : List UserInfo
  pub rules : List AuditRule

pub record RuntimeSnapshot : Type 0 where
  pub status : StatusReport
  pub traffic : List TrafficReport
  pub alive_ips : List AliveIp
  pub audits : List AuditLog

-- `append` of a part that is there.
abbrev add_if : Bool → Text → List Text → List Text
add_if there part parts = if there then part ∷ parts else parts

-- `strings.Join(parts, " ")`.
unfoldable pub join_spaces : List Text → Text
join_spaces [] = []
join_spaces (part ∷ []) = part
join_spaces (part ∷ next ∷ parts) = part ++ b' ' ∷ join_spaces (next ∷ parts)

unfoldable pub summary : NodeConfig → Text
summary n = join_spaces (
    add_if (not (nat_eq (length n.protocol) 0)) (to_lower n.protocol) (
      add_if (not (nat_eq (length n.network) 0)) n.network (
        add_if (is_positive n.server_port) (b':' ∷ decimal n.server_port)
          (add_if (is_positive n.tls) (codes "tls=" ++ decimal n.tls) []))))
