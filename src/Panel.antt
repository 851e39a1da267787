-- ===== src/Panel.antt =====
-- internal/provider/xboard/client.go: the panel's HTTP client. One call is one exchange: `Panel` is
-- what `http.Client.Do` gives for a request during the call, none for an error. JSON and MessagePack
-- are a parameter.
pub mod Exchange
pub mod Caching
pub mod Reports
unfoldable pub use Exchange.*
use small_x.Base.{
  ℤ, pos, ℕ, Text, List, [], ◌∷◌, ◌++◌, Bool, true, false, ◌&&◌, ◌||◌, not, Option, none, some,
  length, nat_eq, leb, text_eq, int_keys, text_keys, if◌then◌else◌, Result, ok, err, take,
}
use small_x.Base.Strings.{codes, trim_space, to_lower}
use small_x.Base.Map.{lookup, insert}
use small_x.Model.{NodeConfig, UserInfo, AuditRule, TrafficReport, AliveIp, StatusReport, AuditLog}
use small_x.Config.{PanelConfig}
use small_x.Provider.{Provider}

module _ (codec : Codec) where
  -- The common body of `getJSON` and `getUsers`.
  unfoldable pub conditional_get :
      {A : Type 0}
      → (Response → Result ClientError A)
      → Text
      → Text
      → Text
      → Panel
      → Client
      → Client × Result ClientError (Option A)
  conditional_get decode path key accept panel c =
      let r = get_request c path key accept in
      if not (codec.is_url r.url)
      then (c, err bad_url)
      else answer_of decode key (log_request c r) (panel r)

  unfoldable pub decode_node : Response → Result ClientError NodeConfig
  decode_node r = or_not_decoded (codec.node_from_json r.body)

  unfoldable pub decode_users_response : Response → Result ClientError (List UserInfo)
  decode_users_response r =
      let t = to_lower (trim_space r.content_type) in
      if contains_text t (codes "application/msgpack")
        || contains_text t (codes "application/x-msgpack")
      then or_not_decoded (codec.users_from_msgpack r.body)
      else if nat_eq (length t) 0 || contains_text t (codes "application/json")
      then or_not_decoded (codec.users_from_json r.body)
      else err (unsupported_content_type t)

  unfoldable pub get_json : Panel → Client → Client × Result ClientError (Option NodeConfig)
  get_json panel c = conditional_get decode_node node_path (codes "node") [] panel c

  unfoldable pub get_users : Panel → Client → Client × Result ClientError (Option (List UserInfo))
  get_users panel c =
      conditional_get decode_users_response users_path (codes "users") users_accept panel c

  unfoldable pub fetch_node : Panel → Client → Client × Result ClientError (NodeConfig × Bool)
  fetch_node panel c = let (c', r) = get_json panel c in (c', with_flag no_node r)

  unfoldable pub fetch_users : Panel → Client → Client × Result ClientError (List UserInfo × Bool)
  fetch_users panel c = let (c', r) = get_users panel c in (c', with_flag [] r)

  unfoldable pub fetch_rules : Panel → Client → Client × Result ClientError (List AuditRule × Bool)
  fetch_rules panel c = (c, ok ([], false))

  unfoldable pub post_json :
      Panel → Text → Option Text → Client → Client × Result ClientError (Unit {0})
  post_json panel path none c = (c, err not_encoded)
  post_json panel path (some body) c =
      let r = post_request c path body in
      if not (codec.is_url r.url) then (c, err bad_url) else posted (log_request c r) (panel r)

  unfoldable pub report_traffic :
      Panel → List TrafficReport → Client → Client × Result ClientError (Unit {0})
  report_traffic panel traffic c =
      if nat_eq (length traffic) 0
      then (c, ok tt)
      else post_json panel (codes "/api/v1/server/UniProxy/push")
          (codec.traffic_to_json (traffic_data traffic [])) c

  unfoldable pub report_alive_ips :
      Panel → List AliveIp → Client → Client × Result ClientError (Unit {0})
  report_alive_ips panel alive c =
      if nat_eq (length alive) 0
      then (c, ok tt)
      else post_json panel (codes "/api/v1/server/UniProxy/alive")
          (codec.alive_to_json (alive_data alive [])) c

  unfoldable pub report_status :
      Panel → StatusReport → Client → Client × Result ClientError (Unit {0})
  report_status panel status c =
      post_json panel (codes "/api/v1/server/UniProxy/status") (codec.status_to_json status) c

  unfoldable pub report_audits :
      Panel → List AuditLog → Client → Client × Result ClientError (Unit {0})
  report_audits panel audits c = (c, ok tt)

  -- The client as the agent's provider.
  abbrev pub xboard : Provider
  xboard = record {
    State = Client;
    Panel = Panel;
    Fault = ClientError;
    fetch_node = fetch_node;
    fetch_users = fetch_users;
    fetch_rules = fetch_rules;
    report_traffic = report_traffic;
    report_alive_ips = report_alive_ips;
    report_status = report_status;
    report_audits = report_audits;
  }
