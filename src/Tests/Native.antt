-- ===== src/Tests/Native.antt =====
-- The runtime that serves, alone and under the agent, at concrete inputs.
use small_x.Base.{pos, ◌≡◌, refl, Text, [], ◌∷◌, true, false, some, Result, ok, err}
use small_x.Base.Strings.{
  codes, trim_space, to_lower, contains_byte, split, cut, split_first, has_prefix_byte,
}
use small_x.Base.Map.{lookup, insert, delete}
use small_x.Model.{RuntimePlan}
use small_x.Config.{RuntimeSection, PassXSection}
use small_x.Ss.Types.{RuntimeConfig}
use small_x.Ss.HostPort.{join_host_port, itoa, itoa_onto}
use small_x.Ss.Resolver.{compile_passx_access}
use small_x.Ss.Rules.{
  compile_target_rules, compile_all, compile_routes, compile_rule, pattern_text, looks_regex,
}
use small_x.Ss.Cipher.{lookup_cipher, derive_master_key, key_loop}
use small_x.Ss.Limits.Speed.{
  sync_users, sync_user, sync_loop, set_speed, retain_seen, speed_limit_to_bytes, put_limiter,
}
use small_x.Ss.Translate.{
  translate, translate_users, derive_password, default_listen_ip, parse_obfs, parse_plugin_opts,
  add_options,
}
use small_x.Ss.Service.{
  Answers, listen_addr, needs_restart, build_state, new_service, open_listeners, apply_state, apply,
  close, snapshot,
}
use small_x.Ss.Service.Listeners.{listener_of}
use small_x.Panel.{
  Client, ClientError, new_client, transport_failed, xboard, report_status, post_json, post_request,
}
use small_x.Backend.{
  Runtime, SsNative, ss_native, new_ss_native, native_apply, native_options, native_snapshot,
}
use small_x.Backend.Native.{applies, snapshots, step, run, native_apply_serves}
use small_x.Agent.{Agent, PushEnv, new_agent, push_snapshot, panel_failed}
use small_x.Agent.Loss.{push_snapshot_lost}
use small_x.Tests.Streams.{tags}
use small_x.Tests.Rules.{suffixes}
use small_x.Tests.Addresses.{test_net}
use small_x.Tests.Limits.{plain_rate}
use small_x.Tests.Control.{node_named, user_named, codec, cfg, fine, moment, n1, n2, u1, down}

program : Unit {0}
unfolding trim_space to_lower contains_byte split cut split_first has_prefix_byte lookup insert
    delete join_host_port itoa itoa_onto compile_passx_access compile_target_rules compile_all
    compile_routes compile_rule pattern_text looks_regex lookup_cipher derive_master_key key_loop
    sync_users sync_user sync_loop set_speed retain_seen put_limiter speed_limit_to_bytes translate
    translate_users derive_password default_listen_ip parse_obfs parse_plugin_opts add_options
    listen_addr needs_restart build_state new_service open_listeners apply_state apply close
    new_ss_native native_apply step native_snapshot snapshot run report_status post_json
    post_request
program = tt

abbrev runtime : RuntimeSection
runtime = record {
  adapter = codes "ss-native";
  work_dir = [];
  apply_timeout = codes "15s";
  default_tcp_conn_limit = pos 100;
  enforce_device_limit = some true;
  allow_targets = [];
  block_targets = codes "b.com" ∷ [];
}

abbrev passx : PassXSection
passx = record { enabled = false; trusted_cidrs = [] }

abbrev plan : Text → RuntimePlan
plan name = record { node = node_named name; users = user_named u1 ∷ []; rules = [] }

abbrev busy_port : Answers
busy_port = record { tcp_listens = true; udp_resolves = true; udp_listens = false }

abbrev before : SsNative (λ s. s) tags suffixes test_net plain_rate
before =
    run (λ s. s) tags suffixes test_net plain_rate
      (new_ss_native (λ s. s) tags suffixes test_net plain_rate runtime passx 0)
      (applies (plan n1) busy_port ∷ snapshots 5 ∷ [])

native_apply_serves_example :
    let after = native_apply (λ s. s) tags suffixes test_net plain_rate fine (plan n2) before in
    (cfg : RuntimeConfig) × (translate
        (λ s. s)
        (node_named n2)
        (user_named u1 ∷ [])
        (native_options (λ s. s) runtime passx)
      ≡ ok cfg)
    × (after.0.service.tcp_ln ≡ some (listener_of cfg))
    × (after.0.service.udp_conn ≡ some (listen_addr cfg))
unfolding program
native_apply_serves_example =
    native_apply_serves (λ s. s) tags suffixes test_net plain_rate runtime passx 0
      (applies (plan n1) busy_port ∷ snapshots 5 ∷ []) (plan n2) fine refl

-- An agent whose service has counted some bytes.
abbrev native : Runtime
native = ss_native (λ s. s) tags suffixes test_net plain_rate

abbrev counted : SsNative (λ s. s) tags suffixes test_net plain_rate
counted =
    let s = new_ss_native (λ s. s) tags suffixes test_net plain_rate runtime passx 0 in
    record s { service = record s.service { traffic = (pos 1, record { up = 5; down = 7 }) ∷ [] } }

abbrev push_env : PushEnv (xboard codec) native
push_env = record {
  at_snapshot = moment;
  at_status = down;
  at_traffic = down;
  at_alive = down;
  at_audits = down;
}

abbrev agent : Agent (xboard codec) native
agent = new_agent (xboard codec) native (new_client cfg) counted

abbrev asked : Client × Result ClientError (Unit {0})
asked =
    report_status codec down
      (native_snapshot (λ s. s) tags suffixes test_net plain_rate 0 counted).1.status
      (new_client cfg)

push_snapshot_lost_example :
    let after = push_snapshot (xboard codec) native push_env agent in
    (after.1 ≡ err (panel_failed transport_failed))
    × (after.0.provider ≡ asked.0)
    × ((native_snapshot (λ s. s) tags suffixes test_net plain_rate 60 after.0.runtime).1.traffic
        ≡ [])
unfolding program new_agent
push_snapshot_lost_example =
    push_snapshot_lost (xboard codec) (λ s. s) tags suffixes test_net plain_rate push_env agent
      asked.0 transport_failed 60 refl
