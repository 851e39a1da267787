-- ===== src/Tests/Lifecycle.antt =====
-- A service over calls of `Apply` and `Close`.
use small_x.Base.{pos, ◌≡◌, refl, [], ◌∷◌, true, false, some}
use small_x.Base.Strings.{codes, trim_space, to_lower, contains_byte}
use small_x.Base.Map.{lookup, delete}
use small_x.Ss.Types.{RuntimeConfig}
use small_x.Ss.HostPort.{join_host_port, itoa, itoa_onto}
use small_x.Ss.Resolver.{compile_passx_access}
use small_x.Ss.Rules.{
  compile_target_rules, compile_all, compile_routes, compile_rule, pattern_text, looks_regex,
}
use small_x.Ss.Cipher.{lookup_cipher, derive_master_key, key_loop}
use small_x.Ss.Limits.Speed.{sync_users}
use small_x.Ss.Service.{
  Answers, listen_addr, needs_restart, build_state, new_service, open_listeners, apply_state, apply,
  close,
}
use small_x.Ss.Service.Listeners.{
  IsServing, applies, closes, listener_of, run, run_serves, apply_serves,
}
use small_x.Tests.Streams.{tags}
use small_x.Tests.Rules.{suffixes, blocking}
use small_x.Tests.Addresses.{test_net}
use small_x.Tests.Limits.{plain_rate}

program : Unit {0}
unfolding trim_space to_lower contains_byte lookup delete join_host_port itoa itoa_onto
    compile_passx_access compile_target_rules compile_all compile_routes compile_rule pattern_text
    looks_regex lookup_cipher derive_master_key key_loop sync_users listen_addr needs_restart
    build_state new_service open_listeners apply_state apply close run
program = tt

abbrev cfg : RuntimeConfig
cfg = record blocking {
  server = record blocking.server {
    listen_ip = codes "0.0.0.0";
    server_port = pos 8388;
    cipher = codes "aes-128-gcm";
  };
}

abbrev fine : Answers
fine = record { tcp_listens = true; udp_resolves = true; udp_listens = true }

abbrev busy_port : Answers
busy_port = record { tcp_listens = true; udp_resolves = true; udp_listens = false }

run_serves_example : IsServing tags suffixes test_net plain_rate (
    run tags suffixes test_net plain_rate
      (new_service tags suffixes test_net plain_rate 0)
      (applies cfg busy_port ∷ applies cfg fine ∷ closes ∷ []))
run_serves_example =
    run_serves tags suffixes test_net plain_rate 0
      (applies cfg busy_port ∷ applies cfg fine ∷ closes ∷ [])

apply_serves_example :
    let before =
      run tags suffixes test_net plain_rate
        (new_service tags suffixes test_net plain_rate 0)
        (applies cfg busy_port ∷ []) in
    let after = apply tags suffixes test_net plain_rate before cfg fine in
    (after.0.tcp_ln ≡ some (listener_of cfg)) × (after.0.udp_conn ≡ some (listen_addr cfg))
unfolding program
apply_serves_example =
    apply_serves tags suffixes test_net plain_rate 0 (applies cfg busy_port ∷ []) cfg fine refl refl
      refl
