-- ===== src/Tests/Rules.antt =====
-- Target rules at concrete inputs.
use small_x.Base.{
  is_ok, pos, negsuc, ◌-◌, ◌≡◌, refl, Text, [], ◌∷◌, ◌++◌, true, false, ◌&&◌, ◌||◌, not, some, inl,
  nat_eq, text_eq, length, take, drop, arith, take-append_left, length-append, ap,
}
use small_x.Base.Strings.{codes, trim_space, to_lower, contains_byte, has_prefix_byte}
use small_x.Ss.Types.{RuntimeConfig}
use small_x.Ss.HostPort.{
  join_host_port, itoa, itoa_onto, split_host_port, split_at_colon, split_checked, last_index_byte,
  index_byte,
}
use small_x.Ss.Rules.{
  RegexLib, ends_with, TargetRules, compile_target_rules, compile_all, compile_routes, compile_rule,
  pattern_text, looks_regex, validate, target_candidates, matches_any, first_block,
}
use small_x.Ss.Rules.Enforcement.{entries_match, route_entries, validate-compile}
use small_x.Ss.Rules.Domains.{IsDomain, validate_blocked_domain}

program : Unit {0}
unfolding join_host_port itoa itoa_onto split_host_port split_at_colon split_checked last_index_byte
    index_byte compile_target_rules compile_all compile_routes compile_rule pattern_text looks_regex
    validate target_candidates matches_any first_block trim_space to_lower contains_byte
    has_prefix_byte
program = tt

-- The text between the first six bytes and the last one.
abbrev body : Text → Text
body t = take (length (drop 6 t) - 1) (drop 6 t)

pub body-suffix : (s : Text) → body (codes "(^|\\.)" ++ (s ++ codes "$")) ≡ s
body-suffix s =
    take-append_left (length (s ++ codes "$") - 1) s (codes "$")
      (ground (arith, length-append s (codes "$")))

-- Patterns of the form `(^|\.)…$`, for texts without special bytes.
abbrev pub suffixes : RegexLib
suffixes = record {
  Regexp = Text;
  compile = λ t. some (body t);
  match_string = λ r t. text_eq t r || ends_with (codes "." ++ r) t;
  quote_meta = λ t. t;
  parses_ip = λ t. false;
  is_utf8 = λ t. true;
  suffix = λ s u. (s, ap some (body-suffix s), λ t w. refl);
}

abbrev pub blocking : RuntimeConfig
blocking = record {
  server = record {
    listen_ip = [];
    server_port = pos 0;
    cipher = [];
    server_key = [];
    enable_tcp = true;
    enable_udp = true;
    obfs = record { enabled = false; mode = []; host = []; path = [] };
    default_tcp_conn_limit = pos 0;
    enforce_device_limit = true;
    allow_targets = [];
    block_targets = codes "b.com" ∷ [];
    routes =
        record { id = pos 7; match = codes "c.com" ∷ []; action = codes "block"; action_value = [] }
        ∷ [];
  };
  users = [];
  passx = record { enabled = false; trusted_cidrs = [] };
}

abbrev pub compiled : TargetRules suffixes
compiled = record {
  allows = [];
  blocks =
      record { id = negsuc 0; source = codes "local-block"; pattern = codes "b.com" }
      ∷ record { id = pos 7; source = codes "xboard-block"; pattern = codes "c.com" }
      ∷ [];
}

validate-compile_example :
    is_ok (validate suffixes compiled (codes "a.com:80"))
    ≡ not (
        entries_match suffixes (codes "b.com" ∷ []) (target_candidates (codes "a.com:80"))
        || entries_match suffixes
            (route_entries suffixes blocking.server.routes)
            (target_candidates (codes "a.com:80")))
      && (nat_eq (length blocking.server.allow_targets) 0
          || entries_match suffixes blocking.server.allow_targets
              (target_candidates (codes "a.com:80")))
unfolding program
validate-compile_example = validate-compile suffixes blocking compiled (codes "a.com:80") refl

allowed_run : is_ok (validate suffixes compiled (codes "a.com:80")) ≡ true
unfolding program
allowed_run = refl

b_com : IsDomain suffixes (trim_space (codes "b.com"))
unfolding program
b_com = record { plain = refl; no_colon = refl; no_ip = refl; utf8 = refl }

validate_blocked_domain_example :
    is_ok (validate suffixes compiled (join_host_port (codes "x.b.com") (itoa 443))) ≡ false
unfolding program
validate_blocked_domain_example =
    validate_blocked_domain suffixes blocking compiled (codes "b.com") (codes "x.b.com") 443 refl
      (inl (inl refl)) b_com refl refl refl refl
