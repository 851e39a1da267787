-- ===== src/Tests/Addresses.antt =====
-- PassX headers and target addresses at concrete inputs.
use small_x.Base.{
  ◌/◌, ◌%◌, pos, ℕ, ◌≡◌, ◌≤◌, ◌<◌, ◌⊎◌, ◌&&◌, ◌||◌, ◌↔◌, refl, List, [], ◌∷◌, ◌++◌, Bool, true,
  false, Option, none, some, arith, Text, ok, length, drop, nat_eq, any, if◌then◌else◌, text_eq,
  replicate,
}
use small_x.Base.Strings.{codes, trim_space, contains_byte, has_prefix_byte}
use small_x.Ss.Types.{PassXConfig}
use small_x.Ss.Netip.{
  v4, v6, AddrPort, is_valid, is_unspecified, Prefix, contains, contains_bits, NetText, bits_of,
}
use small_x.Ss.Resolver.{
  PassXAccess, resolve_udp_identity, resolve_v4, resolve_v6, read_uint16, looks_like_passx_header,
  validate_resolved_udp_identity, compile_passx_access, is_trusted_transport, add_entries,
  add_entry, add_parsed, no_access, passx_settings_changed,
}
use small_x.Ss.Resolver.Header.{
  v4_header, resolve_v4_header, resolve_v6_header, resolve_udp_identity_sound,
}
use small_x.Ss.Resolver.Trust.{
  read_entries, is_trusted_transport-compile, mapped_entry_trusts_nobody,
  passx_settings_changed_iff,
}
use small_x.Ss.HostPort.{
  itoa, itoa_onto, atoi, digits_value, join_host_port, split_host_port, split_at_colon,
  split_checked, last_index_byte, index_byte,
}
use small_x.Ss.SocksAddr.{
  IpText, split_addr, split_ip, split_domain, encode_addr, encode_host, encode_domain, check_port,
}
use small_x.Ss.SocksAddr.Codec.{split_addr-le, split_addr-encode_addr, read_back}

program : Unit {0}
unfolding resolve_udp_identity resolve_v4 resolve_v6 read_uint16 looks_like_passx_header
    is_unspecified validate_resolved_udp_identity itoa itoa_onto atoi digits_value join_host_port
    split_host_port split_at_colon split_checked last_index_byte index_byte split_addr split_ip
    split_domain encode_addr encode_host encode_domain check_port trim_space contains_byte
    has_prefix_byte
program = tt

abbrev gateway : AddrPort
gateway = record { addr = v4 (10 ∷ 0 ∷ 0 ∷ 1 ∷ []); port = 4000 }

abbrev client : AddrPort
client = record { addr = v4 (203 ∷ 0 ∷ 113 ∷ 9 ∷ []); port = 51820 }

resolve_v4_header_example :
    (resolve_udp_identity (v4_header 203 0 113 9 51820 ++ codes "data") gateway true
      ≡ ok (record { transport_addr = gateway; real_addr = client }, 9))
    × (drop 9 (v4_header 203 0 113 9 51820 ++ codes "data") ≡ codes "data")
unfolding program
resolve_v4_header_example =
    resolve_v4_header 203 0 113 9 51820 (codes "data") gateway (omega arith) refl

abbrev v6_raw : List ℕ
v6_raw = 32 ∷ 1 ∷ 13 ∷ 184 ∷ (replicate 11 0 ++ 5 ∷ [])

resolve_v6_header_example :
    (resolve_udp_identity
        (b'P' ∷ b'X' ∷ 2 ∷ (v6_raw ++ (443 / 256) ∷ (443 % 256) ∷ codes "data"))
        gateway
        true
      ≡ ok (
        record { transport_addr = gateway; real_addr = record { addr = v6 v6_raw []; port = 443 } },
        21,
      ))
    × (drop 21 (b'P' ∷ b'X' ∷ 2 ∷ (v6_raw ++ (443 / 256) ∷ (443 % 256) ∷ codes "data"))
        ≡ codes "data")
unfolding program
resolve_v6_header_example =
    resolve_v6_header v6_raw 443 (codes "data") gateway refl (omega arith) refl

resolve_udp_identity_sound_example :
    (gateway ≡ gateway)
    × (9 ≤ length (v4_header 203 0 113 9 51820))
    × (((client ≡ gateway) × (◌≡◌ {A = ℕ} 9 0))
        ⊎ ((◌≡◌ {A = Bool} true true)
            × (looks_like_passx_header (v4_header 203 0 113 9 51820) ≡ true)
            × (is_valid client ≡ true)
            × (is_unspecified client.addr ≡ false)))
unfolding program
resolve_udp_identity_sound_example =
    resolve_udp_identity_sound (v4_header 203 0 113 9 51820) gateway true
      (record { transport_addr = gateway; real_addr = client }) 9 refl

-- Texts of addresses for the tests: one prefix, one address in its IPv6 form.
abbrev office : Prefix
office = record { addr = v4 (10 ∷ 0 ∷ 0 ∷ 0 ∷ []); bits = some 8 }

abbrev mapped_bytes : List ℕ
mapped_bytes = replicate 10 0 ++ 255 ∷ 255 ∷ 10 ∷ 0 ∷ 0 ∷ 1 ∷ []

abbrev pub test_net : NetText
test_net = record {
  parse_prefix = λ s. if text_eq s (codes "10.0.0.0/8") then some office else none;
  parse_addr = λ s. if text_eq s (codes "::ffff:10.0.0.1") then some (v6 mapped_bytes []) else none;
  parse_addr_port = λ s. none;
  masked = λ p. p;
  prefix_text = λ p. codes "prefix";
  addr_text = λ a. codes "addr";
}

abbrev office_config : PassXConfig
office_config = record { enabled = true; trusted_cidrs = codes "10.0.0.0/8" ∷ codes "bad" ∷ [] }

is_trusted_transport-compile_example :
    is_trusted_transport (compile_passx_access test_net office_config) gateway
    ≡ (office_config.enabled && is_valid gateway)
      && (nat_eq (length (read_entries test_net office_config.trusted_cidrs)) 0
          || any (λ p. contains p gateway.addr) (read_entries test_net office_config.trusted_cidrs))
is_trusted_transport-compile_example = is_trusted_transport-compile test_net office_config gateway

trusted_run :
    (is_trusted_transport (compile_passx_access test_net office_config) gateway ≡ true)
    × (is_trusted_transport (compile_passx_access test_net office_config) client ≡ false)
unfolding program is_trusted_transport compile_passx_access add_entries add_entry add_parsed
    contains contains_bits bits_of
trusted_run = (refl, refl)

abbrev mapped_config : PassXConfig
mapped_config = record { enabled = true; trusted_cidrs = codes "::ffff:10.0.0.1" ∷ [] }

mapped_entry_trusts_nobody_example :
    is_trusted_transport (compile_passx_access test_net mapped_config) gateway ≡ false
unfolding program
mapped_entry_trusts_nobody_example =
    mapped_entry_trusts_nobody test_net mapped_config (codes "::ffff:10.0.0.1") mapped_bytes []
      gateway refl refl refl refl refl

abbrev on_access : PassXAccess
on_access = record no_access { enabled = true; trusted_cidrs = codes "a" ∷ [] }

passx_settings_changed_iff_example : (passx_settings_changed on_access on_access ≡ false) ↔ (
    (◌≡◌ {A = Bool} true true)
    × (on_access.trusted_cidrs ≡ on_access.trusted_cidrs)
    × (on_access.invalid_cidrs ≡ on_access.invalid_cidrs))
passx_settings_changed_iff_example = passx_settings_changed_iff on_access on_access

pub no_ip : (s : Text) (ip : List ℕ) → ◌≡◌ {A = Option (List ℕ)} none (some ip) → length ip ≡ 16
no_ip s ip e = cc

-- No text is an IP address.
abbrev pub names_only : IpText
names_only = record { ip_text = λ b. codes "ip"; parse_ip = λ s. none; length-parse_ip = no_ip }

abbrev pub target_bytes : List ℕ
target_bytes = 3 ∷ 5 ∷ (codes "a.com" ++ 1 ∷ 187 ∷ [])

split_addr-le_example : (4 ≤ 9) × (9 ≤ length (target_bytes ++ codes "hi"))
unfolding program
split_addr-le_example =
    split_addr-le names_only (target_bytes ++ codes "hi") (codes "a.com:443") 9 refl

split_addr-encode_addr_example :
    (host : Text) × (port_text : Text) × (port : ℕ) × (split_host_port (codes "a.com:443")
      ≡ some (host, port_text))
    × (atoi port_text ≡ some (pos port))
    × (port < 65536)
    × (split_addr names_only (target_bytes ++ codes "hi")
        ≡ ok (join_host_port (read_back names_only host) (itoa port), length target_bytes))
unfolding program
split_addr-encode_addr_example =
    split_addr-encode_addr names_only (codes "a.com:443") target_bytes (codes "hi") refl
