-- ===== src/Ss/Resolver.antt =====
-- internal/ss/resolver.go: who a client is, behind a PassX tunnel or not.
pub mod Header
pub mod Client
pub mod Trust
use small_x.Base.{
  bool_eq, ℤ, pos, negsuc, ℕ, zero, suc, ◌+◌, ◌*◌, ◌%◌, Text, List, [], ◌∷◌, ◌++◌, Bool, true,
  false, ◌&&◌, ◌||◌, not, Option, none, some, nat_eq, text_eq, leb, ltb, if◌then◌else◌, length,
  take, drop, get_or, any, Result, ok, err, is_none,
}
use small_x.Base.Strings.{trim_space}
use small_x.Ss.Types.{PassXConfig}
use small_x.Ss.Netip.{
  Addr, no_addr, v4, v6, bit_len, unmap, is_unspecified, addr_from_slice, AddrPort, no_addr_port,
  is_valid, Prefix, prefix_from, contains, NetAddr, tcp_addr, udp_addr, other_addr, NetText,
}

pub data PassXError : Type 0 where
  invalid_passx_header : PassXError

pub record ClientIdentity : Type 0 where
  pub transport_addr : AddrPort
  pub real_addr : AddrPort

abbrev pub no_identity : ClientIdentity
no_identity = record { transport_addr = no_addr_port; real_addr = no_addr_port }

unfoldable pub real_ip : NetText → ClientIdentity → Text
real_ip net i =
    if is_valid i.real_addr
    then net.addr_text i.real_addr.addr
    else if is_valid i.transport_addr
    then net.addr_text i.transport_addr.addr
    else []

pub record PassXAccess : Type 0 where
  pub enabled : Bool
  pub trusted_cidrs : List Text
  pub invalid_cidrs : List Text
  pub trusted_prefixes : List Prefix

abbrev pub no_access : PassXAccess
no_access = record {
  enabled = false;
  trusted_cidrs = [];
  invalid_cidrs = [];
  trusted_prefixes = [];
}

-- `append` of a trusted prefix with its text, and of an invalid entry.
abbrev pub trust : Text → Prefix → PassXAccess → PassXAccess
trust text prefix a = record a {
  trusted_cidrs = a.trusted_cidrs ++ text ∷ [];
  trusted_prefixes = a.trusted_prefixes ++ prefix ∷ [];
}

abbrev pub distrust : Text → PassXAccess → PassXAccess
distrust raw a = record a { invalid_cidrs = a.invalid_cidrs ++ raw ∷ [] }

-- The entry as a prefix, or as an address.
unfoldable pub add_parsed : NetText → Text → Option Prefix → Option Addr → PassXAccess → PassXAccess
add_parsed net raw (some p) addr a = trust (net.prefix_text (net.masked p)) (net.masked p) a
add_parsed net raw none none a = distrust raw a
add_parsed net raw none (some addr) a =
    let p = prefix_from (unmap addr) (bit_len addr) in trust (net.prefix_text p) p a

-- The body of the loop over the configured entries.
unfoldable pub add_entry : NetText → Text → PassXAccess → PassXAccess
add_entry net entry a =
    let raw = trim_space entry in
    if nat_eq (length raw) 0
    then a
    else add_parsed net raw (net.parse_prefix raw) (net.parse_addr raw) a

unfoldable pub add_entries : NetText → List Text → PassXAccess → PassXAccess
add_entries net [] a = a
add_entries net (entry ∷ entries) a = add_entries net entries (add_entry net entry a)

unfoldable pub compile_passx_access : NetText → PassXConfig → PassXAccess
compile_passx_access net cfg =
    if cfg.enabled
    then add_entries net cfg.trusted_cidrs (record no_access { enabled = true })
    else no_access

unfoldable pub is_trusted_transport : PassXAccess → AddrPort → Bool
is_trusted_transport p addr =
    if not p.enabled || not (is_valid addr)
    then false
    else if nat_eq (length p.trusted_prefixes) 0
    then true
    else any (λ prefix. contains prefix addr.addr) p.trusted_prefixes

unfoldable pub has_trusted_prefixes : PassXAccess → Bool
has_trusted_prefixes p = ltb 0 (length p.trusted_prefixes)

-- `uint16(raw[0])<<8 | uint16(raw[1])` on two bytes, whose bits do not overlap.
unfoldable pub read_uint16 : List ℕ → ℕ
read_uint16 raw = (get_or raw 0 0 * 256 + get_or raw 1 0) % 65536

unfoldable pub looks_like_passx_header : List ℕ → Bool
looks_like_passx_header packet =
    leb 2 (length packet) && (nat_eq (get_or packet 0 0) b'P' && nat_eq (get_or packet 1 0) b'X')

unfoldable pub validate_resolved_udp_identity :
    ClientIdentity → ℕ → Result PassXError (ClientIdentity × ℕ)
validate_resolved_udp_identity identity payload_offset =
    if not (is_valid identity.real_addr) || is_unspecified identity.real_addr.addr
    then err invalid_passx_header
    else ok (identity, payload_offset)

-- The two header forms: 4 or 16 bytes of an address from byte 3, then a port of two bytes.
unfoldable pub resolve_v4 : List ℕ → ClientIdentity → Result PassXError (ClientIdentity × ℕ)
resolve_v4 packet identity =
    if ltb (length packet) 9
    then err invalid_passx_header
    else validate_resolved_udp_identity
        (record identity {
          real_addr = record {
            addr = v4 (take 4 (drop 3 packet));
            port = read_uint16 (drop 7 packet);
          };
        })
        9

unfoldable pub resolve_v6 : List ℕ → ClientIdentity → Result PassXError (ClientIdentity × ℕ)
resolve_v6 packet identity =
    if ltb (length packet) 21
    then err invalid_passx_header
    else validate_resolved_udp_identity
        (record identity {
          real_addr = record {
            addr = v6 (take 16 (drop 3 packet)) [];
            port = read_uint16 (drop 19 packet);
          };
        })
        21

unfoldable pub resolve_udp_identity :
    List ℕ → AddrPort → Bool → Result PassXError (ClientIdentity × ℕ)
resolve_udp_identity packet transport trusted_transport =
    let identity : ClientIdentity = record { transport_addr = transport; real_addr = transport } in
    if not trusted_transport
    then ok (identity, 0)
    else if not (looks_like_passx_header packet)
    then ok (identity, 0)
    else if ltb (length packet) 3
    then err invalid_passx_header
    else if nat_eq (get_or packet 2 0) 1
    then resolve_v4 packet identity
    else if nat_eq (get_or packet 2 0) 2
    then resolve_v6 packet identity
    else err invalid_passx_header

-- `port < 0 || port > 65535` refuses.
unfoldable pub port_in_range : ℤ → Option ℕ
port_in_range (pos n) = if leb n 65535 then some n else none
port_in_range (negsuc n) = none

unfoldable pub addr_port_from_ip_port : List ℕ → ℤ → Option AddrPort
addr_port_from_ip_port ip port = elim (addr_from_slice ip) [
  | none ↦ none
  | some addr ↦ elim (port_in_range port) [
    | none ↦ none
    | some n ↦ some (record { addr = unmap addr; port = n })
  ]
]

unfoldable pub addr_port_from_net_addr : NetText → NetAddr → Option AddrPort
addr_port_from_net_addr net (tcp_addr ip port) = addr_port_from_ip_port ip port
addr_port_from_net_addr net (udp_addr ip port) = addr_port_from_ip_port ip port
addr_port_from_net_addr net (other_addr text) = net.parse_addr_port text

unfoldable pub resolve_tcp_identity : NetText → NetAddr → ClientIdentity
resolve_tcp_identity net remote = elim (addr_port_from_net_addr net remote) [
  | none ↦ no_identity
  | some addr ↦ record { transport_addr = addr; real_addr = addr }
]

-- The two loops over the indices of lists of one length.
unfoldable pub any_differs : List Text → List Text → Bool
any_differs [] next = false
any_differs (a ∷ previous) [] = false
any_differs (a ∷ previous) (b ∷ next) = not (text_eq a b) || any_differs previous next

unfoldable pub passx_settings_changed : PassXAccess → PassXAccess → Bool
passx_settings_changed previous next =
    if not (bool_eq previous.enabled next.enabled)
    then true
    else if not (nat_eq (length previous.trusted_cidrs) (length next.trusted_cidrs))
    then true
    else if not (nat_eq (length previous.invalid_cidrs) (length next.invalid_cidrs))
    then true
    else any_differs previous.trusted_cidrs next.trusted_cidrs
      || any_differs previous.invalid_cidrs next.invalid_cidrs
