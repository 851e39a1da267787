-- ===== src/Ss/SocksAddr.antt =====
-- internal/ss/socksaddr.go: the target address in front of a payload. The text forms of IP addresses
-- (`net.IP.String` and `net.ParseIP`) are a parameter; `ParseIP` returns 16 bytes.
pub mod Codec
use small_x.Base.{
  ℤ, pos, negsuc, ℕ, zero, suc, ◌+◌, ◌*◌, ◌/◌, ◌%◌, ◌≡◌, Text, List, [], ◌∷◌, ◌++◌, Bool, true,
  false, ◌&&◌, ◌||◌, not, Option, none, some, nat_eq, text_eq, leb, ltb, if◌then◌else◌, length,
  take, drop, get_or, Result, ok, err, ◌>>=◌,
}
use small_x.Base.Strings.{trim_space}
use small_x.Ss.HostPort.{itoa, atoi, join_host_port, split_host_port}
use small_x.Ss.Netip.{NetAddr, tcp_addr, udp_addr, other_addr, mapped_prefix}

pub data AddrError : Type 0 where
  short_socks_address short_ipv4 short_domain short_domain_payload short_ipv6 : AddrError
  unsupported_atyp : ℕ → AddrError
  bad_host_port bad_port_text invalid_domain_length : AddrError
  invalid_port : ℤ → AddrError

pub record IpText : Type 0 where
  pub ip_text : List ℕ → Text
  pub parse_ip : Text → Option (List ℕ)
  pub length-parse_ip : (s : Text) (ip : List ℕ) → parse_ip s ≡ some ip → length ip ≡ 16

abbrev pub atyp_ipv4 : ℕ
atyp_ipv4 = 1

abbrev pub atyp_domain : ℕ
atyp_domain = 3

abbrev pub atyp_ipv6 : ℕ
atyp_ipv6 = 4

-- `IP.To4` of 4 or 16 bytes.
unfoldable pub to4 : List ℕ → Option (List ℕ)
to4 ip =
    if nat_eq (length ip) 4
    then some ip
    else if nat_eq (length ip) 16 && text_eq (take 12 ip) mapped_prefix
    then some (drop 12 ip)
    else none

-- `IP.To16`.
unfoldable pub to16 : List ℕ → Option (List ℕ)
to16 ip =
    if nat_eq (length ip) 4
    then some (mapped_prefix ++ ip)
    else if nat_eq (length ip) 16
    then some ip
    else none

-- `binary.BigEndian.Uint16` of the two bytes in front, and `PutUint16`.
abbrev pub uint16_at : List ℕ → ℕ
uint16_at b = get_or b 0 0 * 256 + get_or b 1 0

abbrev pub port_bytes : ℕ → List ℕ
port_bytes n = (n / 256 % 256) ∷ (n % 256) ∷ []

unfoldable pub encode_domain : Text → ℕ → Result AddrError (List ℕ)
encode_domain raw port =
    let host = trim_space raw in
    if nat_eq (length host) 0 || ltb 255 (length host)
    then err invalid_domain_length
    else ok (atyp_domain ∷ (length host % 256) ∷ (host ++ port_bytes port))

-- The `if ip := net.ParseIP(host)` block, and what follows it.
unfoldable pub encode_ip : Option (List ℕ) → Option (List ℕ) → Text → ℕ → Result AddrError (List ℕ)
encode_ip (some b4) b16 host port = ok (atyp_ipv4 ∷ (b4 ++ port_bytes port))
encode_ip none (some b16) host port = ok (atyp_ipv6 ∷ (b16 ++ port_bytes port))
encode_ip none none host port = encode_domain host port

unfoldable pub check_port : ℤ → Result AddrError ℕ
check_port (negsuc n) = err (invalid_port (negsuc n))
check_port (pos n) = if ltb 65535 n then err (invalid_port (pos n)) else ok n

abbrev pub or_error {ℓ} : {A : Type ℓ} → AddrError → Option A → Result AddrError A
or_error e none = err e
or_error e (some a) = ok a

module _ (lib : IpText) where
  open lib use {ip_text, parse_ip}

  -- An IP address of `size` bytes behind the type byte, then the port.
  unfoldable pub split_ip : ℕ → AddrError → List ℕ → Result AddrError (Text × ℕ)
  split_ip size short payload =
      if ltb (length payload) (1 + size + 2)
      then err short
      else ok (
        join_host_port (ip_text (take size (drop 1 payload)))
            (itoa (uint16_at (drop (1 + size) payload))),
        1 + size + 2,
      )

  unfoldable pub split_domain : List ℕ → Result AddrError (Text × ℕ)
  split_domain payload =
      let size = get_or payload 1 0 in
      if ltb (length payload) 2
      then err short_domain
      else if ltb (length payload) (2 + size + 2)
      then err short_domain_payload
      else ok (
        join_host_port (take size (drop 2 payload)) (itoa (uint16_at (drop (2 + size) payload))),
        2 + size + 2,
      )

  -- The target, and the number of bytes in front of the payload.
  unfoldable pub split_addr : List ℕ → Result AddrError (Text × ℕ)
  split_addr payload =
      let atyp = get_or payload 0 0 in
      if ltb (length payload) 1
      then err short_socks_address
      else if nat_eq atyp atyp_ipv4
      then split_ip 4 short_ipv4 payload
      else if nat_eq atyp atyp_domain
      then split_domain payload
      else if nat_eq atyp atyp_ipv6
      then split_ip 16 short_ipv6 payload
      else err (unsupported_atyp atyp)

  unfoldable pub encode_host : Text → ℕ → Result AddrError (List ℕ)
  encode_host host port = elim (parse_ip host) [
    | none ↦ encode_domain host port
    | some ip ↦ encode_ip (to4 ip) (to16 ip) host port
  ]

  unfoldable pub encode_addr : Text → Result AddrError (List ℕ)
  encode_addr target = do
    (host, port_text) ← or_error bad_host_port (split_host_port target)
    value ← or_error bad_port_text (atoi port_text)
    port ← check_port value
    encode_host host port

  -- `addr.String()` of a TCP or UDP address joins the IP's text and the port.
  unfoldable pub addr_from_net : (NetAddr → Text) → NetAddr → Result AddrError (List ℕ)
  addr_from_net text (tcp_addr ip port) = encode_addr (text (tcp_addr ip port))
  addr_from_net text (udp_addr ip port) = encode_addr (text (udp_addr ip port))
  addr_from_net text (other_addr s) = encode_addr (text (other_addr s))

  unfoldable pub remote_ip : NetAddr → Text
  remote_ip (tcp_addr ip port) = ip_text ip
  remote_ip (udp_addr ip port) = ip_text ip
  remote_ip (other_addr s) = elim (split_host_port s) [ none ↦ s | some (host, port) ↦ host ]
