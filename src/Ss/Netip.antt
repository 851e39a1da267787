-- ===== src/Ss/Netip.antt =====
-- What internal/ss uses of Go's `net/netip` and `net`: addresses, prefixes, and the address of a
-- connection. Reading and printing addresses is a parameter.
use small_x.Base.{
  ℤ, ℕ, ◌/◌, ◌%◌, Text, List, [], ◌∷◌, ◌++◌, Bool, true, false, ◌&&◌, not, Option, none, some,
  nat_eq, text_eq, leb, if◌then◌else◌, length, take, drop, replicate,
}

-- The zero `Addr`, an IPv4 address of 4 bytes, an IPv6 address of 16 bytes with its zone.
pub data Addr : Type 0 where
  no_addr : Addr
  v4 : List ℕ → Addr
  v6 : List ℕ → Text → Addr

abbrev pub bit_len : Addr → ℕ
bit_len no_addr = 0
bit_len (v4 b) = 32
bit_len (v6 b z) = 128

abbrev pub addr_bytes : Addr → List ℕ
addr_bytes no_addr = []
addr_bytes (v4 b) = b
addr_bytes (v6 b z) = b

abbrev pub has_zone : Addr → Bool
has_zone no_addr = false
has_zone (v4 b) = false
has_zone (v6 b z) = not (nat_eq (length z) 0)

abbrev pub without_zone : Addr → Addr
without_zone no_addr = no_addr
without_zone (v4 b) = v4 b
without_zone (v6 b z) = v6 b []

abbrev pub mapped_prefix : List ℕ
mapped_prefix = 0 ∷ 0 ∷ 0 ∷ 0 ∷ 0 ∷ 0 ∷ 0 ∷ 0 ∷ 0 ∷ 0 ∷ 255 ∷ 255 ∷ []

-- `Unmap`: an IPv4 address in its IPv6 form becomes the IPv4 address.
unfoldable pub unmap : Addr → Addr
unmap no_addr = no_addr
unmap (v4 b) = v4 b
unmap (v6 b z) = if text_eq (take 12 b) mapped_prefix then v4 (drop 12 b) else v6 b z

unfoldable pub is_unspecified : Addr → Bool
is_unspecified no_addr = false
is_unspecified (v4 b) = text_eq b (replicate 4 0)
is_unspecified (v6 b z) = text_eq b (replicate 16 0) && nat_eq (length z) 0

abbrev pub is_valid_addr : Addr → Bool
is_valid_addr no_addr = false
is_valid_addr (v4 b) = true
is_valid_addr (v6 b z) = true

-- `AddrFromSlice`.
unfoldable pub addr_from_slice : List ℕ → Option Addr
addr_from_slice b =
    if nat_eq (length b) 4
    then some (v4 b)
    else if nat_eq (length b) 16
    then some (v6 b [])
    else none

pub record AddrPort : Type 0 where
  pub addr : Addr
  pub port : ℕ

abbrev pub no_addr_port : AddrPort
no_addr_port = record { addr = no_addr; port = 0 }

abbrev pub is_valid : AddrPort → Bool
is_valid a = is_valid_addr a.addr

-- The bits of a byte, the highest first.
abbrev pub byte_bits : ℕ → List ℕ
byte_bits b =
    (b / 128 % 2)
    ∷ (b / 64 % 2)
    ∷ (b / 32 % 2)
    ∷ (b / 16 % 2)
    ∷ (b / 8 % 2)
    ∷ (b / 4 % 2)
    ∷ (b / 2 % 2)
    ∷ (b % 2)
    ∷ []

unfoldable pub bits_of : List ℕ → List ℕ
bits_of [] = []
bits_of (b ∷ bs) = byte_bits b ++ bits_of bs

-- A `Prefix`; `none` bits make it invalid.
pub record Prefix : Type 0 where
  pub addr : Addr
  pub bits : Option ℕ

unfoldable pub prefix_from : Addr → ℕ → Prefix
prefix_from ip bits = record {
  addr = without_zone ip;
  bits = if is_valid_addr ip && leb bits (bit_len ip) then some bits else none;
}

unfoldable pub contains_bits : Addr → Option ℕ → Addr → Bool
contains_bits base none ip = false
contains_bits base (some n) ip =
    not (has_zone ip)
    && (not (nat_eq (bit_len base) 0)
        && (nat_eq (bit_len base) (bit_len ip)
            && text_eq (take n (bits_of (addr_bytes base))) (take n (bits_of (addr_bytes ip)))))

unfoldable pub contains : Prefix → Addr → Bool
contains p ip = contains_bits p.addr p.bits ip

-- A `net.Addr`: a TCP or UDP address, or another kind, of which only its text is known.
pub data NetAddr : Type 0 where
  tcp_addr : List ℕ → ℤ → NetAddr
  udp_addr : List ℕ → ℤ → NetAddr
  other_addr : Text → NetAddr

-- `ParsePrefix` (with `Masked`), `ParseAddr`, `ParseAddrPort`, and the `String` methods.
pub record NetText : Type 0 where
  pub parse_prefix : Text → Option Prefix
  pub parse_addr : Text → Option Addr
  pub parse_addr_port : Text → Option AddrPort
  pub masked : Prefix → Prefix
  pub prefix_text : Prefix → Text
  pub addr_text : Addr → Text
