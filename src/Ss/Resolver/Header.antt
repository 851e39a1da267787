-- ===== src/Ss/Resolver/Header.antt =====
-- The PassX header of a UDP packet: `resolveUDPIdentity`.
use small_x.Base.{
  length-append, take-append_left, drop-append_left, drop-drop, ℕ, ◌/◌, ◌%◌, ◌<◌, ◌≤◌, ◌≡◌, refl,
  List, [], ◌∷◌, ◌++◌, Bool, true, false, ◌⊎◌, length, drop, ok, arith,
}
use small_x.Ss.Netip.{v6, v4, AddrPort, is_valid, is_unspecified}
use small_x.Ss.Resolver.{
  ClientIdentity, resolve_udp_identity, resolve_v4, resolve_v6, read_uint16,
  looks_like_passx_header, validate_resolved_udp_identity,
}

-- The header of a tunnel for an IPv4 client: `PX`, 1, the address, the port.
abbrev pub v4_header : ℕ → ℕ → ℕ → ℕ → ℕ → List ℕ
v4_header a b c d port = b'P' ∷ b'X' ∷ 1 ∷ a ∷ b ∷ c ∷ d ∷ (port / 256) ∷ (port % 256) ∷ []

-- A trusted packet with a header of an IPv4 client other than 0.0.0.0 and a port of 16 bits is from
-- that client, and the payload starts right behind the header.
pub resolve_v4_header :
    (a b c d port : ℕ) (payload : List ℕ) (transport : AddrPort)
    → port < 65536
    → is_unspecified (v4 (a ∷ b ∷ c ∷ d ∷ [])) ≡ false
    → (resolve_udp_identity (v4_header a b c d port ++ payload) transport true
        ≡ ok (
          record {
            transport_addr = transport;
            real_addr = record { addr = v4 (a ∷ b ∷ c ∷ d ∷ []); port = port };
          },
          9,
        ))
      × (drop 9 (v4_header a b c d port ++ payload) ≡ payload)
unfolding resolve_udp_identity resolve_v4 read_uint16 looks_like_passx_header
    validate_resolved_udp_identity
resolve_v4_header a b c d port payload transport h known = (ground arith, refl)

-- A trusted packet with a header of an IPv6 client other than `::` (`PX`, 2, 16 bytes, a port of 16
-- bits) is from that client, and the payload starts right behind the header.
pub resolve_v6_header :
    (raw : List ℕ) (port : ℕ) (payload : List ℕ) (transport : AddrPort)
    → length raw ≡ 16
    → port < 65536
    → is_unspecified (v6 raw []) ≡ false
    → (resolve_udp_identity
          (b'P' ∷ b'X' ∷ 2 ∷ (raw ++ (port / 256) ∷ (port % 256) ∷ payload))
          transport
          true
        ≡ ok (
          record {
            transport_addr = transport;
            real_addr = record { addr = v6 raw []; port = port };
          },
          21,
        ))
      × (drop 21 (b'P' ∷ b'X' ∷ 2 ∷ (raw ++ (port / 256) ∷ (port % 256) ∷ payload)) ≡ payload)
unfolding resolve_udp_identity resolve_v6 read_uint16 looks_like_passx_header
    validate_resolved_udp_identity
resolve_v6_header raw port payload transport size h known =
    let tail = (port / 256) ∷ (port % 256) ∷ payload in
    (
      ground (
        arith,
        length-append raw tail,
        take-append_left 16 raw tail size,
        drop-append_left 16 raw tail size,
      ),
      ground (arith, drop-drop 2 16 (raw ++ tail), drop-append_left 16 raw tail size),
    )

-- Whatever the packet: an accepted packet keeps the transport address, its payload starts within the
-- packet, and its client is the transport itself or, on a trusted transport with a header only, a
-- valid address that is not unspecified.
pub resolve_udp_identity_sound :
    (packet : List ℕ) (transport : AddrPort) (trusted : Bool) (i : ClientIdentity) (n : ℕ)
    → resolve_udp_identity packet transport trusted ≡ ok (i, n)
    → (i.transport_addr ≡ transport)
      × (n ≤ length packet)
      × (((i.real_addr ≡ transport) × (n ≡ 0))
          ⊎ ((trusted ≡ true)
              × (looks_like_passx_header packet ≡ true)
              × (is_valid i.real_addr ≡ true)
              × (is_unspecified i.real_addr.addr ≡ false)))
unfolding resolve_udp_identity resolve_v4 resolve_v6 validate_resolved_udp_identity
resolve_udp_identity_sound packet transport trusted i n h = ground arith
