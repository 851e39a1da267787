-- ===== src/Ss/Plane/Keys.antt =====
-- `udpSessionKey` of internal/ss/service.go with Go's `==`.
use small_x.Base.{
  ℤ, ◌≡◌, ◌↔◌, refl, Bool, true, false, ◌&&◌, &&-true, text_eq, text_eq_iff, nat_eq, nat_eq_iff,
  int_eq, int_eq_iff, Eq, arith,
}
use small_x.Ss.Netip.{Addr, no_addr, v4, v6, AddrPort}

pub record UdpKey : Type 0 where
  pub user_id : ℤ
  pub transport : AddrPort
  pub real : AddrPort

abbrev pub addr_eq : Addr → Addr → Bool
addr_eq no_addr no_addr = true
addr_eq (v4 b) (v4 c) = text_eq b c
addr_eq (v6 b z) (v6 c y) = text_eq b c && text_eq z y
addr_eq _ _ = false

abbrev pub addr_port_eq : AddrPort → AddrPort → Bool
addr_port_eq a b = addr_eq a.addr b.addr && nat_eq a.port b.port

abbrev pub udp_key_eq : UdpKey → UdpKey → Bool
udp_key_eq a b =
    int_eq a.user_id b.user_id
    && (addr_port_eq a.transport b.transport && addr_port_eq a.real b.real)

addr_eq_iff : (a b : Addr) → (addr_eq a b ≡ true) ↔ (a ≡ b)
addr_eq_iff no_addr no_addr = (λ h. refl, λ e. refl)
addr_eq_iff no_addr (v4 c) = (λ h. cc, λ e. cc)
addr_eq_iff no_addr (v6 c y) = (λ h. cc, λ e. cc)
addr_eq_iff (v4 b) no_addr = (λ h. cc, λ e. cc)
addr_eq_iff (v4 b) (v4 c) = ground (arith, text_eq_iff b c)
addr_eq_iff (v4 b) (v6 c y) = (λ h. cc, λ e. cc)
addr_eq_iff (v6 b z) no_addr = (λ h. cc, λ e. cc)
addr_eq_iff (v6 b z) (v4 c) = (λ h. cc, λ e. cc)
addr_eq_iff (v6 b z) (v6 c y) = ground (arith, text_eq_iff b c, text_eq_iff z y)

addr_port_eq_iff : (a b : AddrPort) → (addr_port_eq a b ≡ true) ↔ (a ≡ b)
addr_port_eq_iff a b = (
  λ h.
      let (p, q) = &&-true (addr_eq a.addr b.addr) (nat_eq a.port b.port) h in
      cc ((addr_eq_iff a.addr b.addr).0 p, (nat_eq_iff a.port b.port).0 q),
  λ e. rw e (rw ((addr_eq_iff b.addr b.addr).1 refl, (nat_eq_iff b.port b.port).1 refl) refl),
)

pub udp_key_eq_iff : (a b : UdpKey) → (udp_key_eq a b ≡ true) ↔ (a ≡ b)
udp_key_eq_iff a b = (
  λ h.
      let (p, qr) = &&-true (int_eq a.user_id b.user_id) _ h in
      let (q, r) = &&-true (addr_port_eq a.transport b.transport) _ qr in
      cc (
        (int_eq_iff a.user_id b.user_id).0 p,
        (addr_port_eq_iff a.transport b.transport).0 q,
        (addr_port_eq_iff a.real b.real).0 r,
      ),
  λ e. rw e (
      rw
        (
          (int_eq_iff b.user_id b.user_id).1 refl,
          (addr_port_eq_iff b.transport b.transport).1 refl,
          (addr_port_eq_iff b.real b.real).1 refl,
        )
        refl),
)

instance abbrev pub udp_keys : Eq UdpKey
udp_keys = record { same_key = udp_key_eq; same_key_iff = udp_key_eq_iff }
