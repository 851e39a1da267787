-- ===== src/Ss/Resolver/Client.antt =====
-- The address of a client as text: `resolveTCPIdentity` and `RealIP` of internal/ss/resolver.go.
use small_x.Base.{
  ℤ, pos, negsuc, ℕ, ◌≤◌, ◌≡◌, ◌≢◌, refl, sym, ap, subst, ◌∙◌, Text, List, [], ◌++◌, true, false,
  ◌⊎◌, inl, inr, some, none, Option, Option-cases, length, take, drop, nat_eq, leb, text_eq,
  text_eq_iff, Bool-cases, arith, take-append-drop, if◌then◌else◌,
}
use small_x.Ss.Netip.{
  Addr, v4, v6, mapped_prefix, AddrPort, is_valid, NetAddr, tcp_addr, udp_addr, other_addr, NetText,
  unmap, addr_from_slice,
}
use small_x.Ss.Resolver.{
  real_ip, resolve_tcp_identity, addr_port_from_net_addr, addr_port_from_ip_port, port_in_range,
}

-- The text for the bytes of an IP: an IPv4 address in 4 bytes or in its IPv6 form is the IPv4
-- address, another one of 16 bytes is the IPv6 address, and other lengths have no text.
abbrev pub IsTextOf : NetText → List ℕ → Text → Type 0
IsTextOf net b ip =
    ((length b ≡ 4) × (ip ≡ net.addr_text (v4 b)))
    ⊎ ((c : List ℕ) × (length b ≡ 16) × (b ≡ mapped_prefix ++ c) × (ip ≡ net.addr_text (v4 c)))
    ⊎ ((length b ≡ 16) × (take 12 b ≢ mapped_prefix) × (ip ≡ net.addr_text (v6 b [])))
    ⊎ ((length b ≢ 4) × (length b ≢ 16) × (ip ≡ []))

-- With a port out of range there is no address.
abbrev IsTextAt : NetText → List ℕ → ℤ → Text → Type 0
IsTextAt net b port ip =
    ((n : ℕ) × (port ≡ pos n) × (n ≤ 65535) × IsTextOf net b ip)
    ⊎ (((n : ℕ) → n ≤ 65535 → port ≢ pos n) × (ip ≡ []))

abbrev parsed_text : NetText → Option AddrPort → Text
parsed_text net none = []
parsed_text net (some a) = if is_valid a then net.addr_text a.addr else []

-- The text of the address of a peer.
abbrev pub IsFrom : NetText → NetAddr → Text → Type 0
IsFrom net (tcp_addr b port) ip = IsTextAt net b port ip
IsFrom net (udp_addr b port) ip = IsTextAt net b port ip
IsFrom net (other_addr text) ip = ip ≡ parsed_text net (net.parse_addr_port text)

real_ip-parsed :
    (net : NetText) (remote : NetAddr)
    → real_ip net (resolve_tcp_identity net remote)
      ≡ parsed_text net (addr_port_from_net_addr net remote)
unfolding real_ip resolve_tcp_identity
real_ip-parsed net remote = elim (Option-cases (addr_port_from_net_addr net remote)) [
  | inl o ↦ rw (resolve_tcp_identity, o) refl
  | inr (a, o) ↦ elim (Bool-cases (is_valid a)) [
    | inl fine ↦ rw (resolve_tcp_identity, o, fine) refl
    | inr not_one ↦ rw (resolve_tcp_identity, o, not_one) refl
  ]
]

-- An address and a port in range give the text of the address, unmapped.
from_both :
    (b : List ℕ) (port : ℤ) (a : Addr) (n : ℕ)
    → addr_from_slice b ≡ some a
    → port_in_range port ≡ some n
    → addr_port_from_ip_port b port ≡ some (record { addr = unmap a; port = n })
unfolding addr_port_from_ip_port
from_both b port a n s h = rw (addr_port_from_ip_port, s, h) refl

from_no_slice :
    (b : List ℕ) (port : ℤ) → addr_from_slice b ≡ none → addr_port_from_ip_port b port ≡ none
unfolding addr_port_from_ip_port
from_no_slice b port s = rw (addr_port_from_ip_port, s) refl

from_no_port :
    (b : List ℕ) (port : ℤ) → port_in_range port ≡ none → addr_port_from_ip_port b port ≡ none
unfolding addr_port_from_ip_port
from_no_port b port h = elim (Option-cases (addr_from_slice b)) [
  | inl s ↦ from_no_slice b port s
  | inr (a, s) ↦ rw (addr_port_from_ip_port, s, h) refl
]

in_range : (n : ℕ) → leb n 65535 ≡ true → port_in_range (pos n) ≡ some n
unfolding port_in_range
in_range n h = rw h refl

slice_4 : (b : List ℕ) → nat_eq (length b) 4 ≡ true → addr_from_slice b ≡ some (v4 b)
unfolding addr_from_slice
slice_4 b h = rw h refl

slice_16 :
    (b : List ℕ)
    → nat_eq (length b) 4 ≡ false
    → nat_eq (length b) 16 ≡ true
    → addr_from_slice b ≡ some (v6 b [])
unfolding addr_from_slice
slice_16 b g h = rw (g, h) refl

slice_none :
    (b : List ℕ)
    → nat_eq (length b) 4 ≡ false
    → nat_eq (length b) 16 ≡ false
    → addr_from_slice b ≡ none
unfolding addr_from_slice
slice_none b g h = rw (g, h) refl

unmap_mapped :
    (b : List ℕ) → text_eq (take 12 b) mapped_prefix ≡ true → unmap (v6 b []) ≡ v4 (drop 12 b)
unfolding unmap
unmap_mapped b h = rw h refl

unmap_plain : (b : List ℕ) → text_eq (take 12 b) mapped_prefix ≡ false → unmap (v6 b []) ≡ v6 b []
unfolding unmap
unmap_plain b h = rw h refl

addr_port-IsTextOf :
    (net : NetText) (b : List ℕ) (n : ℕ)
    → leb n 65535 ≡ true
    → IsTextOf net b (parsed_text net (addr_port_from_ip_port b (pos n)))
unfolding unmap
addr_port-IsTextOf net b n h = elim (Bool-cases (nat_eq (length b) 4)) [
  | inl four ↦ inl (
    ground (arith, four),
    ap (parsed_text net) (from_both b (pos n) (v4 b) n (slice_4 b four) (in_range n h)),
  )
  | inr other ↦ elim (Bool-cases (nat_eq (length b) 16)) [
    | inl long ↦ elim (Bool-cases (text_eq (take 12 b) mapped_prefix)) [
      | inl mapped ↦ inr (
          inl (
            drop 12 b,
            ground (arith, long),
            sym (take-append-drop 12 b) ∙ ap (λ x. x ++ drop 12 b) ((text_eq_iff _ _).0 mapped),
            ap (parsed_text net)
                  (from_both b (pos n) (v6 b []) n (slice_16 b other long) (in_range n h))
                ∙ rw (unmap_mapped b mapped) refl,
          ))
      | inr plain ↦ inr (
          inr (
            inl (
              ground (arith, long),
              λ same. cc (plain, (text_eq_iff (take 12 b) mapped_prefix).1 same),
              ap (parsed_text net)
                    (from_both b (pos n) (v6 b []) n (slice_16 b other long) (in_range n h))
                  ∙ rw (unmap_plain b plain) refl,
            )))
    ]
    | inr short ↦ inr (
        inr (
          inr (
            ground (arith, other),
            ground (arith, short),
            ap (parsed_text net) (from_no_slice b (pos n) (slice_none b other short)),
          )))
  ]
]

addr_port-IsTextAt :
    (net : NetText) (b : List ℕ) (port : ℤ)
    → IsTextAt net b port (parsed_text net (addr_port_from_ip_port b port))
unfolding port_in_range
addr_port-IsTextAt net b (pos n) = elim (Bool-cases (leb n 65535)) [
  | inl fine ↦ inl (n, refl, ground (arith, fine), addr_port-IsTextOf net b n fine)
  | inr high ↦ inr (
    λ m small same. ground (arith, high, small, same),
    ap (parsed_text net) (from_no_port b (pos n) (rw high refl)),
  )
]
addr_port-IsTextAt net b (negsuc n) =
    inr (λ m small same. cc, ap (parsed_text net) (from_no_port b (negsuc n) refl))

-- The text that the limiter and the tracker get for a connection is the address of its peer.
pub real_ip-IsFrom :
    (net : NetText) (remote : NetAddr)
    → IsFrom net remote (real_ip net (resolve_tcp_identity net remote))
unfolding addr_port_from_net_addr
real_ip-IsFrom net (tcp_addr b port) =
    subst (IsTextAt net b port) (sym (real_ip-parsed net (tcp_addr b port)))
      (addr_port-IsTextAt net b port)
real_ip-IsFrom net (udp_addr b port) =
    subst (IsTextAt net b port) (sym (real_ip-parsed net (udp_addr b port)))
      (addr_port-IsTextAt net b port)
real_ip-IsFrom net (other_addr text) = real_ip-parsed net (other_addr text)
