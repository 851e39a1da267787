-- ===== src/Ss/SocksAddr/Codec.antt =====
-- `SplitAddr` against `EncodeAddr`, and what `SplitAddr` reads.
use small_x.Base.{
  ap, Bool-cases, length-drop, ℤ, pos, negsuc, ℕ, zero, suc, ◌+◌, ◌*◌, ◌/◌, ◌%◌, ◌≤◌, ◌<◌, ◌≡◌,
  refl, ◌∙◌, Text, List, [], ◌∷◌, ◌++◌, Option, none, some, ltb, length, drop, get_or, ok, arith,
  >>=-eq-ok, length-append, take-append_le, drop-append_le, take-append_left, drop-append_left, inl,
  inr, Option-cases,
}
use small_x.Base.Strings.{trim_space}
use small_x.Ss.HostPort.{itoa, atoi, join_host_port, split_host_port}
use small_x.Ss.SocksAddr.{
  AddrError, IpText, to4, to16, uint16_at, port_bytes, split_ip, split_domain, split_addr,
  encode_domain, encode_ip, encode_host, check_port, encode_addr, or_error, bad_host_port,
  bad_port_text, short_ipv4, short_ipv6, atyp_ipv4, atyp_ipv6, atyp_domain,
}

get_or-append : (xs ys : List ℕ) (i d : ℕ) → i < length xs → get_or (xs ++ ys) i d ≡ get_or xs i d
get_or-append [] ys i d h = absurd (omega arith)
get_or-append (x ∷ xs) ys zero d h = refl
get_or-append (x ∷ xs) ys (suc i) d h = get_or-append xs ys i d (omega arith)

check_port-ok : (z : ℤ) (port : ℕ) → check_port z ≡ ok port → (z ≡ pos port) × (port < 65536)
unfolding check_port
check_port-ok (pos n) port e = ground arith
check_port-ok (negsuc n) port e = ground arith

or_error-ok {ℓ} :
    {A : Type ℓ} (e : AddrError) (o : Option A) {a : A} → or_error e o ≡ ok a → o ≡ some a
or_error-ok e none h = cc
or_error-ok e (some b) h = cc

length-to4 : (ip b4 : List ℕ) → length ip ≡ 16 → to4 ip ≡ some b4 → length b4 ≡ 4
unfolding to4
length-to4 ip b4 e h = ground (arith, length-drop 12 ip)

-- The two bytes of the port at the end of a header.
uint16_at-append :
    (n : ℕ) (xs ys : List ℕ)
    → n + 2 ≤ length xs
    → uint16_at (drop n (xs ++ ys)) ≡ uint16_at (drop n xs)
uint16_at-append n xs ys h = rw (drop-append_le n xs ys (omega arith)) (
    ground
      (arith, length-drop n xs, get_or-append (drop n xs) ys 0 0, get_or-append (drop n xs) ys 1 0))

module _ (lib : IpText) where
  open lib use {ip_text, parse_ip, length-parse_ip}

  -- An accepted address has 4 bytes at least and lies within the packet.
  pub split_addr-le :
      (payload : List ℕ) (target : Text) (n : ℕ)
      → split_addr lib payload ≡ ok (target, n)
      → (4 ≤ n) × (n ≤ length payload)
  unfolding split_addr split_ip split_domain
  split_addr-le payload target n h = ground arith

  split_ip-append :
      (size : ℕ) (short : AddrError) (payload rest : List ℕ) (r : Text × ℕ)
      → split_ip lib size short payload ≡ ok r
      → split_ip lib size short (payload ++ rest) ≡ ok r
  unfolding split_ip
  split_ip-append size short payload rest r h =
      elim (Bool-cases (ltb (length payload) (1 + size + 2))) [
        | inl small ↦ absurd (ground arith)
        | inr room ↦ rw (drop-append_le 1 payload rest (ground arith)) (
            ground (
              arith,
              length-append payload rest,
              length-drop 1 payload,
              take-append_le size (drop 1 payload) rest,
              uint16_at-append (1 + size) payload rest,
            ))
      ]

  split_domain-append :
      (payload rest : List ℕ) (r : Text × ℕ)
      → split_domain lib payload ≡ ok r
      → split_domain lib (payload ++ rest) ≡ ok r
  unfolding split_domain
  split_domain-append payload rest r h =
      let size = get_or payload 1 0 in
      elim (Bool-cases (ltb (length payload) 2)) [
        | inl small ↦ absurd (ground arith)
        | inr two ↦ elim (Bool-cases (ltb (length payload) (2 + size + 2))) [
          | inl small ↦ absurd (ground arith)
          | inr room ↦
              rw
                (
                  get_or-append payload rest 1 0 (ground arith),
                  drop-append_le 2 payload rest (ground arith),
                )
                (ground (
                  arith,
                  length-append payload rest,
                  length-drop 2 payload,
                  take-append_le size (drop 2 payload) rest,
                  uint16_at-append (2 + size) payload rest,
                ))
        ]
      ]

  -- More bytes behind an accepted address change neither the target nor the length of the header.
  pub split_addr-append :
      (payload rest : List ℕ) (target : Text) (n : ℕ)
      → split_addr lib payload ≡ ok (target, n)
      → split_addr lib (payload ++ rest) ≡ ok (target, n)
  unfolding split_addr
  split_addr-append payload rest target n h = ground (
    arith,
    length-append payload rest,
    get_or-append payload rest 0 0,
    split_ip-append 4 short_ipv4 payload rest (target, n),
    split_ip-append 16 short_ipv6 payload rest (target, n),
    split_domain-append payload rest (target, n),
  )

  -- The specification: the host that an encoded target is read back as.
  abbrev pub read_back : Text → Text
  read_back host = elim (parse_ip host) [
    | none ↦ trim_space host
    | some ip ↦ elim (to4 ip) [ some b4 ↦ ip_text b4 | none ↦ ip_text ip ]
  ]

  split_ip-header :
      (size : ℕ) (short : AddrError) (c : ℕ) (b : List ℕ) (port : ℕ)
      → length b ≡ size
      → port < 65536
      → split_ip lib size short (c ∷ (b ++ port_bytes port))
        ≡ ok (join_host_port (ip_text b) (itoa port), 1 + size + 2)
  unfolding split_ip
  split_ip-header size short c b port e h =
      let tail = port_bytes port in
      let back : port / 256 % 256 * 256 + port % 256 ≡ port = omega arith in
      rw (drop-append_left (1 + size) (c ∷ b) tail (omega arith))
        (ground (arith, length-append b tail, take-append_left size b tail e, ap itoa back))

  split_domain-header :
      (c : ℕ) (host : Text) (port : ℕ)
      → length host ≤ 255
      → port < 65536
      → split_domain lib (c ∷ (length host % 256) ∷ (host ++ port_bytes port))
        ≡ ok (join_host_port host (itoa port), 2 + length host + 2)
  unfolding split_domain
  split_domain-header c host port e h =
      let n = length host in
      let tail = port_bytes port in
      let back : port / 256 % 256 * 256 + port % 256 ≡ port = omega arith in
      let byte : n % 256 ≡ n = omega arith in
      rw (byte, drop-append_left (2 + n) (c ∷ n ∷ host) tail (omega arith))
        (ground (arith, length-append host tail, take-append_left n host tail refl, ap itoa back))

  encode_domain-split :
      (host : Text) (port : ℕ) (out : List ℕ)
      → port < 65536
      → encode_domain host port ≡ ok out
      → split_addr lib out ≡ ok (join_host_port (trim_space host) (itoa port), length out)
  unfolding encode_domain split_addr
  encode_domain-split host port out h e =
      let host' = trim_space host in
      ground
        (arith, split_domain-header atyp_domain host' port, length-append host' (port_bytes port))

  encode_ip-split :
      (ip : List ℕ) (host : Text) (port : ℕ) (out : List ℕ)
      → length ip ≡ 16
      → port < 65536
      → encode_ip (to4 ip) (to16 ip) host port ≡ ok out
      → split_addr lib out
        ≡ ok (
          join_host_port (elim (to4 ip) [ some b4 ↦ ip_text b4 | none ↦ ip_text ip ]) (itoa port),
          length out,
        )
  unfolding encode_ip split_addr to16
  encode_ip-split ip host port out size h e = elim (Option-cases (to4 ip)) [
    | inr (b4, v4) ↦ ground (
      arith,
      v4,
      length-to4 ip b4 size v4,
      split_ip-header 4 short_ipv4 atyp_ipv4 b4 port,
      length-append b4 (port_bytes port),
    )
    | inl v6 ↦ ground (
      arith,
      v6,
      split_ip-header 16 short_ipv6 atyp_ipv6 ip port,
      length-append ip (port_bytes port),
    )
  ]

  encode_host-split :
      (host : Text) (port : ℕ) (out : List ℕ)
      → port < 65536
      → encode_host lib host port ≡ ok out
      → split_addr lib out ≡ ok (join_host_port (read_back host) (itoa port), length out)
  unfolding encode_host
  encode_host-split host port out h e = elim (Option-cases (parse_ip host)) [
    | inl name ↦ ground (arith, name, encode_domain-split host port out h)
    | inr (ip, parsed) ↦
        ground (arith, parsed, encode_ip-split ip host port out (length-parse_ip host ip parsed) h)
  ]

  -- Whatever target is encoded: it has a host and a port number from 0 to 65535, and the encoded form
  -- with any payload behind it is read back as the same host and port (an IP address in its standard
  -- text, a name without surrounding spaces), with a header of exactly the encoded bytes.
  pub split_addr-encode_addr :
      (target : Text) (out rest : List ℕ)
      → encode_addr lib target ≡ ok out
      → (host : Text) × (port_text : Text) × (port : ℕ) × (split_host_port target
          ≡ some (host, port_text))
        × (atoi port_text ≡ some (pos port))
        × (port < 65536)
        × (split_addr lib (out ++ rest)
            ≡ ok (join_host_port (read_back host) (itoa port), length out))
  unfolding encode_addr
  split_addr-encode_addr target out rest e =
      let ((host, port_text), split, e1) =
        >>=-eq-ok (or_error bad_host_port (split_host_port target)) _ e in
      let (value, number, e2) = >>=-eq-ok (or_error bad_port_text (atoi port_text)) _ e1 in
      let (port, checked, e3) = >>=-eq-ok (check_port value) _ e2 in
      let (is_pos, small) = check_port-ok value port checked in
      (
        host,
        port_text,
        port,
        or_error-ok _ _ split,
        or_error-ok _ _ number ∙ ap some is_pos,
        small,
        split_addr-append out rest _ _ (encode_host-split host port out small e3),
      )
