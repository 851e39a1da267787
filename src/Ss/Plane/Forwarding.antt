-- ===== src/Ss/Plane/Forwarding.antt =====
-- A UDP packet from the client's encryption to the counters of internal/ss/service.go.
use small_x.Base.{
  ℤ, int_eq_iff, ℕ, ◌+◌, ◌%◌, ◌≡◌, refl, Text, List, ◌∷◌, ◌++◌, true, false, Option, some, Result,
  ok, err, nat_eq, length, arith, All, drop-append_left, word64,
}
use small_x.Ss.Netip.{NetText}
use small_x.Ss.Resolver.{ClientIdentity}
use small_x.Ss.SocksAddr.{IpText, split_addr}
use small_x.Ss.SocksAddr.Codec.{split_addr-append}
use small_x.Ss.Rules.{RegexLib, validate}
use small_x.Ss.Cipher.{CryptoLib, salt_size}
use small_x.Ss.Stream.{UserEntry}
use small_x.Ss.Packet.{encrypt_udp_packet, Refuses, decrypt_udp_packet-encrypt}
use small_x.Ss.Limits.Speed.{RateLib}
use small_x.Ss.Traffic.{TrafficStore, item_of, add_up}
use small_x.Ss.Traffic.Conservation.{item_of-add_up}
use small_x.Ss.Copy.{Waits, wait_for_limit}
use small_x.Ss.Service.{ServiceState}
use small_x.Ss.Plane.{
  Plane, UdpRequest, UdpSession, Rejected, read_packet, get_or_create_udp_session, seen_udp,
  udp_start, udp_send, count_up,
}

up-add_up :
    (t : TrafficStore) (id : ℤ) (n : ℕ)
    → (item_of (add_up t id n) id).up ≡ ((item_of t id).up + n) % word64
up-add_up t id n = ground (arith, item_of-add_up t id n id, int_eq_iff id id)

module _ (crypto : CryptoLib) (regex : RegexLib) (net : NetText) (ips : IpText)
    (rates : RateLib) where
  read_packet-encrypt :
      (state : ServiceState crypto regex net rates) (before after : List (UserEntry crypto))
      (user : UserEntry crypto) (salt out payload packet target : Text)
      → state.users ≡ before ++ user ∷ after
      → All (Refuses crypto state.cipher packet) before
      → length salt ≡ salt_size state.cipher
      → encrypt_udp_packet crypto state.cipher user.master_key (some salt) (out ++ payload)
        ≡ ok packet
      → split_addr ips out ≡ ok (target, length out)
      → validate regex state.rules target ≡ ok tt
      → nat_eq (length payload) 0 ≡ false
      → read_packet crypto regex net ips rates state packet
        ≡ ok (record { user = user; target = target; payload = payload })
  unfolding read_packet
  read_packet-encrypt state before after user salt out payload packet target users others sized
        sealed split valid some_bytes =
      let opened =
        decrypt_udp_packet-encrypt crypto before after state.cipher user salt (out ++ payload)
          packet sized sealed others in
      let read = split_addr-append ips out payload target (length out) split in
      let rest = drop-append_left (length out) out payload refl in
      rw (users, opened, read, rest, valid, some_bytes) refl

  seen_udp_ok :
      (identity : ClientIdentity) (now : ℕ) (q : UdpRequest crypto regex net ips rates)
      (s : UdpSession crypto regex net ips rates)
      (r : Plane crypto regex net ips rates
        × Result Rejected (UdpSession crypto regex net ips rates))
      → r.1 ≡ ok s
      → (seen_udp crypto regex net ips rates identity now q r).1 ≡ ok (q, s)
  seen_udp_ok identity now q s (p, err e) h = cc
  seen_udp_ok identity now q s (p, ok s') h = cc

  -- A packet that a client encrypts with its key: an address that reads as the target, and a payload
  -- that is not empty. When no user before it in the list decrypts the packet, the rules accept the
  -- target, there is a session for the client, the target resolves, the limiter of the session lets
  -- the payload pass and the socket takes it, then `handleUDP` goes on with exactly the payload for
  -- exactly the target and that user, ends without an error, and counts the payload as upstream bytes
  -- of the user (modulo 2 ^ 64).
  pub handle_udp-encrypt :
      (waits : Waits rates) (state : ServiceState crypto regex net rates)
      (before after : List (UserEntry crypto)) (user : UserEntry crypto)
      (salt out payload packet target : Text) (identity : ClientIdentity) (socket : Option ℕ)
      (now : ℕ) (p : Plane crypto regex net ips rates) (s : UdpSession crypto regex net ips rates)
      → state.users ≡ before ++ user ∷ after
      → All (Refuses crypto state.cipher packet) before
      → length salt ≡ salt_size state.cipher
      → encrypt_udp_packet crypto state.cipher user.master_key (some salt) (out ++ payload)
        ≡ ok packet
      → split_addr ips out ≡ ok (target, length out)
      → validate regex state.rules target ≡ ok tt
      → nat_eq (length payload) 0 ≡ false
      → (get_or_create_udp_session crypto regex net ips rates
          state.config.server.enforce_device_limit user identity socket p).1
        ≡ ok s
      → wait_for_limit rates waits s.limit (length payload) ≡ true
      → let q : UdpRequest crypto regex net ips rates = record {
        user = user;
        target = target;
        payload = payload;
      } in
        let started = udp_start crypto regex net ips rates state identity packet socket now p in
        let sent = udp_send crypto regex net ips rates waits true true q s started.0 in
        (started.1 ≡ ok (q, s))
        × (sent.1 ≡ ok tt)
        × ((item_of sent.0.traffic user.config.id).up
            ≡ ((item_of started.0.traffic user.config.id).up + length payload) % word64)
  unfolding udp_start udp_send count_up
  handle_udp-encrypt waits state before after user salt out payload packet target identity socket
        now p s users others sized sealed split valid some_bytes opened passes =
      let q : UdpRequest crypto regex net ips rates = record {
        user = user;
        target = target;
        payload = payload;
      } in
      let request =
        read_packet-encrypt state before after user salt out payload packet target users others
          sized sealed split valid some_bytes in
      let created =
        get_or_create_udp_session crypto regex net ips rates
          state.config.server.enforce_device_limit user identity socket p in
      let started = udp_start crypto regex net ips rates state identity packet socket now p in
      (
        rw request (seen_udp_ok identity now q s created opened),
        rw passes refl,
        rw passes (up-add_up started.0.traffic user.config.id (length payload)),
      )
