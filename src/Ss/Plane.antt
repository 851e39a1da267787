-- ===== src/Ss/Plane.antt =====
-- internal/ss/service.go: the handlers of connections and packets, `handleTCP`, `handleUDP`, the UDP
-- sessions and their goroutines. `Plane` is what they share. The start of a handler is one step: it
-- asks the limiter once and uses the session table once, under `udpMu`, and the rest of it has the same
-- effect before or after what may run in between. Its copies, its end, and the two critical sections of
-- the end of a goroutine are steps that others may run between.
pub mod Keys
pub mod Reading
pub mod Steps
pub mod Leases
pub mod Invariant
pub mod Strays
pub mod Checks
pub mod Forwarding
unfoldable pub use Reading.*
use small_x.Base.{
  ℤ, ℕ, zero, suc, ◌+◌, ◌-◌, Text, List, [], ◌∷◌, ◌++◌, Bool, true, false, not, Option, none, some,
  if◌then◌else◌, Result, ok, err, is_ok, ◌>>=◌, ◌>>◌, length, drop, nat_eq, ltb, int_keys,
}
use small_x.Base.Map.{lookup, insert, delete}
use small_x.Ss.Netip.{NetText, NetAddr, AddrPort}
use small_x.Ss.Resolver.{ClientIdentity, real_ip, resolve_tcp_identity}
use small_x.Ss.SocksAddr.{AddrError, IpText, split_addr, addr_from_net}
use small_x.Ss.Rules.{RegexLib, TargetError, validate}
use small_x.Ss.Cipher.{CryptoLib, CipherDef}
use small_x.Ss.Stream
use small_x.Ss.Stream.{UserEntry, Identified, StreamError, identify_tcp_user}
use small_x.Ss.Packet.{PacketError, decrypt_udp_packet, encrypt_udp_packet}
use small_x.Ss.Limits.{
  SessionLimiter, LimitError, Lease, acquire_tcp, acquire_udp, release, new_session_limiter,
}
use small_x.Ss.Limits.Speed.{RateLib, get_speed_limiter, sync_users}
use small_x.Ss.Traffic.{TrafficStore, add_up, add_down}
use small_x.Ss.Online.{OnlineTracker, mark_seen}
use small_x.Ss.Copy.{Waits, wait_for_limit}
use small_x.Ss.Types.{UserConfig}
use small_x.Ss.Service.{ServiceState}
use Keys.{UdpKey, udp_keys}

-- The nth element of a list, and the list without it.
abbrev pub pick : {A : Type 0} → ℕ → List A → Option A
pick n [] = none
pick zero (x ∷ xs) = some x
pick (suc n) (x ∷ xs) = pick n xs

abbrev pub remove : {A : Type 0} → ℕ → List A → List A
remove n [] = []
remove zero (x ∷ xs) = xs
remove (suc n) (x ∷ xs) = x ∷ remove n xs

module _ (crypto : CryptoLib) (regex : RegexLib) (net : NetText) (ips : IpText)
    (rates : RateLib) where
  -- `tcp` has the closures that the running `handleTCP` calls defer, `served` the goroutines of
  -- `serveUDPSession` with the key of each, `leaving` those that have called `session.done` and have
  -- not deleted their key yet. The newest is first.
  pub record Plane : Type 0 where
    pub limits : SessionLimiter rates.Limiter
    pub traffic : TrafficStore
    pub online : OnlineTracker
    pub tcp : List Lease
    pub udp_sessions : List (UdpKey × UdpSession crypto regex net ips rates)
    pub served : List (UdpKey × UdpSession crypto regex net ips rates)
    pub leaving : List (UdpKey × UdpSession crypto regex net ips rates)

  -- `AcquireTCP`, then `seen`.
  abbrev pub admitted_tcp :
      ℕ
      → TcpRequest crypto regex net ips rates
      → Plane
      → SessionLimiter rates.Limiter × Result LimitError Lease
      → Plane × Result Rejected (TcpRequest crypto regex net ips rates)
  admitted_tcp now q p (l, err e) = (record p { limits = l }, err (limited e))
  admitted_tcp now q p (l, ok lease) = (
    record p {
      limits = l;
      online = mark_seen p.online q.user.config.id q.client_ip now;
      tcp = lease ∷ p.tcp;
    },
    ok q,
  )

  abbrev pub admit_tcp :
      Bool
      → ℕ
      → Plane
      → Result Rejected (TcpRequest crypto regex net ips rates)
      → Plane × Result Rejected (TcpRequest crypto regex net ips rates)
  admit_tcp enforce now p (err e) = (p, err e)
  admit_tcp enforce now p (ok q) =
      admitted_tcp now q p (acquire_tcp p.limits q.user.config q.client_ip enforce)

  -- `handleTCP` up to the dial, at the time `now`.
  unfoldable pub tcp_start :
      ServiceState crypto regex net rates
      → NetAddr
      → Text
      → ℕ
      → Plane
      → Plane × Result Rejected (TcpRequest crypto regex net ips rates)
  tcp_start state remote src now p =
      admit_tcp state.config.server.enforce_device_limit now p
        (read_request crypto regex net ips rates state remote src)

  -- `defer release()` of the nth `handleTCP`, however it returns.
  abbrev pub tcp_ended : ℕ → Plane → Option Lease → Plane
  tcp_ended n p none = p
  tcp_ended n p (some lease) = record p { limits = release p.limits lease; tcp = remove n p.tcp }

  unfoldable pub tcp_end : ℕ → Plane → Plane
  tcp_end n p = tcp_ended n p (pick n p.tcp)

  -- The callbacks of the two copies.
  unfoldable pub count_up : ℤ → ℕ → Plane → Plane
  count_up id n p = record p { traffic = add_up p.traffic id n }

  unfoldable pub count_down : ℤ → ℕ → Plane → Plane
  count_down id n p = record p { traffic = add_down p.traffic id n }

  -- The new session and its goroutine, or the limiter's error, after which the socket is closed.
  abbrev pub opened_udp :
      UserEntry crypto
      → ClientIdentity
      → ℕ
      → Plane
      → SessionLimiter rates.Limiter × Result LimitError Lease
      → Plane × Result Rejected (UdpSession crypto regex net ips rates)
  opened_udp user identity socket p (l, err e) = (record p { limits = l }, err (limited e))
  opened_udp user identity socket p (l, ok lease) =
      let key = udp_key crypto regex net ips rates user identity in
      let s : UdpSession crypto regex net ips rates = record {
        user = user;
        identity = identity;
        socket = socket;
        done = lease;
        limit = get_speed_limiter rates l user.config.id;
      } in
      (
        record p {
          limits = l;
          udp_sessions = insert key s p.udp_sessions;
          served = (key, s) ∷ p.served;
        },
        ok s,
      )

  abbrev pub open_udp :
      Bool
      → UserEntry crypto
      → ClientIdentity
      → Plane
      → Option ℕ
      → Plane × Result Rejected (UdpSession crypto regex net ips rates)
  open_udp enforce user identity p none = (p, err no_socket)
  open_udp enforce user identity p (some socket) =
      opened_udp user identity socket p
        (acquire_udp p.limits user.config (real_ip net identity) enforce)

  abbrev pub known_or :
      Plane × Result Rejected (UdpSession crypto regex net ips rates)
      → Plane
      → Option (UdpSession crypto regex net ips rates)
      → Plane × Result Rejected (UdpSession crypto regex net ips rates)
  known_or created p none = created
  known_or created p (some s) = (p, ok s)

  -- `socket` is what `net.ListenPacket` gives: none where it fails.
  unfoldable pub get_or_create_udp_session :
      Bool
      → UserEntry crypto
      → ClientIdentity
      → Option ℕ
      → Plane
      → Plane × Result Rejected (UdpSession crypto regex net ips rates)
  get_or_create_udp_session enforce user identity socket p =
      known_or (open_udp enforce user identity p socket) p
        (lookup (udp_key crypto regex net ips rates user identity) p.udp_sessions)

  abbrev pub seen_udp :
      ClientIdentity
      → ℕ
      → UdpRequest crypto regex net ips rates
      → Plane × Result Rejected (UdpSession crypto regex net ips rates)
      → Plane
        × Result Rejected
            (UdpRequest crypto regex net ips rates × UdpSession crypto regex net ips rates)
  seen_udp identity now q (p, err e) = (p, err e)
  seen_udp identity now q (p, ok s) = (
    record p { online = mark_seen p.online q.user.config.id (real_ip net identity) now },
    ok (q, s),
  )

  abbrev pub session_for :
      Bool
      → ClientIdentity
      → Option ℕ
      → ℕ
      → Plane
      → Result Rejected (UdpRequest crypto regex net ips rates)
      → Plane
        × Result Rejected
            (UdpRequest crypto regex net ips rates × UdpSession crypto regex net ips rates)
  session_for enforce identity socket now p (err e) = (p, err e)
  session_for enforce identity socket now p (ok q) =
      seen_udp identity now q (get_or_create_udp_session enforce q.user identity socket p)

  -- `handleUDP` up to `seen`.
  unfoldable pub udp_start :
      ServiceState crypto regex net rates
      → ClientIdentity
      → Text
      → Option ℕ
      → ℕ
      → Plane
      → Plane
        × Result Rejected
            (UdpRequest crypto regex net ips rates × UdpSession crypto regex net ips rates)
  udp_start state identity packet socket now p =
      session_for state.config.server.enforce_device_limit identity socket now p
        (read_packet crypto regex net ips rates state packet)

  -- The rest of `handleUDP`: whether the target resolves, and whether the packet is sent.
  unfoldable pub udp_send :
      Waits rates
      → Bool
      → Bool
      → UdpRequest crypto regex net ips rates
      → UdpSession crypto regex net ips rates
      → Plane
      → Plane × Result Rejected (Unit {0})
  udp_send waits resolves sends q s p =
      if not resolves
      then (p, err unresolved_target)
      else if not (wait_for_limit rates waits s.limit (length q.payload))
      then (p, err wait_failed)
      else if not sends
      then (p, err not_sent)
      else (count_up q.user.config.id (length q.payload) p, ok tt)

  -- The deferred function of the nth `serveUDPSession`, first `session.done()`, under the mutex of the
  -- limiter.
  abbrev pub udp_left : ℕ → Plane → Option (UdpKey × UdpSession crypto regex net ips rates) → Plane
  udp_left n p none = p
  udp_left n p (some (key, s)) = record p {
    limits = release p.limits s.done;
    served = remove n p.served;
    leaving = (key, s) ∷ p.leaving;
  }

  unfoldable pub udp_leave : ℕ → Plane → Plane
  udp_leave n p = udp_left n p (pick n p.served)

  -- The rest of it, for the nth that has got so far: under `udpMu` it deletes the key, whatever it
  -- leads to.
  abbrev pub udp_ended : ℕ → Plane → Option (UdpKey × UdpSession crypto regex net ips rates) → Plane
  udp_ended n p none = p
  udp_ended n p (some (key, s)) = record p {
    udp_sessions = delete key p.udp_sessions;
    leaving = remove n p.leaving;
  }

  unfoldable pub udp_end : ℕ → Plane → Plane
  udp_end n p = udp_ended n p (pick n p.leaving)

  -- The sockets are closed too; each goroutine ends by itself when its read fails.
  unfoldable pub close_udp_sessions : Plane → Plane
  close_udp_sessions p = record p { udp_sessions = [] }

  -- The body of the loop of `serveUDPSession` behind a read of `bytes` from `from`: the packet to
  -- the client, and the plane once it is sent.
  unfoldable pub udp_reply :
      Waits rates
      → (NetAddr → Text)
      → CipherDef
      → UdpSession crypto regex net ips rates
      → NetAddr
      → Text
      → Option Text
      → Bool
      → Plane
      → Plane × Option Text
  udp_reply waits text c s from bytes entropy sends p =
      elim (reply_packet crypto regex net ips rates text c s from bytes entropy) [
        | err e ↦ (p, none)
        | ok packet ↦
            if wait_for_limit rates waits s.limit (length bytes)
            then if sends
              then (count_down s.user.config.id (length bytes) p, some packet)
              else (p, none)
            else (p, none)
      ]
