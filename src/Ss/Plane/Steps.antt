-- ===== src/Ss/Plane/Steps.antt =====
-- The handlers of internal/ss/service.go in any order of their steps.
use small_x.Base.{ℤ, ℕ, Text, List, [], ◌∷◌, Option, int_keys}
use small_x.Ss.Netip.{NetText, NetAddr}
use small_x.Ss.Resolver.{ClientIdentity}
use small_x.Ss.SocksAddr.{IpText}
use small_x.Ss.Rules.{RegexLib}
use small_x.Ss.Cipher.{CryptoLib}
use small_x.Ss.Limits.{new_session_limiter}
use small_x.Ss.Limits.Speed.{RateLib, sync_users}
use small_x.Ss.Online.{OnlineTracker}
use small_x.Ss.Types.{UserConfig}
use small_x.Ss.Service.{ServiceState}
use small_x.Ss.Plane.{
  Plane, tcp_start, tcp_end, count_up, count_down, udp_start, udp_leave, udp_end,
  close_udp_sessions,
}

module _ (crypto : CryptoLib) (regex : RegexLib) (net : NetText) (ips : IpText)
    (rates : RateLib) where
  pub data Event : Type 0 where
    tcp_starts : ServiceState crypto regex net rates → NetAddr → Text → ℕ → Event
    tcp_ends : ℕ → Event
    counts_up counts_down : ℤ → ℕ → Event
    udp_starts : ServiceState crypto regex net rates → ClientIdentity → Text → Option ℕ → ℕ → Event
    udp_leaves udp_ends : ℕ → Event
    udp_closes : Event
    syncs : List UserConfig → Event

  unfoldable pub step : Event → Plane crypto regex net ips rates → Plane crypto regex net ips rates
  step (tcp_starts state remote src now) p =
      (tcp_start crypto regex net ips rates state remote src now p).0
  step (tcp_ends n) p = tcp_end crypto regex net ips rates n p
  step (counts_up id n) p = count_up crypto regex net ips rates id n p
  step (counts_down id n) p = count_down crypto regex net ips rates id n p
  step (udp_starts state identity packet socket now) p =
      (udp_start crypto regex net ips rates state identity packet socket now p).0
  step (udp_leaves n) p = udp_leave crypto regex net ips rates n p
  step (udp_ends n) p = udp_end crypto regex net ips rates n p
  step udp_closes p = close_udp_sessions crypto regex net ips rates p
  step (syncs users) p = record p { limits = sync_users rates users p.limits }

  -- Any interleaving of handlers.
  unfoldable pub run :
      List Event → Plane crypto regex net ips rates → Plane crypto regex net ips rates
  run [] p = p
  run (e ∷ es) p = run es (step e p)

  unfoldable pub new_plane : OnlineTracker → Plane crypto regex net ips rates
  new_plane online = record {
    limits = new_session_limiter;
    traffic = [];
    online = online;
    tcp = [];
    udp_sessions = [];
    served = [];
    leaving = [];
  }
