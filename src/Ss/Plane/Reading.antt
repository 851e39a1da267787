-- ===== src/Ss/Plane/Reading.antt =====
-- internal/ss/service.go: what a connection or a packet asks for, before it has a session, and the
-- packets of the answers.
use small_x.Base.{
  ℕ, Text, ◌++◌, Option, if◌then◌else◌, Result, ok, err, ◌>>=◌, ◌>>◌, length, drop, nat_eq,
  int_keys,
}
use small_x.Ss.Netip.{NetText, NetAddr}
use small_x.Ss.Resolver.{ClientIdentity, real_ip, resolve_tcp_identity}
use small_x.Ss.SocksAddr.{AddrError, IpText, split_addr, addr_from_net}
use small_x.Ss.Rules.{RegexLib, TargetError, validate}
use small_x.Ss.Cipher.{CryptoLib, CipherDef}
use small_x.Ss.Stream
use small_x.Ss.Stream.{UserEntry, Identified, StreamError, identify_tcp_user}
use small_x.Ss.Packet.{PacketError, decrypt_udp_packet, encrypt_udp_packet}
use small_x.Ss.Limits.{LimitError, Lease}
use small_x.Ss.Limits.Speed.{RateLib}
use small_x.Ss.Service.{ServiceState}
use small_x.Ss.Plane.Keys.{UdpKey, udp_keys}

pub data Rejected : Type 0 where
  no_users : Rejected
  handshake_failed : StreamError → Rejected
  bad_packet : PacketError → Rejected
  bad_target : AddrError → Rejected
  target_rejected : TargetError → Rejected
  empty_payload : Rejected
  limited : LimitError → Rejected
  no_socket unresolved_target wait_failed not_sent : Rejected

abbrev pub or_handshake : {A : Type 0} → Result StreamError A → Result Rejected A
or_handshake (ok a) = ok a
or_handshake (err e) = err (handshake_failed e)

abbrev pub or_bad_packet : {A : Type 0} → Result PacketError A → Result Rejected A
or_bad_packet (ok a) = ok a
or_bad_packet (err e) = err (bad_packet e)

abbrev pub or_bad_target : {A : Type 0} → Result AddrError A → Result Rejected A
or_bad_target (ok a) = ok a
or_bad_target (err e) = err (bad_target e)

abbrev pub or_rejected : {A : Type 0} → Result TargetError A → Result Rejected A
or_rejected (ok a) = ok a
or_rejected (err e) = err (target_rejected e)

module _ (crypto : CryptoLib) (regex : RegexLib) (net : NetText) (ips : IpText)
    (rates : RateLib) where
  -- What `handleTCP` has read by the time that it asks the limiter.
  pub record TcpRequest : Type 0 where
    pub user : UserEntry crypto
    pub session : Stream.Session crypto
    pub target : Text
    pub initial : Text
    pub rest : Text
    pub client_ip : Text

  unfoldable pub read_request :
      ServiceState crypto regex net rates → NetAddr → Text → Result Rejected TcpRequest
  read_request state remote src = do
    i ←
        if nat_eq (length state.users) 0
        then err no_users
        else or_handshake (identify_tcp_user crypto src state.cipher state.users)
    (target, header_len) ← or_bad_target (split_addr ips i.payload)
    or_rejected (validate regex state.rules target)
    ok (record {
      user = i.user;
      session = i.session;
      target = target;
      initial = drop header_len i.payload;
      rest = i.src;
      client_ip = real_ip net (resolve_tcp_identity net remote);
    })

  pub record UdpRequest : Type 0 where
    pub user : UserEntry crypto
    pub target : Text
    pub payload : Text

  -- `handleUDP` up to the session.
  unfoldable pub read_packet :
      ServiceState crypto regex net rates → Text → Result Rejected UdpRequest
  read_packet state packet = do
    (user, plaintext) ← or_bad_packet (decrypt_udp_packet crypto state.cipher state.users packet)
    (target, header_len) ← or_bad_target (split_addr ips plaintext)
    or_rejected (validate regex state.rules target)
    (if nat_eq (length (drop header_len plaintext)) 0
        then err empty_payload
        else ok (record { user = user; target = target; payload = drop header_len plaintext }))

  -- `socket` names the session's own packet connection.
  pub record UdpSession : Type 0 where
    pub user : UserEntry crypto
    pub identity : ClientIdentity
    pub socket : ℕ
    pub done : Lease
    pub limit : Option rates.Limiter

  abbrev pub udp_key : UserEntry crypto → ClientIdentity → UdpKey
  udp_key user identity = record {
    user_id = user.config.id;
    transport = identity.transport_addr;
    real = identity.real_addr;
  }

  -- `AddrFromNet` and `encryptUDPPacket`.
  unfoldable pub reply_packet :
      (NetAddr → Text)
      → CipherDef
      → UdpSession
      → NetAddr
      → Text
      → Option Text
      → Result Rejected Text
  reply_packet text c s from bytes entropy = do
    addr ← or_bad_target (addr_from_net ips text from)
    or_bad_packet (encrypt_udp_packet crypto c s.user.master_key entropy (addr ++ bytes))
