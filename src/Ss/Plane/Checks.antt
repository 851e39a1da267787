-- ===== src/Ss/Plane/Checks.antt =====
-- What a connection or a packet has passed before internal/ss/service.go dials or forwards for it.
use small_x.Base.{
  ℕ, ◌≡◌, refl, sym, ap, ◌∙◌, subst, Text, ◌∷◌, Bool, true, false, if◌then◌else◌, Result, ok, err,
  >>=-eq-ok, nat_eq, length, drop,
}
use small_x.Ss.Netip.{NetText, NetAddr}
use small_x.Ss.SocksAddr.{IpText, AddrError, split_addr}
use small_x.Ss.Rules.{RegexLib, TargetError, validate}
use small_x.Ss.Cipher.{CryptoLib}
use small_x.Ss.Resolver.Client.{IsFrom, real_ip-IsFrom}
use small_x.Ss.Stream.Authentic.{IsAuthentic, identify_tcp_user-IsAuthentic}
use small_x.Ss.Stream.{Identified, StreamError, identify_tcp_user}
use small_x.Ss.Packet.{PacketError}
use small_x.Ss.Limits.{SessionLimiter, LimitError, Lease, acquire_tcp}
use small_x.Ss.Limits.Speed.{RateLib}
use small_x.Ss.Service.{ServiceState}
use small_x.Ss.Plane.{
  Plane, TcpRequest, Rejected, read_request, tcp_start, admit_tcp, admitted_tcp, or_handshake,
  or_bad_packet, or_bad_target, or_rejected, no_users,
}

or_handshake_ok : {A : Type 0} (r : Result StreamError A) (a : A) → or_handshake r ≡ ok a → r ≡ ok a
or_handshake_ok (ok x) a h = cc
or_handshake_ok (err e) a h = cc

or_bad_packet_ok :
    {A : Type 0} (r : Result PacketError A) (a : A) → or_bad_packet r ≡ ok a → r ≡ ok a
or_bad_packet_ok (ok x) a h = cc
or_bad_packet_ok (err e) a h = cc

or_bad_target_ok : {A : Type 0} (r : Result AddrError A) (a : A) → or_bad_target r ≡ ok a → r ≡ ok a
or_bad_target_ok (ok x) a h = cc
or_bad_target_ok (err e) a h = cc

or_rejected_ok : {A : Type 0} (r : Result TargetError A) (a : A) → or_rejected r ≡ ok a → r ≡ ok a
or_rejected_ok (ok x) a h = cc
or_rejected_ok (err e) a h = cc

ok_injective : {E A : Type 0} (a b : A) → (let x : Result E A = ok a in x ≡ ok b) → a ≡ b
ok_injective a b h = cc

else_ok :
    {E A : Type 0} (test : Bool) (e : E) (r : Result E A) (a : A)
    → (if test then err e else r) ≡ ok a
    → r ≡ ok a
else_ok true e r a h = cc
else_ok false e r a h = h

module _ (crypto : CryptoLib) (regex : RegexLib) (net : NetText) (ips : IpText)
    (rates : RateLib) where
  -- What a request to a target has passed: the handshake, the parser of the address, the rules.
  abbrev pub IsChecked :
      ServiceState crypto regex net rates
      → NetAddr
      → Text
      → TcpRequest crypto regex net ips rates
      → Type 0
  IsChecked state remote bytes q =
      (i : Identified crypto) × (header_len : ℕ) × IsAuthentic crypto state.cipher state.users bytes
        i
      × IsFrom net remote q.client_ip
      × (split_addr ips i.payload ≡ ok (q.target, header_len))
      × (validate regex state.rules q.target ≡ ok tt)
      × (q.user ≡ i.user)
      × (q.initial ≡ drop header_len i.payload)
      × (q.rest ≡ i.src)

  read_request-IsChecked :
      (state : ServiceState crypto regex net rates) (remote : NetAddr) (bytes : Text)
      (q : TcpRequest crypto regex net ips rates)
      → read_request crypto regex net ips rates state remote bytes ≡ ok q
      → IsChecked state remote bytes q
  unfolding read_request
  read_request-IsChecked state remote bytes q h =
      let (i, h1, k1) =
        >>=-eq-ok
          (if nat_eq (length state.users) 0
            then err no_users
            else or_handshake (identify_tcp_user crypto bytes state.cipher state.users))
          _ h in
      let (th, h2, k2) = >>=-eq-ok (or_bad_target (split_addr ips i.payload)) _ k1 in
      let (u, h3, k3) = >>=-eq-ok (or_rejected (validate regex state.rules th.0)) _ k2 in
      let e = ok_injective _ q k3 in
      let target : th.0 ≡ q.target = ap (λ x. x.target) e in
      (
        i,
        th.1,
        identify_tcp_user-IsAuthentic crypto bytes state.cipher state.users i
            (or_handshake_ok _ i (else_ok _ no_users _ i h1)),
        subst (IsFrom net remote) (ap (λ x. x.client_ip) e) (real_ip-IsFrom net remote),
        or_bad_target_ok _ th h2 ∙ ap (λ t. ok (t, th.1)) target,
        subst (λ t. validate regex state.rules t ≡ ok tt) target (or_rejected_ok _ tt h3),
        sym (ap (λ x. x.user) e),
        sym (ap (λ x. x.initial) e),
        sym (ap (λ x. x.rest) e),
      )

  admitted_tcp_ok :
      (now : ℕ) (p : Plane crypto regex net ips rates)
      (r : SessionLimiter rates.Limiter × Result LimitError Lease)
      (q q' : TcpRequest crypto regex net ips rates)
      → (admitted_tcp crypto regex net ips rates now q p r).1 ≡ ok q'
      → (q ≡ q')
        × ((h : Lease) × (r.1 ≡ ok h)
            × ((admitted_tcp crypto regex net ips rates now q p r).0.tcp ≡ h ∷ p.tcp))
  admitted_tcp_ok now p (l, err e) q q' h = cc
  admitted_tcp_ok now p (l, ok lease) q q' h = (ok_injective q q' h, (lease, refl, refl))

  admit_tcp-IsChecked :
      (state : ServiceState crypto regex net rates) (remote : NetAddr) (bytes : Text) (now : ℕ)
      (p : Plane crypto regex net ips rates)
      (r : Result Rejected (TcpRequest crypto regex net ips rates))
      → read_request crypto regex net ips rates state remote bytes ≡ r
      → (q : TcpRequest crypto regex net ips rates)
      → (admit_tcp crypto regex net ips rates state.config.server.enforce_device_limit now p r).1
        ≡ ok q
      → IsChecked state remote bytes q
        × ((h : Lease) × ((acquire_tcp p.limits q.user.config q.client_ip
                state.config.server.enforce_device_limit).1
              ≡ ok h)
            × ((admit_tcp crypto regex net ips rates state.config.server.enforce_device_limit now p
                  r).0.tcp
                ≡ h ∷ p.tcp))
  admit_tcp-IsChecked state remote bytes now p (err e) same q h = cc
  admit_tcp-IsChecked state remote bytes now p (ok x) same q h =
      let enforce = state.config.server.enforce_device_limit in
      let (e, (lease, got, held)) =
        admitted_tcp_ok now p (acquire_tcp p.limits x.user.config x.client_ip enforce) x q h in
      (
        read_request-IsChecked state remote bytes q (same ∙ ap ok e),
        (
          lease,
          subst (λ y. (acquire_tcp p.limits y.user.config y.client_ip enforce).1 ≡ ok lease) e got,
          held,
        ),
      )

  -- A request that `handleTCP` goes on to dial for: the first frames of the stream open under the
  -- session key of the request's user, one of the users, with the first two nonces; the payload
  -- starts with the address of the target, the rest of it is what is forwarded first, and the stream
  -- goes on behind the frames; the rules accept the target; and the limiter gave a lease for the user
  -- and the text of the peer's address, which this handler holds.
  pub tcp_start-IsChecked :
      (state : ServiceState crypto regex net rates) (remote : NetAddr) (bytes : Text) (now : ℕ)
      (p : Plane crypto regex net ips rates) (q : TcpRequest crypto regex net ips rates)
      → (tcp_start crypto regex net ips rates state remote bytes now p).1 ≡ ok q
      → IsChecked state remote bytes q
        × ((h : Lease) × ((acquire_tcp p.limits q.user.config q.client_ip
                state.config.server.enforce_device_limit).1
              ≡ ok h)
            × ((tcp_start crypto regex net ips rates state remote bytes now p).0.tcp ≡ h ∷ p.tcp))
  unfolding tcp_start
  tcp_start-IsChecked state remote bytes now p q h =
      admit_tcp-IsChecked state remote bytes now p _ refl q h
