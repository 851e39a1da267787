-- ===== src/Tests/Handlers.antt =====
-- The handlers of connections and packets, and the copies, at concrete inputs.
use small_x.Base.{
  ℤ, take_all, pos, ℕ, ◌+◌, ◌%◌, ◌≡◌, ◌≤◌, refl, sym, ap, Text, List, [], ◌∷◌, ◌++◌, true, false,
  some, none, Result, ok, is_ok, inl, length, take, leb, arith, word64, int_keys, text_keys,
}
use small_x.Base.Strings.{codes, trim_space, to_lower, contains_byte, has_prefix_byte}
use small_x.Base.Map.{lookup, insert, delete}
use small_x.Ss.HostPort.{
  join_host_port, itoa, itoa_onto, split_host_port, split_at_colon, split_checked, last_index_byte,
  index_byte,
}
use small_x.Ss.Netip.{NetAddr, tcp_addr, v4, unmap, addr_from_slice}
use small_x.Ss.Resolver.{
  ClientIdentity, no_access, real_ip, resolve_tcp_identity, addr_port_from_net_addr,
  addr_port_from_ip_port, port_in_range,
}
use small_x.Ss.SocksAddr.{split_addr, split_ip, split_domain}
use small_x.Ss.Rules.{validate, target_candidates, matches_any, first_block}
use small_x.Ss.Cipher.{
  lookup_cipher, derive_master_key, key_loop, derive_session_aead, new_aead, salt_size, overhead,
}
use small_x.Ss.Stream.{
  fresh, advance, increment_nonce, seal_frame, size_bytes, read_full, frame_size, identify_tcp_user,
  find_user, try_user, first_payload,
}
use small_x.Ss.Stream.Frames.{frames}
use small_x.Ss.Packet.{
  decrypt_udp_packet, decrypt_udp_packet_for_user, encrypt_udp_packet, not_authentic,
}
use small_x.Ss.Limits.{
  Lease, release, uncount_tcp, uncount_ip, acquire, acquire_tcp, acquire_udp, admit, ensure_refs,
  add_ref, count_tcp, tcp_full, device_full, tcp_count, ip_count, refs_of, new_session_limiter,
}
use small_x.Ss.Limits.Speed.{get_speed_limiter, sync_users}
use small_x.Ss.Traffic.{TrafficStore, add_up, item_of}
use small_x.Ss.Traffic.Conservation.{item_of-add_up}
use small_x.Ss.Online.{OnlineTracker, mark_seen, ensure_user}
use small_x.Ss.Copy.{Writer, Waits, wait_for_limit, Reads, next, last, copy_count, forward}
use small_x.Ss.Copy.Relay.{copy_count_lem}
use small_x.Ss.Copy.Upstream.{forward_lem}
use small_x.Ss.Service.{ServiceState}
use small_x.Ss.Plane.{
  Rejected, Plane, UdpSession, TcpRequest, UdpRequest, udp_send, tcp_start, read_request, udp_start,
  read_packet, get_or_create_udp_session, close_udp_sessions, udp_leave, udp_end, udp_key,
}
use small_x.Ss.Plane.Steps.{
  Event, tcp_starts, udp_starts, udp_closes, udp_leaves, step, run, new_plane,
}
use small_x.Ss.Plane.Keys.{UdpKey, udp_keys}
use small_x.Ss.Plane.Invariant.{IsSound, run-IsSound}
use small_x.Ss.Plane.Leases.{held_on}
use small_x.Ss.Plane.Strays.{udp_end_other}
use small_x.Ss.Plane.Forwarding.{handle_udp-encrypt}
use small_x.Ss.Plane.Checks.{IsChecked, tcp_start-IsChecked}
use small_x.Tests.Streams.{tags, aes_128, salt, key_of, entry, tag_seal}
use small_x.Tests.Rules.{suffixes, blocking, compiled}
use small_x.Tests.Addresses.{test_net, names_only, target_bytes}
use small_x.Tests.Limits.{plain_rate, alice}

program : Unit {0}
unfolding trim_space to_lower contains_byte lookup insert delete join_host_port itoa itoa_onto
    split_host_port split_at_colon split_checked last_index_byte index_byte unmap addr_from_slice
    real_ip resolve_tcp_identity addr_port_from_net_addr addr_port_from_ip_port port_in_range
    split_addr split_ip split_domain validate target_candidates matches_any first_block
    lookup_cipher derive_master_key key_loop derive_session_aead new_aead salt_size overhead
    increment_nonce seal_frame size_bytes read_full frame_size identify_tcp_user find_user try_user
    first_payload decrypt_udp_packet decrypt_udp_packet_for_user acquire acquire_tcp acquire_udp
    admit ensure_refs add_ref count_tcp tcp_full device_full tcp_count ip_count refs_of
    new_session_limiter get_speed_limiter mark_seen ensure_user step run new_plane tcp_start
    read_request udp_start read_packet get_or_create_udp_session close_udp_sessions udp_leave
    udp_end release uncount_tcp uncount_ip has_prefix_byte
program = tt

abbrev state : ServiceState tags suffixes test_net plain_rate
state = record {
  config = blocking;
  cipher = aes_128;
  users = entry 1 ∷ entry 2 ∷ [];
  rules = compiled;
  passx = no_access;
}

abbrev nobody : OnlineTracker
nobody = record { ttl = 300_000_000_000; entries = [] }

abbrev empty : Plane tags suffixes test_net names_only plain_rate
empty = new_plane tags suffixes test_net names_only plain_rate nobody

abbrev remote : NetAddr
remote = tcp_addr (203 ∷ 0 ∷ 113 ∷ 9 ∷ []) (pos 51820)

abbrev stream : Text
stream = salt ++ frames tags (fresh tags (key_of 2)) ((target_bytes ++ codes "GET") ∷ [])

abbrev request : TcpRequest tags suffixes test_net names_only plain_rate
request = record {
  user = entry 2;
  session = advance tags (advance tags (fresh tags (key_of 2)));
  target = codes "a.com:443";
  initial = codes "GET";
  rest = [];
  client_ip = real_ip test_net (resolve_tcp_identity test_net remote);
}

tcp_start-IsChecked_example :
    IsChecked tags suffixes test_net names_only plain_rate state remote stream request
    × ((h : Lease) × ((acquire_tcp empty.limits (entry 2).config request.client_ip true).1 ≡ ok h)
        × ((tcp_start tags suffixes test_net names_only plain_rate state remote stream 0
              empty).0.tcp
            ≡ h ∷ []))
unfolding program
tcp_start-IsChecked_example =
    tcp_start-IsChecked tags suffixes test_net names_only plain_rate state remote stream 0 empty
      request refl

abbrev identity : ClientIdentity
identity = record {
  transport_addr = record { addr = v4 (203 ∷ 0 ∷ 113 ∷ 9 ∷ []); port = 4000 };
  real_addr = record { addr = v4 (203 ∷ 0 ∷ 113 ∷ 9 ∷ []); port = 4000 };
}

abbrev packet : Text
packet = salt ++ tag_seal (key_of 2) (target_bytes ++ codes "query")

abbrev session : ℕ → UdpSession tags suffixes test_net names_only plain_rate
session socket = record {
  user = entry 2;
  identity = identity;
  socket = socket;
  done = record { user_id = pos 2; ip = real_ip test_net identity; tcp = false };
  limit = none;
}

within_burst : (l : ℕ × ℕ) (n : ℕ) → n ≤ l.1 → leb n l.1 ≡ true
within_burst l n h = ground (arith, h)

abbrev waits : Waits plain_rate
waits = record { wait_n = λ l n. leb n l.1; wait_n_fine = within_burst }

handle_udp-encrypt_example :
    let started =
      udp_start tags suffixes test_net names_only plain_rate state identity packet
        (some 4)
        1
        empty in
    let q : UdpRequest tags suffixes test_net names_only plain_rate = record {
      user = entry 2;
      target = codes "a.com:443";
      payload = codes "query";
    } in
    let sent =
      udp_send tags suffixes test_net names_only plain_rate waits true true q
        (session 4)
        started.0 in
    (started.1 ≡ ok (q, session 4))
    × (sent.1 ≡ ok tt)
    × ((item_of sent.0.traffic (pos 2)).up ≡ ((item_of started.0.traffic (pos 2)).up + 5) % word64)
unfolding program encrypt_udp_packet wait_for_limit
handle_udp-encrypt_example =
    handle_udp-encrypt tags suffixes test_net names_only plain_rate waits state (entry 1 ∷ []) []
      (entry 2) salt target_bytes (codes "query") packet (codes "a.com:443") identity (some 4) 1
      empty (session 4) refl ((not_authentic, refl), tt) refl refl refl refl refl refl refl

-- A session, the sessions closed, the client's next packet, and the first step of the end of the
-- first session.
abbrev events : List (Event tags suffixes test_net names_only plain_rate)
events =
    tcp_starts state remote stream 0
    ∷ udp_starts state identity packet (some 4) 1
    ∷ udp_closes
    ∷ udp_starts state identity packet (some 5) 2
    ∷ udp_leaves 1
    ∷ []

abbrev plane : Plane tags suffixes test_net names_only plain_rate
plane = run tags suffixes test_net names_only plain_rate events empty

run-IsSound_example : IsSound tags suffixes test_net names_only plain_rate plane
run-IsSound_example = run-IsSound tags suffixes test_net names_only plain_rate events nobody

abbrev key : UdpKey
key = udp_key tags suffixes test_net names_only plain_rate (entry 2) identity

abbrev attempt :
    Plane tags suffixes test_net names_only plain_rate
    × Result Rejected (UdpSession tags suffixes test_net names_only plain_rate)
attempt =
    get_or_create_udp_session tags suffixes test_net names_only plain_rate true (entry 2) identity
      (some 6) (udp_end tags suffixes test_net names_only plain_rate 0 plane)

abbrev later : Plane tags suffixes test_net names_only plain_rate
later = attempt.0

udp_end_other_example :
    (get_or_create_udp_session tags suffixes test_net names_only plain_rate true
        (entry 2)
        identity
        (some 6)
        plane
      ≡ (plane, ok (session 5)))
    × (later.served ≡ (key, session 6) ∷ plane.served)
    × (lookup key later.udp_sessions ≡ some (session 6))
    × ((id : ℤ) (ip : Text)
        → held_on id ip ((session 5).done ∷ (session 6).done ∷ []) ≤ ip_count later.limits id ip)
unfolding program
udp_end_other_example =
    udp_end_other tags suffixes test_net names_only plain_rate events nobody 0 (session 4)
      (session 5) (session 6) (entry 2) identity true (some 6) later refl refl (inl refl)
      (ap (λ x. (later, x)) (let e : attempt.1 ≡ ok (session 6) = refl in e))

-- A writer that takes everything, over the bytes that it got.
written_all : (p w : Text) → w ++ p ≡ w ++ take (length p) p
written_all p w = ap (◌++◌ w) (sym (take_all p))

abbrev sink : Writer
sink = record {
  State = Text;
  write = λ p w. (w ++ p, (length p, true));
  written = λ w. w;
  write_at_most = λ p w. omega arith;
  write_whole = λ p w e. refl;
  written-write = written_all;
}

abbrev count : ℕ → TrafficStore → TrafficStore
count n t = add_up t (pos 7) n

abbrev bytes_up : TrafficStore → ℕ
bytes_up t = (item_of t (pos 7)).up

counts : (n : ℕ) (t : TrafficStore) → bytes_up (count n t) % word64 ≡ (bytes_up t + n) % word64
counts n t = rw (bytes_up, item_of-add_up t (pos 7) n (pos 7)) (omega arith)

abbrev reads : Reads
reads = next (codes "hel") (last (codes "lo") true)

copy_count_lem_example :
    let after = copy_count plain_rate waits sink count (some (9, 65536)) reads [] [] in
    (n : ℕ) × (n ≤ 5)
    × (after.writer ≡ take n (codes "hello"))
    × (after.total % word64 ≡ n % word64)
    × (bytes_up after.counted % word64 ≡ (bytes_up [] + n) % word64)
    × (is_ok after.result ≡ true → n ≡ 5)
copy_count_lem_example =
    copy_count_lem plain_rate waits sink count bytes_up counts (some (9, 65536)) reads [] []

forward_lem_example :
    let limiter =
      get_speed_limiter plain_rate
        (sync_users plain_rate (alice ∷ []) new_session_limiter)
        (pos 7) in
    let after = forward plain_rate waits sink count limiter (codes "GET ") reads [] [] in
    (after.result ≡ ok tt)
    × (after.writer ≡ codes "GET hello")
    × (bytes_up after.counted % word64 ≡ (bytes_up [] + 9) % word64)
forward_lem_example =
    forward_lem plain_rate waits sink count bytes_up counts (alice ∷ []) new_session_limiter (pos 7)
      (codes "GET ") reads [] [] (λ p s. refl) (omega arith) (omega arith, omega arith) refl
