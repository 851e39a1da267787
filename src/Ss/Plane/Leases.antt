-- ===== src/Ss/Plane/Leases.antt =====
-- The limiter of internal/ss/limits.go under the handlers of internal/ss/service.go.
use small_x.Base.{
  ℤ, ℕ, zero, suc, ◌+◌, ◌≡◌, refl, sym, ◌∙◌, subst, Text, List, [], ◌∷◌, Bool, true, false, ◌&&◌,
  some, inl, inr, Result, ok, err, int_keys, text_keys, int_eq_iff, text_eq_iff, int_eq, text_eq,
  arith,
}
use small_x.Base.Map.{lookup}
use small_x.Ss.Types.{UserConfig}
use small_x.Ss.Limits.{
  refs_of, admit, new_session_limiter, SessionLimiter, LimitError, Lease, acquire, release,
  tcp_count, ip_count, refs_of, new_session_limiter,
}
use small_x.Ss.Limits.Acquire.{acquire_cases, ip_count-admit, tcp_count-admit}
use small_x.Ss.Limits.Counts.{tcp_count-release, ip_count-release}
use small_x.Ss.Plane.{pick, remove}

abbrev one_if : Bool → ℕ
one_if true = 1
one_if false = 0

-- How many of the leases are of a user on a device, and how many of a user are over TCP.
abbrev pub held_on : ℤ → Text → List Lease → ℕ
held_on id ip [] = 0
held_on id ip (h ∷ hs) = one_if (int_eq h.user_id id && text_eq h.ip ip) + held_on id ip hs

abbrev pub held_tcp : ℤ → List Lease → ℕ
held_tcp id [] = 0
held_tcp id (h ∷ hs) = one_if (h.tcp && int_eq h.user_id id) + held_tcp id hs

held_on-pick :
    (n : ℕ) (h : Lease) (hs : List Lease) (id : ℤ) (ip : Text)
    → pick n hs ≡ some h
    → held_on id ip hs
      ≡ one_if (int_eq h.user_id id && text_eq h.ip ip) + held_on id ip (remove n hs)
held_on-pick n h [] id ip e = cc
held_on-pick zero h (x ∷ hs) id ip e = let same : x ≡ h = cc in rw same refl
held_on-pick (suc n) h (x ∷ hs) id ip e = omega (arith, held_on-pick n h hs id ip e)

held_tcp-pick :
    (n : ℕ) (h : Lease) (hs : List Lease) (id : ℤ)
    → pick n hs ≡ some h
    → held_tcp id hs ≡ one_if (h.tcp && int_eq h.user_id id) + held_tcp id (remove n hs)
held_tcp-pick n h [] id e = cc
held_tcp-pick zero h (x ∷ hs) id e = let same : x ≡ h = cc in rw same refl
held_tcp-pick (suc n) h (x ∷ hs) id e = omega (arith, held_tcp-pick n h hs id e)

module _ {R : Type 0} where
  -- The limiter counts exactly the leases of two lists.
  pub record Counts (l : SessionLimiter R) (tcp udp : List Lease) : Type 0 where
    pub on_device : (id : ℤ) (ip : Text) → ip_count l id ip ≡ held_on id ip tcp + held_on id ip udp
    pub over_tcp : (id : ℤ) → tcp_count l id ≡ held_tcp id tcp + held_tcp id udp

  -- What a call of `acquire` does to the counts.
  abbrev pub Admits : SessionLimiter R → SessionLimiter R × Result LimitError Lease → Type 0
  Admits l (l', err e) =
      ((id : ℤ) (ip : Text) → ip_count l' id ip ≡ ip_count l id ip)
      × ((id : ℤ) → tcp_count l' id ≡ tcp_count l id)
  Admits l (l', ok h) =
      ((id : ℤ) (ip : Text)
        → ip_count l' id ip ≡ one_if (int_eq h.user_id id && text_eq h.ip ip) + ip_count l id ip)
      × ((id : ℤ) → tcp_count l' id ≡ one_if (h.tcp && int_eq h.user_id id) + tcp_count l id)

  pub acquire-Admits :
      (l : SessionLimiter R) (user : UserConfig) (ip : Text) (tcp enforce : Bool)
      → Admits l (acquire l user ip tcp enforce)
  unfolding admit
  acquire-Admits l user ip tcp enforce = elim (acquire_cases l user ip tcp enforce) [
    | inl (full, e) ↦ subst (Admits l) (sym e) (λ id p. refl, λ id. refl)
    | inr (inl (room, refused, e)) ↦ subst (Admits l) (sym e) (λ id p. refl, λ id. refl)
    | inr (inr (room, free, e)) ↦ subst (Admits l) (sym e) (
      λ id p. ground (
        arith,
        ip_count-admit l user ip tcp enforce id p,
        int_eq_iff user.id id,
        text_eq_iff ip p,
      ),
      λ id. ground (arith, tcp_count-admit l user ip tcp enforce id, int_eq_iff user.id id),
    )
  ]

  -- A release takes one from the counts of its lease.
  released-on :
      (l : SessionLimiter R) (h : Lease) (id : ℤ) (ip : Text) (m : ℕ)
      → ip_count l id ip ≡ one_if (int_eq h.user_id id && text_eq h.ip ip) + m
      → ip_count (release l h) id ip ≡ m
  released-on l h id ip m e =
      ground (arith, ip_count-release l h id ip, int_eq_iff h.user_id id, text_eq_iff h.ip ip)

  released-tcp :
      (l : SessionLimiter R) (h : Lease) (id : ℤ) (m : ℕ)
      → tcp_count l id ≡ one_if (h.tcp && int_eq h.user_id id) + m
      → tcp_count (release l h) id ≡ m
  released-tcp l h id m e = ground (arith, tcp_count-release l h id, int_eq_iff h.user_id id)

  pub release-Counts_tcp :
      (l : SessionLimiter R) (n : ℕ) (h : Lease) (tcp udp : List Lease)
      → pick n tcp ≡ some h
      → Counts l tcp udp
      → Counts (release l h) (remove n tcp) udp
  release-Counts_tcp l n h tcp udp e w = record {
    on_device = λ id ip.
        released-on l h id ip _ (omega (arith, w.on_device id ip, held_on-pick n h tcp id ip e));
    over_tcp =
        λ id. released-tcp l h id _ (omega (arith, w.over_tcp id, held_tcp-pick n h tcp id e));
  }

  pub release-Counts_udp :
      (l : SessionLimiter R) (n : ℕ) (h : Lease) (tcp udp : List Lease)
      → pick n udp ≡ some h
      → Counts l tcp udp
      → Counts (release l h) tcp (remove n udp)
  release-Counts_udp l n h tcp udp e w = record {
    on_device = λ id ip.
        released-on l h id ip _ (omega (arith, w.on_device id ip, held_on-pick n h udp id ip e));
    over_tcp =
        λ id. released-tcp l h id _ (omega (arith, w.over_tcp id, held_tcp-pick n h udp id e));
  }

  pub Counts-admitted_tcp :
      (l l' : SessionLimiter R) (h : Lease) (tcp udp : List Lease)
      → Admits l (l', ok h)
      → Counts l tcp udp
      → Counts l' (h ∷ tcp) udp
  Counts-admitted_tcp l l' h tcp udp a w = record {
    on_device = λ id ip. omega (arith, a.0 id ip, w.on_device id ip);
    over_tcp = λ id. omega (arith, a.1 id, w.over_tcp id);
  }

  pub Counts-admitted_udp :
      (l l' : SessionLimiter R) (h : Lease) (tcp udp : List Lease)
      → Admits l (l', ok h)
      → Counts l tcp udp
      → Counts l' tcp (h ∷ udp)
  Counts-admitted_udp l l' h tcp udp a w = record {
    on_device = λ id ip. omega (arith, a.0 id ip, w.on_device id ip);
    over_tcp = λ id. omega (arith, a.1 id, w.over_tcp id);
  }

  pub Counts-refused :
      (l l' : SessionLimiter R) (e : LimitError) (tcp udp : List Lease)
      → Admits l (l', err e)
      → Counts l tcp udp
      → Counts l' tcp udp
  Counts-refused l l' e tcp udp a w = record {
    on_device = λ id ip. a.0 id ip ∙ w.on_device id ip;
    over_tcp = λ id. a.1 id ∙ w.over_tcp id;
  }

  pub Counts-new : Counts (new_session_limiter {R = R}) [] []
  unfolding new_session_limiter ip_count refs_of tcp_count lookup
  Counts-new = record { on_device = λ id ip. refl; over_tcp = λ id. refl }
