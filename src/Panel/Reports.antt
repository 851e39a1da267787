-- ===== src/Panel/Reports.antt =====
-- internal/provider/xboard/client.go: the reports of the node to the panel.
use small_x.Base.{
  ℤ, ℕ, Text, List, [], ◌∷◌, ◌++◌, ◌≡◌, refl, ap, ◌∙◌, false, Option, none, some, if◌then◌else◌, ok,
  inl, inr, Bool-cases, length, nat_eq, leb, arith, int_keys, ◌==◌,
}
use small_x.Base.Strings.{codes}
use small_x.Base.Map.{lookup, insert, lookup-insert}
use small_x.Model.{TrafficReport, AliveIp, StatusReport}
use small_x.Panel.{
  Codec, Client, Panel, Response, post_json, posted, post_request, log_request, traffic_data,
  report_traffic, report_alive_ips, report_status,
}

-- The last report of a user.
abbrev pub last_report : ℤ → List TrafficReport → Option (List ℕ) → Option (List ℕ)
last_report id [] before = before
last_report id (t ∷ ts) before =
    last_report id ts (if t.id == id then some (t.u ∷ t.d ∷ []) else before)

lookup-traffic_data_from :
    (id : ℤ) (ts : List TrafficReport) (m : List (ℤ × List ℕ))
    → lookup id (traffic_data ts m) ≡ last_report id ts (lookup id m)
unfolding traffic_data
lookup-traffic_data_from id [] m = refl
lookup-traffic_data_from id (t ∷ ts) m =
    lookup-traffic_data_from id ts (insert t.id (t.u ∷ t.d ∷ []) m)
    ∙ ap (last_report id ts) (lookup-insert t.id id (t.u ∷ t.d ∷ []) m)

-- No request leaves another tag or configuration in the client.
abbrev pub Same : Client → Client → Type 0
Same c c' = (c'.etags ≡ c.etags) × (c'.cfg ≡ c.cfg)

posted-Same : (c : Client) (r : Option Response) → Same c (posted c r).0
posted-Same c none = (refl, refl)
posted-Same c (some r) = (refl, refl)

some_length : {A : Type 0} (x : A) (xs : List A) → nat_eq (length (x ∷ xs)) 0 ≡ false
some_length x xs = ground arith

module _ (codec : Codec) where
  post_json-Same :
      (panel : Panel) (path : Text) (body : Option Text) (c : Client)
      → Same c (post_json codec panel path body c).0
  unfolding post_json
  post_json-Same panel path none c = (refl, refl)
  post_json-Same panel path (some body) c =
      let r = post_request c path body in
      elim (Bool-cases (codec.is_url r.url)) [
        | inl h ↦ rw h (posted-Same (log_request c r) (panel r))
        | inr h ↦ rw h (refl, refl)
      ]

  pub report_traffic-Same :
      (panel : Panel) (ts : List TrafficReport) (c : Client)
      → Same c (report_traffic codec panel ts c).0
  unfolding report_traffic
  report_traffic-Same panel [] c = (refl, refl)
  report_traffic-Same panel (t ∷ ts) c = rw (some_length t ts) (post_json-Same panel _ _ c)

  pub report_alive_ips-Same :
      (panel : Panel) (xs : List AliveIp) (c : Client)
      → Same c (report_alive_ips codec panel xs c).0
  unfolding report_alive_ips
  report_alive_ips-Same panel [] c = (refl, refl)
  report_alive_ips-Same panel (x ∷ xs) c = rw (some_length x xs) (post_json-Same panel _ _ c)

  pub report_status-Same :
      (panel : Panel) (s : StatusReport) (c : Client) → Same c (report_status codec panel s c).0
  unfolding report_status
  report_status-Same panel s c = post_json-Same panel _ _ c

  -- An accepted post: its body was encoded, it is the last request sent, and the panel's answer to it
  -- has a status below 300.
  abbrev IsAccepted : Panel → Text → Option Text → Client → Client → Type 0
  IsAccepted panel path body c c' =
      (b : Text) × (r : Response) × (body ≡ some b)
      × (c'.sent ≡ c.sent ++ post_request c path b ∷ [])
      × (panel (post_request c path b) ≡ some r)
      × (leb 300 r.status ≡ false)

  posted-IsAccepted :
      (panel : Panel) (path b : Text) (c : Client) (o : Option Response)
      → panel (post_request c path b) ≡ o
      → (posted (log_request c (post_request c path b)) o).1 ≡ ok tt
      → IsAccepted panel path (some b) c (posted (log_request c (post_request c path b)) o).0
  posted-IsAccepted panel path b c none answers fine = cc
  posted-IsAccepted panel path b c (some r) answers fine = (b, r, refl, refl, answers, ground arith)

  post_json-IsAccepted :
      (panel : Panel) (path : Text) (body : Option Text) (c : Client)
      → (post_json codec panel path body c).1 ≡ ok tt
      → IsAccepted panel path body c (post_json codec panel path body c).0
  unfolding post_json
  post_json-IsAccepted panel path none c fine = cc
  post_json-IsAccepted panel path (some b) c fine =
      let r = post_request c path b in
      elim (Bool-cases (codec.is_url r.url)) [
        | inl h ↦ rw h (posted-IsAccepted panel path b c (panel r) refl (rw h at fine))
        | inr h ↦ absurd (ground (arith, h, fine))
      ]

  -- A traffic report that succeeds with some traffic has sent one request, the panel accepted it,
  -- and its body encodes a map that has for each user the bytes of the user's last entry.
  pub report_traffic_lem :
      (panel : Panel) (t : TrafficReport) (ts : List TrafficReport) (c : Client)
      → (report_traffic codec panel (t ∷ ts) c).1 ≡ ok tt
      → (m : List (ℤ × List ℕ)) × ((id : ℤ) → lookup id m ≡ last_report id (t ∷ ts) none)
        × IsAccepted panel
            (codes "/api/v1/server/UniProxy/push")
            (codec.traffic_to_json m)
            c
            (report_traffic codec panel (t ∷ ts) c).0
  unfolding report_traffic lookup
  report_traffic_lem panel t ts c fine = (
    traffic_data (t ∷ ts) [],
    λ id. lookup-traffic_data_from id (t ∷ ts) [],
    rw (some_length t ts) (post_json-IsAccepted panel _ _ c (rw (some_length t ts) at fine)),
  )
