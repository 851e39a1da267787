-- ===== src/Ss/Resolver/Trust.antt =====
-- Which transports may carry a PassX header, and when the settings count as changed.
use mathlib.Core.List.{append-nil, append_assoc}
use small_x.Base.{
  ◌∙◌, ℕ, ◌≡◌, refl, Text, List, [], ◌∷◌, ◌++◌, true, false, ◌&&◌, ◌||◌, ◌↔◌, inl, inr, Option,
  none, some, if◌then◌else◌, length, any, arith, text_eq, text_eq_iff, nat_eq, Bool-cases, take,
}
use small_x.Base.Strings.{trim_space}
use small_x.Ss.Types.{PassXConfig}
use small_x.Ss.Netip.{
  Addr, v6, bit_len, unmap, AddrPort, is_valid, Prefix, prefix_from, contains, contains_bits,
  NetText, mapped_prefix,
}
use small_x.Ss.Resolver.{
  PassXAccess, no_access, add_parsed, add_entry, add_entries, compile_passx_access,
  is_trusted_transport, any_differs, passx_settings_changed,
}

module _ (net : NetText) where
  -- The specification: the prefix that an entry stands for, if it can be read.
  abbrev pub read_parsed : Option Prefix → Option Addr → Option Prefix
  read_parsed (some p) addr = some (net.masked p)
  read_parsed none (some addr) = some (prefix_from (unmap addr) (bit_len addr))
  read_parsed none none = none

  abbrev pub read_entry : Text → Option Prefix
  read_entry entry =
      let raw = trim_space entry in
      if nat_eq (length raw) 0
      then none
      else read_parsed (net.parse_prefix raw) (net.parse_addr raw)

  abbrev pub cons_some : Option Prefix → List Prefix → List Prefix
  cons_some none ps = ps
  cons_some (some p) ps = p ∷ ps

  abbrev pub read_entries : List Text → List Prefix
  read_entries [] = []
  read_entries (entry ∷ entries) = cons_some (read_entry entry) (read_entries entries)

  add_parsed-prefixes :
      (raw : Text) (p : Option Prefix) (addr : Option Addr) (a : PassXAccess) (ps : List Prefix)
      → (add_parsed net raw p addr a).trusted_prefixes ++ ps
        ≡ a.trusted_prefixes ++ cons_some (read_parsed p addr) ps
  unfolding add_parsed
  add_parsed-prefixes raw (some p) addr a ps = simp append_assoc
  add_parsed-prefixes raw none (some addr) a ps = simp append_assoc
  add_parsed-prefixes raw none none a ps = refl

  add_entry-prefixes :
      (entry : Text) (a : PassXAccess) (ps : List Prefix)
      → (add_entry net entry a).trusted_prefixes ++ ps
        ≡ a.trusted_prefixes ++ cons_some (read_entry entry) ps
  unfolding add_entry
  add_entry-prefixes entry a ps =
      let raw = trim_space entry in
      elim (Bool-cases (nat_eq (length raw) 0)) [
        | inl blank ↦ rw blank
        | inr text ↦
            rw text (add_parsed-prefixes raw (net.parse_prefix raw) (net.parse_addr raw) a ps)
      ]

  add_entries-prefixes :
      (entries : List Text) (a : PassXAccess)
      → (add_entries net entries a).trusted_prefixes ≡ a.trusted_prefixes ++ read_entries entries
  unfolding add_entries
  add_entries-prefixes [] a = rw append-nil
  add_entries-prefixes (entry ∷ entries) a =
      add_entries-prefixes entries (add_entry net entry a)
      ∙ add_entry-prefixes entry a (read_entries entries)

  add_entries-enabled :
      (entries : List Text) (a : PassXAccess) → (add_entries net entries a).enabled ≡ a.enabled
  unfolding add_entries add_entry add_parsed
  add_entries-enabled [] a = refl
  add_entries-enabled (entry ∷ entries) a =
      ground (arith, add_entries-enabled entries (add_entry net entry a))

  -- A transport is trusted exactly when PassX is on, the address is valid, and either no entry of
  -- the configuration can be read or a prefix that was read contains the address.
  pub is_trusted_transport-compile :
      (cfg : PassXConfig) (addr : AddrPort)
      → is_trusted_transport (compile_passx_access net cfg) addr
        ≡ (cfg.enabled && is_valid addr)
          && (nat_eq (length (read_entries cfg.trusted_cidrs)) 0
              || any (λ p. contains p addr.addr) (read_entries cfg.trusted_cidrs))
  unfolding is_trusted_transport compile_passx_access
  is_trusted_transport-compile cfg addr =
      let start : PassXAccess = record no_access { enabled = true } in
      ground (
        arith,
        add_entries-prefixes cfg.trusted_cidrs start,
        add_entries-enabled cfg.trusted_cidrs start,
      )

  -- A configuration that lists only one IPv4 address in its IPv6 form trusts no transport, that
  -- address included.
  pub mapped_entry_trusts_nobody :
      (cfg : PassXConfig) (raw : Text) (b : List ℕ) (zone : Text) (addr : AddrPort)
      → cfg.trusted_cidrs ≡ raw ∷ []
      → net.parse_prefix (trim_space raw) ≡ none
      → net.parse_addr (trim_space raw) ≡ some (v6 b zone)
      → nat_eq (length (trim_space raw)) 0 ≡ false
      → text_eq (take 12 b) mapped_prefix ≡ true
      → is_trusted_transport (compile_passx_access net cfg) addr ≡ false
  unfolding prefix_from contains contains_bits unmap
  mapped_entry_trusts_nobody cfg raw b zone addr one no_prefix parsed text mapped =
      is_trusted_transport-compile cfg addr
      ∙ rw (one, text, no_prefix, parsed, mapped) (ground arith)

any_differs_iff :
    (xs ys : List Text) → length xs ≡ length ys → (any_differs xs ys ≡ false) ↔ (xs ≡ ys)
unfolding any_differs
any_differs_iff [] [] h = (λ _. refl, λ _. refl)
any_differs_iff [] (y ∷ ys) h = absurd (omega arith)
any_differs_iff (x ∷ xs) [] h = absurd (omega arith)
any_differs_iff (x ∷ xs) (y ∷ ys) h = ground (arith, text_eq_iff x y, any_differs_iff xs ys)

-- The settings count as unchanged exactly when the switch, the trusted entries and the invalid
-- entries are the same, in the same order.
pub passx_settings_changed_iff :
    (previous next : PassXAccess)
    → (passx_settings_changed previous next ≡ false) ↔ (
        (previous.enabled ≡ next.enabled)
        × (previous.trusted_cidrs ≡ next.trusted_cidrs)
        × (previous.invalid_cidrs ≡ next.invalid_cidrs))
unfolding passx_settings_changed
passx_settings_changed_iff p n = ground (
  arith,
  any_differs_iff p.trusted_cidrs n.trusted_cidrs,
  any_differs_iff p.invalid_cidrs n.invalid_cidrs,
)
