-- ===== src/Ss/Rules/Domains.antt =====
-- Entries that are domain names: what they block of the targets that `SplitAddr` returns.
use small_x.Base.{
  is_ok, ℕ, ◌≡◌, ◌∙◌, Text, List, [], ◌∷◌, ◌++◌, Bool, true, false, ◌||◌, any, text_eq, ok, arith,
  inl, inr, In, ◌⊎◌,
}
use small_x.Base.Strings.{codes, trim_space, contains_byte}
use small_x.Ss.Types.{RuntimeConfig}
use small_x.Ss.HostPort.{join_host_port, itoa}
use small_x.Ss.HostPort.Split.{split_host_port-join_itoa}
use small_x.Ss.Rules.{
  RegexLib, TargetRules, looks_regex, target_candidates, pattern_text, compile_target_rules,
  validate, ends_with,
}
use small_x.Ss.Rules.Enforcement.{entry_matches, route_entries, validate-compile}

-- A target is checked whole and by its host.
pub target_candidates-join :
    (host : Text) (port : ℕ)
    → contains_byte b'[' host ≡ false
    → contains_byte b']' host ≡ false
    → let target = join_host_port host (itoa port) in target_candidates target ≡ target ∷ host ∷ []
unfolding target_candidates
target_candidates-join host port o c = ground (arith, split_host_port-join_itoa host port o c)

any-In : {A : Type 0} (p : A → Bool) (a : A) (xs : List A) → In a xs → p a ≡ true → any p xs ≡ true
any-In p a [] m h = absurd m
any-In p a (x ∷ xs) (inl e) h = ground arith
any-In p a (x ∷ xs) (inr m) h = ground (arith, any-In p a xs m h)

-- The entry names a domain: no byte of a regular expression, no colon, no IP address, UTF-8.
pub record IsDomain (lib : RegexLib) (raw : Text) : Type 0 where
  pub plain : looks_regex raw ≡ false
  pub no_colon : contains_byte b':' raw ≡ false
  pub no_ip : lib.parses_ip raw ≡ false
  pub utf8 : lib.is_utf8 raw ≡ true

-- The domain or a name below it.
abbrev pub is_under : Text → Text → Bool
is_under raw host = text_eq host raw || ends_with (codes "." ++ raw) host

module _ (lib : RegexLib) where
  -- A domain entry matches, of the texts in UTF-8, exactly the domain and the names below it.
  pub entry_matches-domain :
      (entry value : Text)
      → IsDomain lib (trim_space entry)
      → lib.is_utf8 value ≡ true
      → entry_matches lib entry value ≡ is_under (trim_space entry) value
  unfolding pattern_text
  entry_matches-domain entry value d u =
      let raw = trim_space entry in
      let (r, compiled, spec) = lib.suffix raw d.utf8 in
      rw (d.plain, d.no_colon, d.no_ip, compiled) (spec value u)

  -- If a configuration that compiles lists a domain as a local block entry or in a block route of the
  -- panel, then a connection to the domain or to a name below it (a host in UTF-8, without brackets)
  -- is refused at every port, whatever the allow list says.
  pub validate_blocked_domain :
      (cfg : RuntimeConfig) (rules : TargetRules lib) (entry host : Text) (port : ℕ)
      → compile_target_rules lib cfg ≡ ok rules
      → In entry cfg.server.block_targets ⊎ In entry (route_entries lib cfg.server.routes)
      → IsDomain lib (trim_space entry)
      → is_under (trim_space entry) host ≡ true
      → lib.is_utf8 host ≡ true
      → contains_byte b'[' host ≡ false
      → contains_byte b']' host ≡ false
      → is_ok (validate lib rules (join_host_port host (itoa port))) ≡ false
  validate_blocked_domain cfg rules entry host port compiled listed d under u o c =
      let target = join_host_port host (itoa port) in
      let hit = entry_matches-domain entry host d u ∙ under in
      let test = λ (e : Text). any (λ v. entry_matches lib e v) (target ∷ host ∷ []) in
      let found : test entry ≡ true = ground (arith, hit) in
      validate-compile lib cfg rules target compiled
      ∙ rw (target_candidates-join host port o c) (elim listed [
        | inl m ↦ rw (any-In test entry cfg.server.block_targets m found)
        | inr m ↦ ground (arith, any-In test entry (route_entries lib cfg.server.routes) m found)
      ])
