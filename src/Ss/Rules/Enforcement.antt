-- ===== src/Ss/Rules/Enforcement.antt =====
-- What `Validate` enforces, said of the configuration.
use small_x.Base.{
  is_ok, is_none, ℤ, negsuc, ◌+◌, ◌≡◌, refl, Text, List, [], ◌∷◌, ◌++◌, Bool, false, ◌&&◌, ◌||◌,
  not, Option, none, some, any, nat_eq, length, if◌then◌else◌, ok, >>=-eq-ok, arith, Bool-cases,
  Option-cases, inl, inr, length-append,
}
use small_x.Base.Strings.{codes, trim_space}
use small_x.Model.{RouteRule}
use small_x.Ss.Types.{RuntimeConfig}
use small_x.Ss.Rules.{
  RegexLib, CompiledRule, TargetRules, target_candidates, pattern_text, compile_rule, compile_all,
  is_block, compile_routes, compile_target_rules, matches_any, first_block, validate,
}

any-append {ℓ} :
    {A : Type ℓ} (p : A → Bool) (xs ys : List A) → any p (xs ++ ys) ≡ any p xs || any p ys
any-append p [] ys = refl
any-append p (x ∷ xs) ys = ground (arith, any-append p xs ys)

module _ (lib : RegexLib) where
  open lib use {Regexp, compile, match_string}

  -- An entry of the configuration matches a value by its pattern.
  abbrev pub pattern_matches : Option Regexp → Text → Bool
  pattern_matches none value = false
  pattern_matches (some p) value = match_string p value

  abbrev pub entry_matches : Text → Text → Bool
  entry_matches entry value = pattern_matches (compile (pattern_text lib (trim_space entry))) value

  abbrev pub entries_match : List Text → List Text → Bool
  entries_match entries values = any (λ e. any (λ v. entry_matches e v) values) entries

  -- The block entries in force: the local ones, and those of the panel's block routes.
  abbrev pub route_entries : List RouteRule → List Text
  route_entries [] = []
  route_entries (route ∷ routes) =
      (if is_block lib route then route.match else []) ++ route_entries routes

  compile_rule-pattern :
      (id : ℤ) (source entry : Text) (r : CompiledRule lib)
      → compile_rule lib id source entry ≡ ok r
      → compile (pattern_text lib (trim_space entry)) ≡ some r.pattern
  unfolding compile_rule
  compile_rule-pattern id source entry r h =
      elim (Option-cases (compile (pattern_text lib (trim_space entry)))) [
        | inl refused ↦ absurd (ground (arith, refused))
        | inr (p, compiled) ↦ ground (arith, compiled)
      ]

  compile_rule-matches :
      (id : ℤ) (source entry : Text) (r : CompiledRule lib) (values : List Text)
      → compile_rule lib id source entry ≡ ok r
      → matches_any lib r values ≡ any (λ v. entry_matches entry v) values
  unfolding matches_any
  compile_rule-matches id source entry r values h = rw (compile_rule-pattern id source entry r h)

  compile_all-matches :
      (id : ℤ) (source : Text) (entries : List Text) (rules out : List (CompiledRule lib))
      (values : List Text)
      → compile_all lib id source entries rules ≡ ok out
      → (any (λ r. matches_any lib r values) out
          ≡ any (λ r. matches_any lib r values) rules || entries_match entries values)
        × (length out ≡ length rules + length entries)
  unfolding compile_all
  compile_all-matches id source [] rules out values h = ground arith
  compile_all-matches id source (entry ∷ entries) rules out values h =
      let (r, e1, e2) = >>=-eq-ok (compile_rule lib id source entry) _ h in
      let one : List (CompiledRule lib) = r ∷ [] in
      ground (
        arith,
        compile_all-matches id source entries (rules ++ one) out values e2,
        compile_rule-matches id source entry r values e1,
        any-append (λ (q : CompiledRule lib). matches_any lib q values) rules one,
        length-append rules one,
      )

  compile_routes-matches :
      (routes : List RouteRule) (rules out : List (CompiledRule lib)) (values : List Text)
      → compile_routes lib routes rules ≡ ok out
      → any (λ r. matches_any lib r values) out
        ≡ any (λ r. matches_any lib r values) rules || entries_match (route_entries routes) values
  unfolding compile_routes
  compile_routes-matches [] rules out values h = ground arith
  compile_routes-matches (route ∷ routes) rules out values h =
      let (rules', e1, e2) =
        >>=-eq-ok
          (if is_block lib route
            then compile_all lib route.id (codes "xboard-block") route.match rules
            else ok rules)
          _ h in
      elim (Bool-cases (is_block lib route)) [
        | inl block ↦ ground (
          arith,
          block,
          compile_routes-matches routes rules' out values e2,
          compile_all-matches route.id (codes "xboard-block") route.match rules rules' values,
          any-append (λ (e : Text). any (λ v. entry_matches e v) values) route.match
              (route_entries routes),
        )
        | inr pass ↦ ground (arith, pass, compile_routes-matches routes rules' out values e2)
      ]

  first_block-none :
      (rules : List (CompiledRule lib)) (values : List Text)
      → is_none (first_block lib rules values) ≡ not (any (λ r. matches_any lib r values) rules)
  unfolding first_block
  first_block-none [] values = refl
  first_block-none (r ∷ rules) values = ground (arith, first_block-none rules values)

  validate-is_ok :
      (rules : TargetRules lib) (target : Text)
      → is_ok (validate lib rules target)
        ≡ not (any (λ r. matches_any lib r (target_candidates target)) rules.blocks)
          && (nat_eq (length rules.allows) 0
              || any (λ r. matches_any lib r (target_candidates target)) rules.allows)
  unfolding validate
  validate-is_ok rules target =
      ground (arith, first_block-none rules.blocks (target_candidates target))

  -- A target passes the rules that were compiled from a configuration exactly when no local block
  -- entry and no entry of a block route of the panel matches it, and an allow entry matches it or
  -- there is none. To match is to match the whole target or its host.
  pub validate-compile :
      (cfg : RuntimeConfig) (rules : TargetRules lib) (target : Text)
      → compile_target_rules lib cfg ≡ ok rules
      → is_ok (validate lib rules target)
        ≡ not (
            entries_match cfg.server.block_targets (target_candidates target)
            || entries_match (route_entries cfg.server.routes) (target_candidates target))
          && (nat_eq (length cfg.server.allow_targets) 0
              || entries_match cfg.server.allow_targets (target_candidates target))
  unfolding compile_target_rules
  validate-compile cfg rules target h =
      let cs = target_candidates target in
      let allow = compile_all lib (negsuc 0) (codes "local-allow") cfg.server.allow_targets [] in
      let block = compile_all lib (negsuc 0) (codes "local-block") cfg.server.block_targets [] in
      let (allows, e1, h1) = >>=-eq-ok allow _ h in
      let (local, e2, h2) = >>=-eq-ok block _ h1 in
      let (blocks, e3, h3) = >>=-eq-ok (compile_routes lib cfg.server.routes local) _ h2 in
      ground (
        arith,
        validate-is_ok rules target,
        compile_all-matches (negsuc 0) (codes "local-allow") cfg.server.allow_targets [] allows cs
            e1,
        compile_all-matches (negsuc 0) (codes "local-block") cfg.server.block_targets [] local cs
            e2,
        compile_routes-matches cfg.server.routes local blocks cs e3,
      )
