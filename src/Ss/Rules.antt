-- ===== src/Ss/Rules.antt =====
-- internal/ss/rules.go: which targets a client may reach. Regular expressions are Go's package
-- `regexp`: a parameter, with what its documentation says of a quoted text before the end.
pub mod Enforcement
pub mod Domains
use small_x.Base.{
  ℤ, negsuc, ℕ, ◌≡◌, Text, List, [], ◌∷◌, ◌++◌, map, Bool, true, false, ◌&&◌, ◌||◌, not, Option,
  none, some, any, ltb, nat_eq, text_eq, length, if◌then◌else◌, is_none, Result, ok, err, ◌>>=◌,
  take,
}
use small_x.Base.Strings.{codes, trim_space, to_lower, contains_byte}
use small_x.Model.{RouteRule}
use small_x.Ss.Types.{RuntimeConfig}
use small_x.Ss.HostPort.{split_host_port}

-- `ends_with s t`: the text `t` ends in `s`.
abbrev pub ends_with : Text → Text → Bool
ends_with s [] = nat_eq (length s) 0
ends_with s (c ∷ t) = text_eq s (c ∷ t) || ends_with s t

pub record RegexLib : Type 1 where
  pub Regexp : Type 0
  pub compile : Text → Option Regexp
  pub match_string : Regexp → Text → Bool
  pub quote_meta : Text → Text
  pub parses_ip : Text → Bool
  pub is_utf8 : Text → Bool
  -- `(^|\.)…$` around a quoted text matches that text, and each text that ends in a dot and it.
  pub suffix :
      (s : Text)
      → is_utf8 s ≡ true
      → (r : Regexp) × (compile (codes "(^|\\.)" ++ (quote_meta s ++ codes "$")) ≡ some r)
        × ((t : Text)
            → is_utf8 t ≡ true
            → match_string r t ≡ text_eq t s || ends_with (codes "." ++ s) t)

pub data RuleError : Type 0 where
  empty_rule_pattern : RuleError
  compile_failed : Text → RuleError

pub data TargetError : Type 0 where
  target_blocked : Text → ℤ → TargetError
  not_in_allowlist : TargetError

-- `strings.ContainsAny(value, ...)`.
abbrev pub regex_bytes : Text
regex_bytes = codes "\\^$*+?()[]{}|"

unfoldable pub looks_regex : Text → Bool
looks_regex value = any (λ c. contains_byte c regex_bytes) value

unfoldable pub target_candidates : Text → List Text
target_candidates target = elim (split_host_port target) [
  | none ↦ target ∷ []
  | some (host, port) ↦ target ∷ host ∷ []
]

module _ (lib : RegexLib) where
  open lib use {Regexp, compile, match_string, quote_meta, parses_ip}

  pub record CompiledRule : Type 0 where
    pub id : ℤ
    pub source : Text
    pub pattern : Regexp

  pub record TargetRules : Type 0 where
    pub allows : List CompiledRule
    pub blocks : List CompiledRule

  unfoldable pub pattern_text : Text → Text
  pattern_text raw =
      if not (looks_regex raw)
      then if contains_byte b':' raw || parses_ip raw
        then codes "^" ++ (quote_meta raw ++ codes "$")
        else codes "(^|\\.)" ++ (quote_meta raw ++ codes "$")
      else raw

  unfoldable pub compile_rule : ℤ → Text → Text → Result RuleError CompiledRule
  compile_rule id source entry =
      let raw = trim_space entry in
      let compiled = compile (pattern_text raw) in
      if nat_eq (length raw) 0 then err empty_rule_pattern else elim compiled [
        | none ↦ err (compile_failed raw)
        | some p ↦ ok (record { id = id; source = source; pattern = p })
      ]

  -- A loop that compiles entries and appends the rules.
  unfoldable pub compile_all :
      ℤ → Text → List Text → List CompiledRule → Result RuleError (List CompiledRule)
  compile_all id source [] rules = ok rules
  compile_all id source (entry ∷ entries) rules = do
    compiled ← compile_rule id source entry
    compile_all id source entries (rules ++ compiled ∷ [])

  abbrev pub is_block : RouteRule → Bool
  is_block route = text_eq (to_lower (trim_space route.action)) (codes "block")

  unfoldable pub compile_routes :
      List RouteRule → List CompiledRule → Result RuleError (List CompiledRule)
  compile_routes [] rules = ok rules
  compile_routes (route ∷ routes) rules = do
    rules' ←
        if is_block route
        then compile_all route.id (codes "xboard-block") route.match rules
        else ok rules
    compile_routes routes rules'

  unfoldable pub compile_target_rules : RuntimeConfig → Result RuleError TargetRules
  compile_target_rules cfg = do
    allows ← compile_all (negsuc 0) (codes "local-allow") cfg.server.allow_targets []
    local ← compile_all (negsuc 0) (codes "local-block") cfg.server.block_targets []
    blocks ← compile_routes cfg.server.routes local
    ok (record { allows = allows; blocks = blocks })

  unfoldable pub matches_any : CompiledRule → List Text → Bool
  matches_any r values = any (λ v. match_string r.pattern v) values

  -- The loop over the block rules: the first one that matches.
  unfoldable pub first_block : List CompiledRule → List Text → Option CompiledRule
  first_block [] candidates = none
  first_block (r ∷ rules) candidates =
      let rest = first_block rules candidates in if matches_any r candidates then some r else rest

  -- `Validate` of rules that are not nil.
  unfoldable pub validate : TargetRules → Text → Result TargetError (Unit {0})
  validate rules target =
      let candidates = target_candidates target in
      elim (first_block rules.blocks candidates) [
        | some r ↦ err (target_blocked r.source r.id)
        | none ↦
            if ltb 0 (length rules.allows)
            then if any (λ r. matches_any r candidates) rules.allows
              then ok tt
              else err not_in_allowlist
            else ok tt
      ]

-- `routeIDs`.
unfoldable pub route_ids : List RouteRule → List ℤ
route_ids routes = map (λ r. r.id) routes
