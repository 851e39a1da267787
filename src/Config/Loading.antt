-- ===== src/Config/Loading.antt =====
-- What `Load` accepts.
use small_x.Base.{
  arith, ok, err, ◌>>◌, List, [], ◌∷◌, ℤ, Text, ◌≡◌, ◌∙◌, refl, Bool, true, ◌&&◌, not, Option,
  is_none, is_positive, is_ok, Result, ◌>>◌,
}
use small_x.Config.{
  apply_defaults, load, validate, first_failure, tests_of, FileConfig, ConfigError, is_blank,
  validate,
}

-- Every test passes.
abbrev every : List (Bool × ConfigError) → Bool
every [] = true
every ((passes, e) ∷ tests) = passes && every tests

is_ok-first_failure :
    (tests : List (Bool × ConfigError)) → is_ok (first_failure tests) ≡ every tests
unfolding first_failure
is_ok-first_failure [] = refl
is_ok-first_failure ((passes, e) ∷ tests) = ground (arith, is_ok-first_failure tests)

is_ok_then_same :
    (m : Result ConfigError (Unit {0})) (cfg : FileConfig) → is_ok (m >> ok cfg) ≡ is_ok m
is_ok_then_same (ok u) cfg = refl
is_ok_then_same (err e) cfg = refl

module _ (parse_duration : Text → Option ℤ) where
  abbrev pub is_duration : Text → Bool
  is_duration s = not (is_none (parse_duration s))

  -- Everything that a configuration needs to be used.
  abbrev pub is_complete : FileConfig → Bool
  is_complete cfg =
      not (is_blank cfg.panel.provider)
      && (not (is_blank cfg.panel.base_url)
          && (not (is_blank cfg.panel.token)
              && (is_positive cfg.panel.node_id
                  && (not (is_blank cfg.panel.node_type)
                      && (not (is_blank cfg.runtime.adapter)
                          && (is_duration cfg.panel.timeout
                              && (is_duration cfg.sync.pull_interval
                                  && (is_duration cfg.sync.status_interval
                                      && is_duration cfg.runtime.apply_timeout))))))))

  is_ok-validate : (cfg : FileConfig) → is_ok (validate parse_duration cfg) ≡ is_complete cfg
  unfolding validate
  is_ok-validate cfg = is_ok-first_failure (tests_of parse_duration cfg) ∙ ground arith

  -- A file that was decoded is accepted exactly when, with the defaults filled in, it names provider,
  -- address, token, a positive node, node type and adapter, and its four durations parse.
  pub is_ok-load :
      (raw : FileConfig) → is_ok (load parse_duration (ok raw)) ≡ is_complete (apply_defaults raw)
  unfolding load
  is_ok-load raw =
      is_ok_then_same (validate parse_duration (apply_defaults raw)) (apply_defaults raw)
      ∙ is_ok-validate (apply_defaults raw)
