-- ===== src/Ss/Translate/Plugins.antt =====
-- The plugin options that `parseObfs` of internal/ss/translate.go takes, and what they ask for.
use small_x.Base.{
  ◌≡◌, refl, ap, ◌∙◌, Text, List, [], ◌∷◌, Bool, true, false, ◌&&◌, ◌||◌, not, Option, none, some,
  text_eq, text_keys, text_eq_iff, Result, ok, err, arith, Bool-cases, Option-cases, inl, inr, ◌⊎◌,
  if◌then◌else◌,
}
use small_x.Base.Strings.{codes, trim_space, to_lower, split, cut, has_prefix_byte}
use small_x.Base.Map.{lookup, insert, lookup-insert}
use small_x.Ss.Types.{ObfsConfig}
use small_x.Ss.Translate.{
  TranslateError, unsupported_plugin, missing_obfs_mode, unsupported_obfs_mode, no_obfs, is_empty,
  add_option, add_options, parse_plugin_opts, option_of, or_text, obfs_mode, obfs_path, parse_obfs,
}
use small_x.Ss.Translate.Secrets.{is_filled}

-- A part of the options as a key and its value: a part without `=` is a key alone.
abbrev pub setting : Text → Option (Text × Text)
setting raw =
    let part = trim_space raw in
    if is_filled part
    then elim (cut b'=' part) [
      | none ↦ some (part, [])
      | some (key, value) ↦ some (trim_space key, trim_space value)
    ]
    else none

abbrev pub value_if : Text → Option (Text × Text) → Option Text
value_if key none = none
value_if key (some (name, value)) = if text_eq name key then some value else none

-- The value of the last part with a key.
abbrev pub last_value : Text → List Text → Option Text
last_value key [] = none
last_value key (part ∷ parts) = elim (last_value key parts) [
  | some v ↦ some v
  | none ↦ value_if key (setting part)
]

-- The value of a key in the options, empty if there is none.
abbrev pub value_of : Text → Text → Text
value_of key opts = elim (last_value key (split b';' (trim_space opts))) [ none ↦ [] | some v ↦ v ]

-- `obfs`, or else `mode`.
abbrev pub mode_of : Text → Text
mode_of opts =
    let first = to_lower (trim_space (value_of (codes "obfs") opts)) in
    if is_filled first then first else to_lower (trim_space (value_of (codes "mode") opts))

-- Whether a plugin is given at all, and whether it is one that the runtime has.
abbrev pub has_plugin : Text → Text → Bool
has_plugin plugin opts = is_filled (to_lower (trim_space plugin)) && is_filled (trim_space opts)

abbrev pub is_known_plugin : Text → Text → Bool
is_known_plugin plugin opts =
    let name = to_lower (trim_space plugin) in
    (text_eq name (codes "obfs") || text_eq name (codes "obfs-local"))
    && text_eq (mode_of opts) (codes "http")

abbrev pub is_good_plugin : Text → Text → Bool
is_good_plugin plugin opts = not (has_plugin plugin opts) || is_known_plugin plugin opts

-- The configuration of a plugin: off, or HTTP with the host and the path of the options. A path
-- starts with `/`.
abbrev pub IsObfsOf : Text → Text → ObfsConfig → Type 0
IsObfsOf plugin opts obfs =
    ((has_plugin plugin opts ≡ false) × (obfs.enabled ≡ false))
    ⊎ ((has_plugin plugin opts ≡ true)
        × (obfs.enabled ≡ true)
        × (obfs.mode ≡ codes "http")
        × (obfs.host ≡ value_of (codes "obfs-host") opts)
        × (obfs.path ≡ (
            let path = value_of (codes "path") opts in
            if has_prefix_byte b'/' path then path else b'/' ∷ path)))

-- One part.
abbrev add_part : Text → List (Text × Text) → List (Text × Text)
add_part raw out = if is_empty (trim_space raw) then out else add_option (trim_space raw) out

lookup-set :
    (key raw name value : Text) (out : List (Text × Text))
    → add_part raw out ≡ insert name value out
    → setting raw ≡ some (name, value)
    → lookup key (add_part raw out)
      ≡ elim (value_if key (setting raw)) [ some v ↦ some v | none ↦ lookup key out ]
lookup-set key raw name value out added is_set =
    ap (lookup key) added
    ∙ lookup-insert name key value out
    ∙ rw is_set (elim (Bool-cases (text_eq name key)) [
      | inl same ↦ rw same refl
      | inr other ↦ rw other refl
    ])

lookup-add_part :
    (key raw : Text) (out : List (Text × Text))
    → lookup key (add_part raw out)
      ≡ elim (value_if key (setting raw)) [ some v ↦ some v | none ↦ lookup key out ]
lookup-add_part key raw out =
    let part = trim_space raw in
    elim (Bool-cases (is_empty part)) [
      | inl blank ↦
          let none_there : is_filled part ≡ false = ground (arith, blank) in
          rw (blank, none_there) refl
      | inr given ↦
          let there : is_filled part ≡ true = ground (arith, given) in
          elim (Option-cases (cut b'=' part)) [
            | inl alone ↦
                lookup-set key raw part [] out (rw (given, add_option, alone) refl)
                  (rw (there, alone) refl)
            | inr ((name, value), found) ↦
                lookup-set key raw (trim_space name) (trim_space value) out
                  (rw (given, add_option, found) refl) (rw (there, found) refl)
          ]
    ]

-- The last part with the key decides; a key without one keeps what it had.
lookup-add_options :
    (key : Text) (parts : List Text) (out : List (Text × Text))
    → lookup key (add_options parts out)
      ≡ elim (last_value key parts) [ some v ↦ some v | none ↦ lookup key out ]
unfolding add_options
lookup-add_options key [] out = refl
lookup-add_options key (part ∷ parts) out =
    lookup-add_options key parts (add_part part out) ∙ elim (Option-cases (last_value key parts)) [
      | inl missing ↦ rw missing (lookup-add_part key part out)
      | inr (v, found) ↦ rw found refl
    ]

or_text_lem :
    (o : Option Text)
    → or_text (elim o [ some v ↦ some v | none ↦ none ]) ≡ elim o [ none ↦ [] | some v ↦ v ]
or_text_lem none = refl
or_text_lem (some v) = refl

value_of_lem :
    (key opts : Text) → option_of key (parse_plugin_opts (trim_space opts)) ≡ value_of key opts
unfolding parse_plugin_opts lookup
value_of_lem key opts =
    let parts = split b';' (trim_space opts) in
    ap or_text (lookup-add_options key parts []) ∙ or_text_lem (last_value key parts)

filled_or : (a b : Text) → (if is_empty a then b else a) ≡ (if is_filled a then a else b)
filled_or a b = ground arith

mode_of_lem : (opts : Text) → obfs_mode (parse_plugin_opts (trim_space opts)) ≡ mode_of opts
mode_of_lem opts =
    let kv = parse_plugin_opts (trim_space opts) in
    let first = to_lower (trim_space (value_of (codes "obfs") opts)) in
    ap
      (λ x.
        let mode = to_lower (trim_space x) in
        if is_empty mode then to_lower (trim_space (option_of (codes "mode") kv)) else mode)
      (value_of_lem (codes "obfs") opts)
    ∙ ap (λ y. if is_empty first then to_lower (trim_space y) else first)
        (value_of_lem (codes "mode") opts)
    ∙ filled_or first (to_lower (trim_space (value_of (codes "mode") opts)))

obfs_path_lem :
    (given : Text) → obfs_path given ≡ (if has_prefix_byte b'/' given then given else b'/' ∷ given)
unfolding has_prefix_byte
obfs_path_lem [] = refl
obfs_path_lem (a ∷ s) = let some_path : is_empty (a ∷ s) ≡ false = ground arith in rw some_path refl

-- What `parseObfs` gives.
abbrev pub Parses : Text → Text → Result TranslateError ObfsConfig → Type 0
Parses plugin opts (ok obfs) = (is_good_plugin plugin opts ≡ true) × IsObfsOf plugin opts obfs
Parses plugin opts (err e) = is_good_plugin plugin opts ≡ false

abbrev made : Text → Text → ObfsConfig
made plugin opts =
    let kv = parse_plugin_opts (trim_space opts) in
    record {
      enabled = true;
      mode = mode_of opts;
      host = option_of (codes "obfs-host") kv;
      path = obfs_path (option_of (codes "path") kv);
    }

-- A plugin that is given and of a known name, by the mode of its options.
parse_mode :
    (plugin opts : Text)
    → has_plugin plugin opts ≡ true
    → (let name = to_lower (trim_space plugin) in
        text_eq name (codes "obfs") || text_eq name (codes "obfs-local") ≡ true)
    → parse_obfs plugin opts ≡ (
        let mode = mode_of opts in
        if is_empty mode
        then err missing_obfs_mode
        else if not (text_eq mode (codes "http"))
        then err (unsupported_obfs_mode mode)
        else ok (made plugin opts))
unfolding parse_obfs
parse_mode plugin opts given known =
    let name = to_lower (trim_space plugin) in
    let is_name : is_empty name ≡ false = ground (arith, given) in
    let are_opts : is_empty (trim_space opts) ≡ false = ground (arith, given) in
    let supported : not (text_eq name (codes "obfs")) && not (text_eq name (codes "obfs-local"))
        ≡ false =
      ground (arith, known) in
    rw (parse_obfs, is_name, are_opts, supported, mode_of_lem opts) refl

pub parse_obfs-Parses : (plugin opts : Text) → Parses plugin opts (parse_obfs plugin opts)
unfolding parse_obfs
parse_obfs-Parses plugin opts =
    let name = to_lower (trim_space plugin) in
    elim (Bool-cases (has_plugin plugin opts)) [
      | inr missing ↦
          let e : parse_obfs plugin opts ≡ ok no_obfs =
            let none_given : is_empty name || is_empty (trim_space opts) ≡ true =
              ground (arith, missing) in
            rw (parse_obfs, none_given) refl in
          rw e (rw missing refl, inl (missing, refl))
      | inl given ↦
          elim (Bool-cases (text_eq name (codes "obfs") || text_eq name (codes "obfs-local"))) [
            | inr other ↦
                let e : parse_obfs plugin opts ≡ err (unsupported_plugin name) =
                  let is_given : is_empty name || is_empty (trim_space opts) ≡ false =
                    ground (arith, given) in
                  let unknown : not (text_eq name (codes "obfs"))
                        && not (text_eq name (codes "obfs-local"))
                      ≡ true =
                    ground (arith, other) in
                  rw (parse_obfs, is_given, unknown) refl in
                rw e (rw (given, other) refl)
            | inl known ↦ elim (Bool-cases (text_eq (mode_of opts) (codes "http"))) [
              | inl http ↦
                  let filled : is_empty (mode_of opts) ≡ false =
                    rw ((text_eq_iff (mode_of opts) (codes "http")).0 http) refl in
                  let e : parse_obfs plugin opts ≡ ok (made plugin opts) =
                    parse_mode plugin opts given known ∙ rw (filled, http) refl in
                  rw e (
                    rw (given, known, http) refl,
                    inr (
                      given,
                      refl,
                      (text_eq_iff (mode_of opts) (codes "http")).0 http,
                      value_of_lem (codes "obfs-host") opts,
                      obfs_path_lem (option_of (codes "path") (parse_plugin_opts (trim_space opts)))
                          ∙ ap (λ path. if has_prefix_byte b'/' path then path else b'/' ∷ path)
                              (value_of_lem (codes "path") opts),
                    ),
                  )
              | inr other ↦
                  let bad : is_good_plugin plugin opts ≡ false = rw (given, known, other) refl in
                  elim (Bool-cases (is_empty (mode_of opts))) [
                    | inl blank ↦
                        let e : parse_obfs plugin opts ≡ err missing_obfs_mode =
                          parse_mode plugin opts given known ∙ rw blank refl in
                        rw e bad
                    | inr filled ↦
                        let e : parse_obfs plugin opts
                            ≡ err (unsupported_obfs_mode (mode_of opts)) =
                          parse_mode plugin opts given known ∙ rw (filled, other) refl in
                        rw e bad
                  ]
            ]
          ]
    ]
