-- ===== src/Panel/Caching.antt =====
-- internal/provider/xboard/client.go, `getJSON` and `getUsers`: the tags and the 304 answers. An
-- `Endpoint` is a panel whose tag names its contents, as RFC 9110 asks of a strong ETag.
use small_x.Base.{
  Text, [], ◌∷◌, ◌≡◌, ◌≢◌, refl, sym, subst, ◌∙◌, ap, ◌++◌, true, false, none, some, none, Option,
  Result, ok, err, ◌⊎◌, inl, inr, Bool-cases, arith, text_keys, text_eq, text_eq-eq, text_eq_refl,
  ◌==◌, length, nat_eq, if◌then◌else◌,
}
use small_x.Base.Map.{lookup-insert}
use small_x.Panel.{
  Client, ClientError, Codec, Panel, Request, Response, get_etag, set_etag, keep_etag, decoded,
  make_url, get_request, log_request, take_answer, conditional_get, transport_failed,
}

pub record Endpoint {A : Type 0} (decode : Response → Result ClientError A) : Type 0 where
  pub value : Text → A
  pub answer : Text → Response
  pub fine : (t : Text) → (answer t).status ≡ 200
  pub tagged : (t : Text) → (answer t).etag ≡ t
  pub decodes : (t : Text) → decode (answer t) ≡ ok (value t)

abbrev pub unmodified : Response
unmodified = record { status = 304; etag = []; content_type = []; body = [] }

module _ {A : Type 0} {decode : Response → Result ClientError A} (e : Endpoint decode) where
  abbrev pub respond : Text → Text → Response
  respond t asked = if text_eq asked t then unmodified else e.answer t

  -- The panel serves the contents of the tag `t` at `url`.
  abbrev pub Serves : Text → Text → Panel → Type 0
  Serves url t panel = (r : Request) → r.url ≡ url → panel r ≡ some (respond t r.if_none_match)

get_etag-set_etag :
    (c : Client) (key value asked : Text)
    → get_etag (set_etag c key value) asked ≡ (if key == asked then value else get_etag c asked)
unfolding get_etag set_etag
get_etag-set_etag c key value asked = ground (arith, lookup-insert key asked value c.etags)

-- What a conditional request leaves of the client.
abbrev pub Keeps : Text → Text → Client → Client → Type 0
Keeps key t c c' =
    (get_etag c' key ≡ t)
    × ((j : Text) → (key == j) ≡ false → get_etag c' j ≡ get_etag c j)
    × (c'.cfg ≡ c.cfg)

set_etag-Keeps : (c : Client) (key t : Text) → Keeps key t c (set_etag c key t)
unfolding get_etag set_etag
set_etag-Keeps c key t = (
  ground (arith, get_etag-set_etag c key t key, text_eq_refl key),
  λ j other. ground (arith, get_etag-set_etag c key t j, other),
  refl,
)

some_length : (t : Text) → t ≢ [] → nat_eq (length t) 0 ≡ false
some_length [] n = absurd (n refl)
some_length (b ∷ t) n = ground arith

keep_etag-Keeps :
    (c : Client) (key : Text) (r : Response) → r.etag ≢ [] → Keeps key r.etag c (keep_etag c key r)
unfolding keep_etag
keep_etag-Keeps c key r some_tag = rw (some_length r.etag some_tag) (set_etag-Keeps c key r.etag)

take_answer_fine :
    {A : Type 0} (decode : Response → Result ClientError A) (key : Text) (c : Client) (r : Response)
    → r.status ≡ 200
    → take_answer decode key c r ≡ (keep_etag c key r, decoded (decode r))
unfolding take_answer
take_answer_fine decode key c r fine = ground (arith, fine)

conditional_get-answered :
    {A : Type 0} (codec : Codec) (decode : Response → Result ClientError A) (path key accept : Text)
    (panel : Panel) (c : Client) (r : Response)
    → codec.is_url (make_url c path) ≡ true
    → panel (get_request c path key accept) ≡ some r
    → conditional_get codec decode path key accept panel c
      ≡ take_answer decode key (log_request c (get_request c path key accept)) r
unfolding conditional_get get_request
conditional_get-answered codec decode path key accept panel c r known answers =
    rw (known, answers) refl

pub conditional_get_down :
    {A : Type 0} (codec : Codec) (decode : Response → Result ClientError A) (path key accept : Text)
    (panel : Panel) (c : Client)
    → codec.is_url (make_url c path) ≡ true
    → ((r : Request) → panel r ≡ none)
    → conditional_get codec decode path key accept panel c
      ≡ (log_request c (get_request c path key accept), err transport_failed)
unfolding conditional_get get_request
conditional_get_down codec decode path key accept panel c known down =
    rw (known, down (get_request c path key accept)) refl

-- A request to a panel that serves the contents of the tag `t`: either the client had this tag and
-- is told that nothing is new, or it gets the contents. It has the tag then, and no other changes.
module _ (codec : Codec) {A : Type 0} {decode : Response → Result ClientError A}
    (e : Endpoint decode) where
  abbrev pub IsCurrent : Text → Text → Client → Client × Result ClientError (Option A) → Type 0
  IsCurrent key t c (c', r) =
      Keeps key t c c'
      × (((r ≡ ok none) × (get_etag c key ≡ t))
          ⊎ ((r ≡ ok (some (e.value t))) × (get_etag c key ≢ t)))

  answer-IsCurrent :
      (key t : Text) (c : Client) (asked : Text)
      → t ≢ []
      → get_etag c key ≡ asked
      → IsCurrent key t c (take_answer decode key c (respond e t asked))
  unfolding take_answer
  answer-IsCurrent key t c asked some_tag same = elim (Bool-cases (text_eq asked t)) [
    | inl h ↦
        let old : get_etag c key ≡ t = same ∙ text_eq-eq asked t h in
        rw h ((old, (λ j other. refl), refl), inl (refl, old))
    | inr h ↦
        let kept : Keeps key t c (keep_etag c key (e.answer t)) =
          subst (λ tag. Keeps key tag c (keep_etag c key (e.answer t))) (e.tagged t)
            (keep_etag-Keeps c key (e.answer t) (λ no_tag. some_tag (sym (e.tagged t) ∙ no_tag))) in
        rw h (
          subst (IsCurrent key t c) (sym (take_answer_fine decode key c (e.answer t) (e.fine t)))
            (kept, inr (ap decoded (e.decodes t), λ old. cc (h, text_eq_refl t, sym same ∙ old))))
  ]

  pub conditional_get-IsCurrent :
      (path key accept : Text) (panel : Panel) (t : Text) (c : Client)
      → codec.is_url (make_url c path) ≡ true
      → t ≢ []
      → Serves e (make_url c path) t panel
      → IsCurrent key t c (conditional_get codec decode path key accept panel c)
  unfolding get_etag get_request
  conditional_get-IsCurrent path key accept panel t c known some_tag serves =
      let r = get_request c path key accept in
      subst (IsCurrent key t c)
        (sym
          (conditional_get-answered codec decode path key accept panel c _ known (serves r refl)))
        (answer-IsCurrent key t (log_request c r) r.if_none_match some_tag refl)

  pub conditional_get_same :
      (path key accept : Text) (panel : Panel) (t : Text) (c : Client)
      → codec.is_url (make_url c path) ≡ true
      → t ≢ []
      → Serves e (make_url c path) t panel
      → get_etag c key ≡ t
      → (conditional_get codec decode path key accept panel c).1 ≡ ok none
  conditional_get_same path key accept panel t c known some_tag serves old =
      elim (conditional_get-IsCurrent path key accept panel t c known some_tag serves).1 [
        | inl (nothing_new, same) ↦ nothing_new
        | inr (new_one, other) ↦ absurd (other old)
      ]

  -- The tag of an answer is kept before its body is decoded: when an answer of status 200 with the
  -- tag `t` does not decode, the fetch fails, and while the panel serves the contents of `t`, the
  -- next fetch succeeds with nothing new, so that these contents are not taken.
  pub conditional_get-undecoded :
      (path key accept : Text) (panel later : Panel) (t : Text) (r : Response) (f : ClientError)
      (c : Client)
      → codec.is_url (make_url c path) ≡ true
      → t ≢ []
      → panel (get_request c path key accept) ≡ some r
      → r.status ≡ 200
      → r.etag ≡ t
      → decode r ≡ err f
      → Serves e (make_url c path) t later
      → let after = conditional_get codec decode path key accept panel c in
        (after.1 ≡ err f)
        × ((conditional_get codec decode path key accept later after.0).1 ≡ ok none)
  unfolding get_request take_answer
  conditional_get-undecoded path key accept panel later t r f c known some_tag answers fine tag
        fails serves =
      let logged = log_request c (get_request c path key accept) in
      let again = keep_etag logged key r in
      let kept : Keeps key t logged again =
        subst (λ tag. Keeps key tag logged again) tag
          (keep_etag-Keeps logged key r (λ no_tag. some_tag (sym tag ∙ no_tag))) in
      let first : conditional_get codec decode path key accept panel c ≡ (again, err f) =
        conditional_get-answered codec decode path key accept panel c r known answers
        ∙ take_answer_fine decode key logged r fine
        ∙ ap (λ d. (again, decoded d)) fails in
      let same_url : make_url again path ≡ make_url c path =
        ap (λ cfg. cfg.base_url ++ path) kept.2 in
      let known_again : codec.is_url (make_url again path) ≡ true = rw same_url known in
      let asked = get_request again path key accept in
      let same_tag : text_eq asked.if_none_match t ≡ true = rw kept.0 (text_eq_refl t) in
      let answered : later asked ≡ some unmodified = serves asked same_url ∙ rw same_tag refl in
      let second =
        conditional_get-answered codec decode path key accept later again unmodified known_again
          answered in
      (
        ap (λ q. q.1) first,
        ap (λ q. (conditional_get codec decode path key accept later q.0).1) first
            ∙ ap (λ q. q.1) second,
      )
