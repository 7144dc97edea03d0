-- ===== src/Audience/Stable.antt =====
-- Of hire-core/src/audience.rs: the audience that is signed, parsed again.
use project_persona.Prelude.{
  ◌≡◌, ◌≢◌, refl, ap, ◌∙◌, inl, inr, none, List, [], ◌∷◌, Option-cases, All, All-map, ok,
}
use project_persona.Text.{Bytes}
use project_persona.Text.Split.{
  Lacks, split, split_once, join, split-Lacks, split-join, split_once-append, split_once-Lacks,
  split_once-eq-some, split_once-eq-none, All-non_empty, non_empty_id,
}
use project_persona.Assurance.{PresenceLevel}
use project_persona.Audience.{AudienceExtensions, cut_query, rebuild, parse}
use project_persona.Audience.Spec.{
  presence, max_age, ordinary, Asks, nil, cons, strictest, tightest, kept,
}
use project_persona.Audience.Sound.{parse-cut, parse-asked_iff}

-- A parameter as it comes out of the split.
abbrev IsPart : Bytes → Type 0
IsPart p = Lacks b'&' p × (p ≢ [])

cut_query-parts : (raw : Bytes) → Lacks b'?' (cut_query raw).0 × All IsPart (cut_query raw).1
unfolding cut_query
cut_query-parts raw = elim (Option-cases (split_once b'?' raw)) [
  | inl e ↦ rw (e, cut_query) (split_once-eq-none b'?' raw e, tt)
  | inr ((b, q), e) ↦
      rw (e, cut_query)
        (
          (split_once-eq-some b'?' raw e).1,
          All-non_empty (Lacks b'&') (split b'&' q) (split-Lacks b'&' q),
        )
]

cut_query-rebuild :
    (base : Bytes) (ps : List Bytes)
    → Lacks b'?' base
    → All IsPart ps
    → cut_query (rebuild base ps) ≡ (base, ps)
unfolding cut_query rebuild
cut_query-rebuild base [] lack h = rw (split_once-Lacks b'?' base lack, cut_query)
cut_query-rebuild base (p ∷ ps) lack h = rw (
  split_once-append b'?' base (join b'&' (p ∷ ps)) lack,
  cut_query,
  split-join b'&' p ps (All-map (λ q w. w.0) (p ∷ ps) h),
  non_empty_id (p ∷ ps) (All-map (λ q w. w.1) (p ∷ ps) h),
)

kept-IsPart : {ps : List Bytes} (a : Asks ps) → All IsPart ps → All IsPart (kept a)
unfolding kept
kept-IsPart nil h = tt
kept-IsPart (cons (presence l s v) a) h = kept-IsPart a h.1
kept-IsPart (cons (max_age n m s v) a) h = kept-IsPart a h.1
kept-IsPart (cons (ordinary m s v k) a) h = (h.0, kept-IsPart a h.1)

-- The kept parameters ask for nothing.
kept-Asks :
    {ps : List Bytes} (a : Asks ps)
    → (b : Asks (kept a)) × (kept b ≡ kept a)
      × (strictest b ≡ PresenceLevel.none)
      × (tightest b ≡ none)
unfolding kept strictest tightest
kept-Asks nil = (nil, refl, refl, refl)
kept-Asks (cons (presence l s v) a) = kept-Asks a
kept-Asks (cons (max_age n m s v) a) = kept-Asks a
kept-Asks (cons {p} (ordinary m s v k) a) =
    let (b, same, none_named, unbounded) = kept-Asks a in
    (cons (ordinary m s v k) b, ap (◌∷◌ p) same, none_named, unbounded)

-- Parsing the bare audience of an accepted string gives the same audience, with no requirement
-- left on presence or age: nothing of the `hire_` namespace survives into it.
pub parse-audience :
    (raw : Bytes) {e : AudienceExtensions}
    → parse raw ≡ ok e
    → parse e.audience
      ≡ ok (record { audience = e.audience; require_presence = PresenceLevel.none; max_age = none })
parse-audience raw {e} h =
    let (a, is_asked) = (parse-asked_iff raw _).0 h in
    let (b, same, none_named, unbounded) = kept-Asks a in
    let (lack, parts) = cut_query-parts raw in
    let again =
      parse-cut (rebuild (cut_query raw).0 (kept a)) (cut_query raw).0 b
        (cut_query-rebuild (cut_query raw).0 (kept a) lack (kept-IsPart a parts)) in
    rw is_asked (
      again
      ∙ ap ok (λ i. record {
        audience = rebuild (cut_query raw).0 (same i);
        require_presence = none_named i;
        max_age = unbounded i;
      }))
