-- ===== src/Tests/Oidc.antt =====
-- A gcloud file whose JSON is the token itself, with a payload that is the subject.
use project_persona.Prelude.{
  ◌≡◌, refl, none, some, ok, err, [], ◌∷◌, Option, if◌then◌else◌, length, All,
}
use project_persona.Text.{Bytes, codes, same}
use project_persona.Text.Split.{split_once}
use project_persona.Claim.{
  Candidate, new_candidate, with_attainable, with_proof_cost, duration_since,
}
use project_persona.Agent.{challenge_failed}
use project_persona.Oidc.{
  prove, fresh, Json, Caches, gcloud_adc, now_unix, parse_jwt_payload, text_at, u64_at, is_after,
  token_is_unexpired, candidate_named, candidate_from_jwt, push_token, read_json, push_gcloud,
  push_azure, scan_home, scan_token_caches, scan_token_caches_off_reactor, enumerate, find_path,
  judge, freshness,
}
use project_persona.Oidc.Cached.{Held, freshness-Held}
use project_persona.Oidc.Listing.{Listed, enumerate-Listed}

abbrev json : Json Bytes
json = record {
  decode = some;
  from_slice = some;
  from_str = some;
  get = λ v key. if same key (codes "email") then none else some v;
  as_str = some;
  as_u64 = λ v. some (length v);
  values = λ v. none;
  as_array = λ v. none;
}

abbrev read_to_string : Bytes → Option Bytes
read_to_string path =
    if same path (gcloud_adc (codes "/home/a")) then some (codes "h.alice.s") else none

abbrev caches : Caches
caches = record { home = some (codes "/home/a"); read_to_string = read_to_string; panicked = none }

abbrev alice : Candidate
alice = candidate_named json (codes "alice") (codes "alice")

enumerate-alice : enumerate json caches ≡ ok (alice ∷ [])
unfolding enumerate scan_token_caches_off_reactor scan_token_caches scan_home push_gcloud push_azure
    read_json push_token text_at candidate_from_jwt parse_jwt_payload split_once same
enumerate-alice = refl

freshness-fresh : freshness json caches 4000000000 0 alice ≡ ok fresh
unfolding freshness scan_token_caches_off_reactor scan_token_caches scan_home push_gcloud push_azure
    read_json push_token text_at candidate_from_jwt parse_jwt_payload split_once find_path judge
    token_is_unexpired u64_at is_after now_unix duration_since same candidate_named new_candidate
    with_attainable with_proof_cost
freshness-fresh = refl

freshness-Held_example : Held json caches 4000000000 0 alice
freshness-Held_example = freshness-Held json caches 4000000000 0 alice freshness-fresh

enumerate-Listed_example : All (Listed json caches 4000000000 0) (alice ∷ [])
enumerate-Listed_example = enumerate-Listed json caches 4000000000 0 (alice ∷ []) enumerate-alice

prove-declines :
    prove alice [] ≡ err (challenge_failed (codes "oidc-cached cannot produce evidence"))
unfolding prove
prove-declines = refl
