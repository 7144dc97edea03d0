-- ===== src/Tests/Registry.antt =====
-- Every source but the account's lists nothing.
use project_persona.Prelude.{ℕ, List, ◌≢◌, ◌≡◌, ◌⊎◌, refl, arith, true, false, ok, err, [], ◌∷◌}
use project_persona.Text.{Bytes, codes}
use project_persona.Agent.{AttestorError}
use project_persona.Claim.{Claim}
use project_persona.Service.{Attestor}
use project_persona.Unix.{UnixAttestor, attestor}
use project_persona.Unix.Account.{account_claim}
use project_persona.Registry.{Probed, probe_sources}
use project_persona.Registry.Last.{others, and_last, claims_of, claims_of-unix_last}

abbrev ada : UnixAttestor
ada = record { uid = 1000; display_name = codes "ada" }

abbrev show : AttestorError → Bytes
show e = codes "refused"

abbrev nothing : Attestor
nothing = record { name = codes "nothing"; enumerate = ok []; prove = λ before c challenge. err [] }

abbrev probed : Probed
probed = record {
  tailscale_available = true;
  ssh_available = false;
  did_key_available = false;
  gpg_available = true;
  fido2_available = false;
  goa_available = false;
  piv_available = false;
  tailscale = nothing;
  ssh = nothing;
  oidc = nothing;
  did_key = nothing;
  gpg = nothing;
  fido2 = nothing;
  goa = nothing;
  piv = nothing;
  unix = attestor show ada 1000 7;
}

claims_of-unix_last_example :
    (ks : List Claim) × (claims_of (codes "asked") (others probed) ≡ ok ks)
    × (((◌≡◌ {A = ℕ} 1000 1000)
          × (claims_of (codes "asked") (probe_sources probed)
              ≡ ok (and_last ks (account_claim ada 7))))
        ⊎ ((◌≢◌ {A = ℕ} 1000 1000) × (claims_of (codes "asked") (probe_sources probed) ≡ ok ks)))
claims_of-unix_last_example =
    claims_of-unix_last show ada 1000 7 probed (codes "asked") refl (omega arith) (omega arith)

probe_sources-probed :
    probe_sources probed ≡ nothing ∷ nothing ∷ nothing ∷ attestor show ada 1000 7 ∷ []
unfolding probe_sources
probe_sources-probed = refl
