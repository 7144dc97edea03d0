-- ===== src/Registry.antt =====
-- hire-attestors/src/registry.rs: `probe_sources`, with what each availability check answers.
pub mod Last
use project_persona.Prelude.{Bool, true, false, List, [], ◌∷◌, ◌++◌}
use project_persona.Service.{Attestor}

pub record Probed : Type 0 where
  pub tailscale_available : Bool
  pub ssh_available : Bool
  pub did_key_available : Bool
  pub gpg_available : Bool
  pub fido2_available : Bool
  pub goa_available : Bool
  pub piv_available : Bool
  pub tailscale : Attestor
  pub ssh : Attestor
  pub oidc : Attestor
  pub did_key : Attestor
  pub gpg : Attestor
  pub fido2 : Attestor
  pub goa : Attestor
  pub piv : Attestor
  pub unix : Attestor

abbrev pub push_if : Bool → Attestor → List Attestor → List Attestor
push_if true a rest = a ∷ rest
push_if false a rest = rest

unfoldable pub probe_sources : Probed → List Attestor
probe_sources p = push_if p.tailscale_available p.tailscale (
    push_if p.ssh_available p.ssh (
      p.oidc
      ∷ push_if p.did_key_available p.did_key (
          push_if p.gpg_available p.gpg (
            push_if p.fido2_available p.fido2
              (push_if p.goa_available p.goa (push_if p.piv_available p.piv (p.unix ∷ [])))))))
