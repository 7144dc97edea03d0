-- ===== src/Tests.antt =====
-- Runs of the definitions at inputs of the repository's own tests, and the theorems at inputs that
-- meet their hypotheses.
mod Agent
mod Audience
mod Bundle
mod Claim
mod Consumer
mod DidKey
mod Gpg
mod Hint
mod Nmh
mod Oidc
mod Peer
mod Possession
mod Registry
mod Server
mod Service
mod Signer
mod Sources
mod SpiffeId
mod Tailscale
mod Twins
mod Unix
