-- ===== src/SpiffeId.antt =====
-- hire-core/src/spiffe_id.rs: SPIFFE identifiers and the trust domains that they stand under.
pub mod Domain
pub mod Uri
pub mod Provenance
use project_persona.Prelude.{
  ℕ, ◌≡◌, Bool, true, false, ◌&&◌, ◌||◌, Option, none, some, List, [], ◌∷◌, ◌++◌, leb, ◌==◌,
  if◌then◌else◌, Result, ok, err, ◌>>=◌, ok_or,
}
use project_persona.Text.{Bytes, codes, same}
use project_persona.Text.Split.{strip_prefix, split_once}

pub data SpiffeIdError : Type 0 where
  missing_scheme missing_trust_domain missing_path : SpiffeIdError
  unknown_trust_domain illegal_trust_domain : Bytes → SpiffeIdError

pub data TrustDomain : Type 0 where
  tailscale : TrustDomain
  org_oidc personal_did piv_issuer : Bytes → TrustDomain
  ssh_local pgp_local : TrustDomain

-- `Display for TrustDomain`.
unfoldable pub show_domain : TrustDomain → Bytes
show_domain tailscale = codes "tailscale"
show_domain (org_oidc domain) = codes "oidc." ++ domain
show_domain (personal_did did) = codes "personal." ++ did
show_domain (piv_issuer issuer) = codes "piv." ++ issuer
show_domain ssh_local = codes "ssh.local"
show_domain pgp_local = codes "pgp.local"

pub record SpiffeId : Type 0 where
  pub trust_domain : TrustDomain
  pub path : Bytes

abbrev pub scheme : Bytes
scheme = codes "spiffe://"

unfoldable pub uri : SpiffeId → Bytes
uri id = scheme ++ (show_domain id.trust_domain ++ b'/' ∷ id.path)

-- `rsplit_once`: the cut at the last such byte.
unfoldable pub rsplit_once : ℕ → Bytes → Option (Bytes × Bytes)
rsplit_once c [] = none
rsplit_once c (x ∷ xs) =
    let rest = rsplit_once c xs in
    elim rest [ some (a, b) ↦ some (x ∷ a, b) | none ↦ if x == c then some ([], xs) else none ]

-- `ends_with`.
unfoldable pub ends_with : Bytes → Bytes → Bool
ends_with suffix [] = same suffix []
ends_with suffix (x ∷ xs) = same suffix (x ∷ xs) || ends_with suffix xs

unfoldable pub provenance : SpiffeId → Option Bytes
provenance id = elim (rsplit_once b'/' id.path) [
  | none ↦ none
  | some (prefix, source) ↦
      if same prefix (codes "via") || ends_with (codes "/via") prefix then some source else none
]

unfoldable pub pseudonymous : TrustDomain → Bytes → SpiffeId
pseudonymous domain hkdf_id = record { trust_domain = domain; path = codes "pseudonym/" ++ hkdf_id }

-- `b.is_ascii_lowercase() || b.is_ascii_digit() || b".-_".contains(&b)`.
unfoldable pub is_domain_byte : ℕ → Bool
is_domain_byte b =
    (leb b'a' b && leb b b'z') || (leb b'0' b && leb b b'9') || b == b'.' || b == b'-' || b == b'_'

unfoldable pub all_domain_bytes : Bytes → Bool
all_domain_bytes [] = true
all_domain_bytes (b ∷ bs) = is_domain_byte b && all_domain_bytes bs

unfoldable pub is_empty : Bytes → Bool
is_empty [] = true
is_empty (x ∷ xs) = false

-- The labelled namespaces: the whole first label, and something behind its dot.
unfoldable pub labelled : Bytes → Bytes → Bytes → Result SpiffeIdError TrustDomain
labelled s label rest =
    if is_empty rest
    then err (unknown_trust_domain s)
    else if same label (codes "personal")
    then ok (personal_did rest)
    else if same label (codes "piv")
    then ok (piv_issuer rest)
    else if same label (codes "oidc")
    then ok (org_oidc rest)
    else err (unknown_trust_domain s)

-- The `match` behind the checks.
unfoldable pub named_domain : Bytes → Result SpiffeIdError TrustDomain
named_domain s =
    if same s (codes "tailscale")
    then ok tailscale
    else if same s (codes "ssh.local")
    then ok ssh_local
    else if same s (codes "pgp.local")
    then ok pgp_local
    else elim (split_once b'.' s) [
      | none ↦ err (unknown_trust_domain s)
      | some (label, rest) ↦ labelled s label rest
    ]

-- `FromStr for TrustDomain`.
unfoldable pub parse_domain : Bytes → Result SpiffeIdError TrustDomain
parse_domain s =
    if is_empty s
    then err missing_trust_domain
    else if all_domain_bytes s
    then named_domain s
    else err (illegal_trust_domain s)

-- The two halves of a URI behind its scheme, each of them checked for emptiness first.
unfoldable pub parse_halves : Bytes → Bytes → Result SpiffeIdError SpiffeId
parse_halves td_str path =
    if is_empty td_str
    then err missing_trust_domain
    else if is_empty path
    then err missing_path
    else do domain ← parse_domain td_str; ok (record { trust_domain = domain; path = path })

-- `FromStr for SpiffeId`.
unfoldable pub parse : Bytes → Result SpiffeIdError SpiffeId
parse s = do
  rest ← ok_or missing_scheme (strip_prefix scheme s)
  (td_str, path) ← ok_or missing_path (split_once b'/' rest)
  parse_halves td_str path
