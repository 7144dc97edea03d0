-- ===== src/Tests/Consumer.antt =====
-- Consumers, and the pseudonyms that they are given.
use project_persona.Prelude.{◌%◌, ◌≡◌, refl, arith, [], ◌∷◌, length}
use project_persona.Text.{Bytes, codes}
use project_persona.Text.Split.{Lacks-by}
use project_persona.SpiffeId.{SpiffeId, org_oidc, is_domain_byte, all_domain_bytes, is_empty}
use project_persona.SpiffeId.Uri.{IsNameable}
use project_persona.Consumer.{ConsumerIdentity, macos_bundle_id, selector_key}
use project_persona.Consumer.Keys.{selector_key-injective}
use project_persona.Pseudonym.{Hkdf}
use project_persona.Pseudonym.Apart.{ReturnsBytes, derive_pseudonymous_id-injective}

abbrev mail : ConsumerIdentity
mail = macos_bundle_id (codes "com.example.app") (codes "ABCDE12345")

selector_key-mail : selector_key mail ≡ codes "macos:bundle_id:com.example.app:team_id:ABCDE12345"
unfolding selector_key
selector_key-mail = refl

-- Where a bundle identifier may hold a colon, two consumers share a key.
shared_key :
    selector_key (macos_bundle_id (codes "a:team_id:b") (codes "c"))
    ≡ selector_key (macos_bundle_id (codes "a") (codes "b:team_id:c"))
unfolding selector_key
shared_key = refl

selector_key-injective_example : mail ≡ mail
selector_key-injective_example =
    selector_key-injective mail mail (Lacks-by b':' (codes "com.example.app") refl)
      (Lacks-by b':' (codes "com.example.app") refl) refl

-- A stand-in for the key derivation: a digest of what it is given.
abbrev digest : Hkdf
digest salt ikm info = length ikm % 256 ∷ length info % 256 ∷ []

digest-ReturnsBytes : ReturnsBytes digest
digest-ReturnsBytes salt ikm info = (omega arith, (omega arith, tt))

abbrev key : Bytes
key = codes "0123456789abcdef0123456789abcdef"

abbrev root : SpiffeId
root = record { trust_domain = org_oidc (codes "corp.example"); path = codes "ada" }

root-IsNameable : IsNameable root
unfolding is_empty all_domain_bytes is_domain_byte
root-IsNameable = ((refl, refl), refl)

derive_pseudonymous_id-injective_example : (key ≡ key) × (root ≡ root) × (mail ≡ mail)
derive_pseudonymous_id-injective_example =
    derive_pseudonymous_id-injective digest digest-ReturnsBytes key key root root mail mail refl
      refl root-IsNameable root-IsNameable (Lacks-by b':' (codes "com.example.app") refl)
      (Lacks-by b':' (codes "com.example.app") refl) (λ q. (refl, refl)) refl
