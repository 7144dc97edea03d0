-- ===== src/Consumer/Keys.antt =====
-- Which consumers share a selector key.
use mathlib.Core.Path.{ap₂}
use mathlib.Core.List.{append_cancel_left}
use project_persona.Prelude.{ℕ, ◌≡◌, sym, ap, ◌∙◌, some, some-injective, [], ◌∷◌, ◌++◌, arith, All}
use project_persona.Text.{Bytes, codes}
use project_persona.Text.Hex.{IsByte, hex-injective}
use project_persona.Text.Split.{Lacks, split_once, split_once-append}
use project_persona.Consumer.{
  ConsumerIdentity, binary_sha256, macos_bundle_id, flatpak_app, snap_name, chrome_extension,
  selector_key,
}

-- A hash is made of bytes, and a bundle identifier has no colon.
abbrev pub IsNamedApart : ConsumerIdentity → Type 0
IsNamedApart (binary_sha256 hash) = All IsByte hash
IsNamedApart (macos_bundle_id bundle_id team_id) = Lacks b':' bundle_id
IsNamedApart _ = Unit

abbrev first_byte : Bytes → ℕ
first_byte [] = 0
first_byte (x ∷ s) = x

bundle-injective :
    (a b x y : Bytes)
    → Lacks b':' a
    → Lacks b':' b
    → a ++ (codes ":team_id:" ++ x) ≡ b ++ (codes ":team_id:" ++ y)
    → (a ≡ b) × (x ≡ y)
bundle-injective a b x y ha hb h =
    let cut : some (a, codes "team_id:" ++ x) ≡ some (b, codes "team_id:" ++ y) =
      sym (split_once-append b':' a (codes "team_id:" ++ x) ha)
      ∙ ap (split_once b':') h
      ∙ split_once-append b':' b (codes "team_id:" ++ y) hb in
    let both = some-injective cut in
    (ap (λ p. p.0) both, append_cancel_left (codes "team_id:") x y (ap (λ p. p.1) both))

-- Two consumers with one selector key are one, where a hash is made of bytes and a bundle
-- identifier has no colon.
pub selector_key-injective :
    (a b : ConsumerIdentity)
    → IsNamedApart a
    → IsNamedApart b
    → selector_key a ≡ selector_key b
    → a ≡ b
unfolding selector_key
selector_key-injective (binary_sha256 x) (binary_sha256 y) ha hb h =
    ap binary_sha256 (hex-injective x y ha hb (append_cancel_left (codes "binary_sha256:") _ _ h))
selector_key-injective (macos_bundle_id x s) (macos_bundle_id y t) ha hb h =
    let (p, q) =
      bundle-injective x y s t ha hb (append_cancel_left (codes "macos:bundle_id:") _ _ h) in
    ap₂ macos_bundle_id p q
selector_key-injective (flatpak_app x) (flatpak_app y) ha hb h =
    ap flatpak_app (append_cancel_left (codes "flatpak:app:") x y h)
selector_key-injective (snap_name x) (snap_name y) ha hb h =
    ap snap_name (append_cancel_left (codes "snap:name:") x y h)
selector_key-injective (chrome_extension x) (chrome_extension y) ha hb h =
    ap chrome_extension (append_cancel_left (codes "chrome_extension:id:") x y h)
selector_key-injective a b ha hb h = absurd (omega (arith, ap first_byte h))
