-- ===== src/Consumer.antt =====
-- hire-core/src/consumer.rs: the attested process that asks, and the key that names it.
pub mod Keys
use project_persona.Prelude.{ℕ, ◌++◌, ◌∷◌}
use project_persona.Text.{Bytes, codes}
use project_persona.Text.Hex.{hex}

pub data ConsumerIdentity : Type 0 where
  binary_sha256 : Bytes → ConsumerIdentity
  macos_bundle_id : Bytes → Bytes → ConsumerIdentity
  flatpak_app snap_name chrome_extension : Bytes → ConsumerIdentity

unfoldable pub selector_key : ConsumerIdentity → Bytes
selector_key (binary_sha256 hash) = codes "binary_sha256:" ++ hex hash
selector_key (macos_bundle_id bundle_id team_id) =
    codes "macos:bundle_id:" ++ (bundle_id ++ (codes ":team_id:" ++ team_id))
selector_key (flatpak_app id) = codes "flatpak:app:" ++ id
selector_key (snap_name name) = codes "snap:name:" ++ name
selector_key (chrome_extension id) = codes "chrome_extension:id:" ++ id
