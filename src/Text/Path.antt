-- ===== src/Text/Path.antt =====
-- Paths: `Path::join` with a relative name.
use project_persona.Prelude.{Bool, false, [], ◌∷◌, ◌++◌, ◌==◌, if◌then◌else◌}
use project_persona.Text.{Bytes}

abbrev ends_in_slash : Bytes → Bool
ends_in_slash [] = false
ends_in_slash (b ∷ []) = b == b'/'
ends_in_slash (b ∷ c ∷ s) = ends_in_slash (c ∷ s)

unfoldable pub join_path : Bytes → Bytes → Bytes
join_path [] name = name
join_path (b ∷ s) name = if ends_in_slash (b ∷ s) then (b ∷ s) ++ name else (b ∷ s) ++ b'/' ∷ name
