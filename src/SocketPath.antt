-- ===== src/SocketPath.antt =====
-- hire-grpc/src/socket.rs: where the socket is. What `confstr` and the environment answer are
-- parameters.
use project_persona.Prelude.{
  ℕ, ◌-◌, ◌||◌, Option, none, some, [], ◌∷◌, ◌++◌, ltb, ◌==◌, if◌then◌else◌, take,
}
use project_persona.Text.{Bytes, codes}
use project_persona.Text.Decimal.{show_u64}
use project_persona.Text.Path.{join_path}

unfoldable pub socket_under : Option Bytes → ℕ → Bytes
socket_under (some dir) uid = join_path (join_path dir (codes "hire")) (codes "workload.sock")
socket_under none uid = join_path (codes "/tmp/hire-" ++ show_u64 uid) (codes "workload.sock")

-- macOS: the length that `confstr` returns counts the NUL, and the buffer has `path_max` bytes.
unfoldable pub runtime_dir_macos : (path_max written : ℕ) → Bytes → Option Bytes
runtime_dir_macos path_max written buf =
    if (written == 0) || ltb path_max written then none else some (take (written - 1) buf)

-- Elsewhere: XDG_RUNTIME_DIR, unless it is empty.
unfoldable pub runtime_dir_xdg : Option Bytes → Option Bytes
runtime_dir_xdg none = none
runtime_dir_xdg (some []) = none
runtime_dir_xdg (some (b ∷ dir)) = some (b ∷ dir)

unfoldable pub workload_socket_path : (runtime_dir : Option Bytes) (uid : ℕ) → Bytes
workload_socket_path runtime_dir uid = socket_under runtime_dir uid
