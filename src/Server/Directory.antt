-- ===== src/Server/Directory.antt =====
-- hire-grpc/src/server.rs: `prepare_socket_dir`, the directory that a daemon puts its socket in.
use project_persona.Prelude.{
  ℕ, Bool, true, false, not, ◌&&◌, ◌%◌, ◌/◌, ◌==◌, if◌then◌else◌, Result, ok, err, ◌≡◌, refl, ◌⊎◌,
  inl, inr, subst, ok-injective, Bool-cases, &&_parts, ==_iff, arith,
}
use project_persona.Server.{ServeError, socket_dir_not_a_directory, socket_dir_not_ours, socket_dir}

-- What `std::fs::metadata` says of a path: its mode without the type's bits, and its owner.
pub record Metadata : Type 0 where
  pub is_dir : Bool
  pub uid : ℕ
  pub mode : ℕ

pub data Lookup : Type 0 where
  found : Metadata → Lookup
  not_found other_error : Lookup

-- `mode & 0o077`, and `mode & 0o1000`.
abbrev pub open_to_others : ℕ → Bool
open_to_others mode = not (mode % 64 == 0)

abbrev pub is_sticky : ℕ → Bool
is_sticky mode = not ((mode / 512) % 2 == 0)

-- 0o700
abbrev pub private_mode : ℕ
private_mode = 448

-- `set_permissions(dir, 0o700)`, with the system's answer.
unfoldable pub tighten : Bool → Metadata → Result ServeError Metadata
tighten true md = ok (record md { mode = private_mode })
tighten false md = err socket_dir

unfoldable pub accept_existing : (uid : ℕ) (chmod : Bool) → Metadata → Result ServeError Metadata
unfolding tighten
accept_existing uid chmod md =
    if not md.is_dir
    then err socket_dir_not_a_directory
    else (if md.uid == uid
        then (if open_to_others md.mode then tighten chmod md else ok md)
        else (if not ((md.uid == 0) && is_sticky md.mode)
            then err (socket_dir_not_ours md.uid uid)
            else ok md))

-- `DirBuilder` with mode 0700 under the process's umask, with the system's answer.
unfoldable pub create_dir : (masked : ℕ → ℕ) (uid : ℕ) (mkdir : Bool) → Result ServeError Metadata
create_dir masked uid true = ok (record { is_dir = true; uid = uid; mode = masked private_mode })
create_dir masked uid false = err socket_dir

-- The directory that stands at the path when the call returns.
unfoldable pub prepare_socket_dir :
    (masked : ℕ → ℕ) (uid : ℕ) (mkdir chmod : Bool) → Lookup → Result ServeError Metadata
unfolding create_dir accept_existing
prepare_socket_dir masked uid mkdir chmod (found md) = accept_existing uid chmod md
prepare_socket_dir masked uid mkdir chmod not_found = create_dir masked uid mkdir
prepare_socket_dir masked uid mkdir chmod other_error = err socket_dir

-- Only this user, or the kernel for them, decides what stands in such a directory.
abbrev pub Trusted : ℕ → Metadata → Type 0
Trusted uid md =
    (md.is_dir ≡ true)
    × (((md.uid ≡ uid) × (md.mode % 64 ≡ 0)) ⊎ ((md.uid ≡ 0) × ((md.mode / 512) % 2 ≡ 1)))

tighten-Trusted :
    (uid : ℕ) (chmod : Bool) (md kept : Metadata)
    → md.is_dir ≡ true
    → md.uid ≡ uid
    → tighten chmod md ≡ ok kept
    → Trusted uid kept
unfolding tighten
tighten-Trusted uid true md kept is_dir own h =
    subst (Trusted uid) (ok-injective h) (is_dir, inl (own, refl))
tighten-Trusted uid false md kept is_dir own h = absurd cc

closed : (mode : ℕ) → open_to_others mode ≡ false → mode % 64 ≡ 0
closed mode h = ground arith

sticky_odd : (n : ℕ) → not (n % 2 == 0) ≡ true → n % 2 ≡ 1
sticky_odd n h = ground arith

accept_existing-Trusted :
    (uid : ℕ) (chmod : Bool) (md kept : Metadata)
    → accept_existing uid chmod md ≡ ok kept
    → Trusted uid kept
unfolding accept_existing
accept_existing-Trusted uid chmod md kept h = elim (Bool-cases md.is_dir) [
  | inr file ↦ absurd (cc (rw (file) at h))
  | inl dir ↦ elim (Bool-cases (md.uid == uid)) [
    | inl own ↦ elim (Bool-cases (open_to_others md.mode)) [
      | inl wide ↦
          tighten-Trusted uid chmod (record md { is_dir = true }) kept refl
            ((==_iff md.uid uid).0 own) (rw (dir, own, wide) at h)
      | inr narrow ↦
          subst (Trusted uid) (ok-injective (rw (dir, own, narrow) at h))
            (refl, inl ((==_iff md.uid uid).0 own, closed md.mode narrow))
    ]
    | inr other ↦ elim (Bool-cases ((md.uid == 0) && is_sticky md.mode)) [
      | inl shared ↦ subst (Trusted uid) (ok-injective (rw (dir, other, shared) at h)) (
        refl,
        inr (
          (==_iff md.uid 0).0 (&&_parts _ _ shared).0,
          sticky_odd (md.mode / 512) (&&_parts _ _ shared).1,
        ),
      )
      | inr foreign ↦ absurd (cc (rw (dir, other, foreign) at h))
    ]
  ]
]

-- The umask only takes bits away: of a mode that gives the others nothing it leaves them nothing.
-- Then the directory that `prepare_socket_dir` accepts, finds or makes is a directory, and either
-- belongs to this user with no permission for anyone else, or belongs to root and is sticky.
pub prepare_socket_dir-Trusted :
    (masked : ℕ → ℕ) (uid : ℕ) (mkdir chmod : Bool) (there : Lookup) (kept : Metadata)
    → ((m : ℕ) → m % 64 ≡ 0 → masked m % 64 ≡ 0)
    → prepare_socket_dir masked uid mkdir chmod there ≡ ok kept
    → Trusted uid kept
unfolding prepare_socket_dir create_dir
prepare_socket_dir-Trusted masked uid mkdir chmod (found md) kept clears h =
    accept_existing-Trusted uid chmod md kept h
prepare_socket_dir-Trusted masked uid true chmod not_found kept clears h =
    subst (Trusted uid) (ok-injective h) (refl, inl (refl, clears private_mode refl))
prepare_socket_dir-Trusted masked uid false chmod not_found kept clears h = absurd cc
prepare_socket_dir-Trusted masked uid mkdir chmod other_error kept clears h = absurd cc
