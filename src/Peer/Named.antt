-- ===== src/Peer/Named.antt =====
-- Which peers get a name, and what name.
use mathlib.Core.List.{append_assoc}
use project_persona.Prelude.{
  ℕ, ◌≡◌, refl, sym, ap, ◌∙◌, ◌↔◌, true, Option, none, some, List, [], ◌∷◌, ◌++◌, ◌==◌, ok, err,
  ◌>>=◌, Result-cases, some-injective, subst, ◌⊎◌, ok-injective, >>=-eq-ok, Bool-cases,
  Option-cases, ==_iff, inl, inr, arith, append_nil,
}
use project_persona.Text.{Bytes}
use project_persona.Consumer.{ConsumerIdentity, binary_sha256}
use project_persona.Claim.{SystemTime}
use project_persona.Issue.{consumer_unattested}
use project_persona.Service.{WorkloadApiService, JwtsvidRequest, fetch_jwtsvid, check_request}
use project_persona.Peer.{
  System, UCred, AttestError, exe_path_for_pid, hash_reads, hash_file, attest_pid, attest_peer,
  attested, identity_or_none, accept, fetch_over,
}

-- What a file holds whose reads these are: what they put in the buffer up to the first that puts
-- nothing there, none of them an error.
pub data ReadsAs : List (Option Bytes) → Bytes → Type 0 where
  ended : ReadsAs [] []
  stopped_short : {reads : List (Option Bytes)} → ReadsAs (some [] ∷ reads) []
  more :
      {b : ℕ} {bs : Bytes} {reads : List (Option Bytes)} {content : Bytes}
      → ReadsAs reads content
      → ReadsAs (some (b ∷ bs) ∷ reads) ((b ∷ bs) ++ content)

hash_reads-ReadsAs :
    (sha256 : Bytes → Bytes) (seen : Bytes) (reads : List (Option Bytes)) {hash : Bytes}
    → hash_reads sha256 seen reads ≡ ok hash
    → (content : Bytes) × ReadsAs reads content × (hash ≡ sha256 (seen ++ content))
unfolding hash_reads
hash_reads-ReadsAs sha256 seen [] h =
    ([], ended, sym (ok-injective h) ∙ ap sha256 (sym (append_nil seen)))
hash_reads-ReadsAs sha256 seen (none ∷ reads) h = absurd cc
hash_reads-ReadsAs sha256 seen (some [] ∷ reads) h =
    ([], stopped_short, sym (ok-injective h) ∙ ap sha256 (sym (append_nil seen)))
hash_reads-ReadsAs sha256 seen (some (b ∷ bs) ∷ reads) h =
    let (content, kept, eq) = hash_reads-ReadsAs sha256 (seen ++ b ∷ bs) reads h in
    ((b ∷ bs) ++ content, more kept, eq ∙ ap sha256 (append_assoc seen (b ∷ bs) content))

ReadsAs-hash_reads :
    (sha256 : Bytes → Bytes) (seen : Bytes) {reads : List (Option Bytes)} {content : Bytes}
    → ReadsAs reads content
    → hash_reads sha256 seen reads ≡ ok (sha256 (seen ++ content))
unfolding hash_reads
ReadsAs-hash_reads sha256 seen ended = ap ok (ap sha256 (sym (append_nil seen)))
ReadsAs-hash_reads sha256 seen stopped_short = ap ok (ap sha256 (sym (append_nil seen)))
ReadsAs-hash_reads sha256 seen (more {b} {bs} {reads} {content} rest) =
    ReadsAs-hash_reads sha256 (seen ++ b ∷ bs) rest
    ∙ ap (λ s. ok (sha256 s)) (append_assoc seen (b ∷ bs) content)

-- A process of this user, whose executable the system names and whose file can be read.
abbrev pub Runs : System → UCred → Bytes → Type 0
Runs sys cred content =
    (cred.uid ≡ sys.getuid)
    × (pid : ℕ) × (cred.pid ≡ some pid)
    × (path : Bytes) × (exe_path_for_pid sys sys.platform pid ≡ ok path)
    × (reads : List (Option Bytes)) × (sys.open_file path ≡ some reads)
    × ReadsAs reads content

hash_file_iff :
    (sys : System) (path hash : Bytes)
    → (hash_file sys path ≡ ok hash) ↔ (
        (content : Bytes) × (reads : List (Option Bytes)) × (sys.open_file path ≡ some reads)
        × ReadsAs reads content
        × (hash ≡ sys.sha256 content))
unfolding hash_file
hash_file_iff sys path hash = (
  (λ h. elim (Option-cases (sys.open_file path)) [
    | inl e ↦ absurd (cc (rw (e) at h))
    | inr (reads, e) ↦
        let (content, kept, eq) = hash_reads-ReadsAs sys.sha256 [] reads (rw (e) at h) in
        (content, reads, e, kept, eq)
  ]),
  (λ (content, reads, e, kept, eq). rw (e, eq) (ReadsAs-hash_reads sys.sha256 [] kept)),
)

attest_pid-eq-ok :
    (sys : System) (o : Option ℕ) (id : ConsumerIdentity)
    → attest_pid sys o ≡ ok id
    → (pid : ℕ) × (o ≡ some pid)
      × (path : Bytes) × (hash : Bytes) × (exe_path_for_pid sys sys.platform pid ≡ ok path)
      × (hash_file sys path ≡ ok hash)
      × (id ≡ binary_sha256 hash)
unfolding attest_pid
attest_pid-eq-ok sys none id h = absurd cc
attest_pid-eq-ok sys (some pid) id h =
    let (path, at, named) =
      >>=-eq-ok (exe_path_for_pid sys sys.platform pid)
        (λ path. hash_file sys path >>= (λ hash. ok (binary_sha256 hash))) h in
    let (hash, read, eq) = >>=-eq-ok (hash_file sys path) (λ hash. ok (binary_sha256 hash)) named in
    (pid, refl, path, hash, at, read, sym (ok-injective eq))

==-yes : {a b : ℕ} → a ≡ b → (a == b) ≡ true
==-yes {a} {b} h = ground arith

-- A peer gets a name exactly when it runs as this user, the system names its executable, and that
-- file is read to its end without an error; and then the name is the digest of what was read.
pub attest_peer_iff :
    (sys : System) (cred : UCred) (id : ConsumerIdentity)
    → (attest_peer sys cred ≡ ok id)
      ↔ ((content : Bytes) × Runs sys cred content × (id ≡ binary_sha256 (sys.sha256 content)))
unfolding attest_peer attest_pid
attest_peer_iff sys cred id = (
  (λ h. elim (Bool-cases (cred.uid == sys.getuid)) [
    | inr other ↦ absurd (cc (rw (other) at h))
    | inl own ↦
        let (pid, got, path, hash, at, read, eq) =
          attest_pid-eq-ok sys cred.pid id (rw (own) at h) in
        let (content, reads, opened, kept, digest) = (hash_file_iff sys path hash).0 read in
        (
          content,
          ((==_iff cred.uid sys.getuid).0 own, pid, got, path, at, reads, opened, kept),
          eq ∙ ap binary_sha256 digest,
        )
  ]),
  (λ (content, (own, pid, got, path, at, reads, opened, kept), eq).
      rw
        (
          ==-yes own,
          got,
          attest_pid,
          at,
          (hash_file_iff sys path (sys.sha256 content)).1 (content, reads, opened, kept, refl),
          eq,
        )
        refl),
)

unattested :
    (sys : System) (cred : Option UCred) (service : WorkloadApiService) (req : JwtsvidRequest)
    (challenge : Option Bytes) (now : SystemTime) (e : AttestError)
    → attested sys cred ≡ err e
    → fetch_over sys cred service req challenge now
      ≡ record { asked = []; reply = err consumer_unattested }
unfolding fetch_over accept identity_or_none fetch_jwtsvid check_request
unattested sys cred service req challenge now e h = rw (h, identity_or_none) refl

-- The peer of a connection is a process of this user, and its executable holds `content`.
abbrev pub RunsAt : System → Option UCred → Bytes → Type 0
RunsAt sys peer content = (cred : UCred) × (peer ≡ some cred) × Runs sys cred content

attested_iff :
    (sys : System) (peer : Option UCred) (id : ConsumerIdentity)
    → (attested sys peer ≡ ok id)
      ↔ ((content : Bytes) × RunsAt sys peer content × (id ≡ binary_sha256 (sys.sha256 content)))
unfolding attested
attested_iff sys none id = (λ h. absurd cc, λ (content, (cred, e, runs), q). absurd cc)
attested_iff sys (some cred) id = (
  (λ h.
      let (content, runs, q) = (attest_peer_iff sys cred id).0 h in
      (content, (cred, refl, runs), q)),
  (λ (content, (other, e, runs), q).
      (attest_peer_iff sys cred id).1
        (content, subst (λ c. Runs sys c content) (sym (some-injective e)) runs, q)),
)

-- Over a connection of a process of this user whose executable could be read, a request is answered
-- for the digest of that executable; over any other connection it gets no token, and no proof is
-- asked for on its behalf, whatever the request and whatever the reason.
pub fetch_over-RunsAt :
    (sys : System) (peer : Option UCred) (service : WorkloadApiService) (req : JwtsvidRequest)
    (challenge : Option Bytes) (now : SystemTime)
    → ((content : Bytes) × RunsAt sys peer content
        × (fetch_over sys peer service req challenge now
            ≡ fetch_jwtsvid service (some (binary_sha256 (sys.sha256 content))) req challenge now))
      ⊎ ((¬ ((content : Bytes) × RunsAt sys peer content))
          × (fetch_over sys peer service req challenge now
              ≡ record { asked = []; reply = err consumer_unattested }))
unfolding fetch_over accept identity_or_none
fetch_over-RunsAt sys peer service req challenge now = elim (Result-cases (attested sys peer)) [
  | inl (id, e) ↦
      let (content, runs, q) = (attested_iff sys peer id).0 e in
      inl (content, runs, rw (e, identity_or_none, q) refl)
  | inr (why, e) ↦ inr (
    λ (content, runs). absurd (cc (e, (attested_iff sys peer _).1 (content, runs, refl))),
    unattested sys peer service req challenge now why e,
  )
]
