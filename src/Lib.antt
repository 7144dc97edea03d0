-- ===== src/Lib.antt =====
-- hired, a user-session daemon that issues SPIFFE credentials for a human.
--
-- The daemon's parts: attestors (hire-attestors) list candidates and prove them with evidence; the
-- evidence makes claims; the workload API (hire-grpc) turns claims into tokens for an attested
-- consumer, under the policy that each audience string carries; hire-core holds the vocabulary.
-- Callers select on the identifier, the presence level and the hint tag of a token.
--
-- Assurance   hire-core/src/assurance.rs: tiers and levels, their derived order, string forms.
-- Audience    hire-core/src/audience.rs: `AudienceExtensions::parse`, as a fold over the query.
-- Hint        hire-core/src/hint.rs: `SvidHint`, `Display` (to_string) and `FromStr` (parse).
-- SpiffeId    hire-core/src/spiffe_id.rs: trust domains, identifiers, `uri`, `provenance`, parsing.
-- Claim       hire-attestors/src/claim.rs: candidates, evidence, `Claim::derive`, `age_at`.
-- Possession  hire-attestors/src/claim.rs: `verify_ssh_ed25519` and
--             `verify_did_key_ed25519`, the constructors of possession evidence over ed25519.
-- Consumer    hire-core/src/consumer.rs: `ConsumerIdentity`, `selector_key`.
-- Pseudonym   hire-core/src/pseudonym.rs: `derive_pseudonym`, `derive_pseudonymous_id`.
-- Issue       hire-grpc/src/service.rs: `issue`, `within_max_age`; hire-core/src/hvid.rs; the JWT
--             part of hire-core/src/signer.rs.
-- Service     hire-grpc/src/service.rs: `fetch_jwtsvid` with `enumerate_all`, the consent gate, the
--             order and the deduplication; the trait `Attestor` of hire-attestors/src/lib.rs.
-- Agent       hire-attestors/src/ssh.rs: the messages of the SSH agent protocol, their framing, the
--             list of keys and the request for a signature.
-- Bundle      hire-core/src/trust_bundle.rs: the store of published keys, `jwt_decoding_key`; of
--             hire-grpc/src/service.rs: the two bundle calls and `validate_jwtsvid`.
-- Json        JSON values, and hire-grpc/src/service.rs: `claims_struct` and what it calls.
-- DidKey      hire-attestors/src/did_key.rs: `ed25519_point`, `did_id`, `spiffe_path`.
-- Server      hire-grpc/src/server.rs: `bind_listener` as steps of daemons that share a socket path,
--             with the end of a daemon and its clean-up in hired/src/main.rs as further steps, and
--             `prepare_socket_dir` (Server/Directory.antt).
-- Peer        hire-grpc/src/consumer_attest.rs: `attest_peer`, `AttestedStream::accept`.
-- Unix        hire-attestors/src/unix.rs: the lookup of the account, `enumerate`, `prove`.
-- Tailscale   hire-attestors/src/tailscale.rs: the chunked body, the status, `enumerate`, `prove`.
-- Sources     hire-attestors/src/ssh.rs and hire-attestors/src/did_key.rs: `enumerate` and `prove` of
--             the two sources whose keys the SSH agent holds.
-- Gpg         hire-attestors/src/gpg.rs: the listing of keys, `enumerate`, `prove`; `verify_openpgp`
--             and `names_key` of hire-attestors/src/claim.rs.
-- Signer      hire-core/src/signer.rs: setting up a key, `jwks`, `kid` and the thumbprint.
-- Registry    hire-attestors/src/registry.rs: `probe_sources`.
-- SocketPath  hire-grpc/src/socket.rs: `socket_under` and both forms of `runtime_dir`.
-- Oidc        hire-attestors/src/oidc.rs: the scan of the token caches, `enumerate`, `freshness`.
-- Nmh         hire-nmh/src/main.rs: the frames of native messaging and the loop of `main`.
-- Prelude, Text: shared names, and the string operations of the standard library in use.
--
-- A string is the list of its bytes, a JSON number its text. Integers are natural numbers; a `u64`
-- that is printed has the bound 2 ^ 64 as a hypothesis, and parsing one checks it. A `Duration` is in
-- nanoseconds. A `SystemTime` is in nanoseconds from the earliest instant that the type holds. A loop with early
-- returns is structural recursion into a result type. Four loops run on fuel: the digits of a
-- number, one more than its value; the lookup of an account, 21 calls, since the buffer doubles from
-- at least one byte up to 2 ^ 20; the chunks of a body, one more than its bytes, since each takes a
-- header; the requests of a browser, one more than the bytes on the standard input, since each takes
-- four. The last three answer with an option, which is absent when the fuel does not suffice.
--
-- Parameters, each an argument or a field of a record: the key derivation function and the token
-- encoder of third-party crates, the readings of the clock, the random challenge, and the sources,
-- whose answers to a proof may depend on the proofs asked for before. The proofs that a request
-- asks for are returned with its reply, so that theorems can speak of them. A gRPC status is its
-- reason, with the values that its message is made of. The kernel, the C library, the SSH agent, gpg,
-- the socket of tailscaled, the streams of the browser, the cached files and the JSON library are
-- records of functions; the umask is a function on modes.
--
-- Not modelled: cryptography, the gRPC stack, the transport of bytes, the command line, the
-- sources whose proof is still a stub, and the log.
pub mod Prelude
pub mod Text
pub mod Assurance
pub mod Audience
pub mod Hint
pub mod SpiffeId
pub mod Claim
pub mod Consumer
pub mod Pseudonym
pub mod Issue
pub mod Service
pub mod Agent
pub mod DidKey
pub mod Bundle
pub mod Possession
pub mod Server
pub mod Peer
pub mod Unix
pub mod Tailscale
pub mod Sources
pub mod Gpg
pub mod Signer
pub mod Registry
pub mod SocketPath
pub mod Nmh
pub mod Oidc
pub mod Json
mod Tests
