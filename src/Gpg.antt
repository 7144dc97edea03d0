-- ===== src/Gpg.antt =====
-- hire-attestors/src/gpg.rs, and `verify_openpgp` with `names_key` of hire-attestors/src/claim.rs.
pub mod Listing
pub mod Blocks
pub mod Signed
pub mod Sound
