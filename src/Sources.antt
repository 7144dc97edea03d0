-- ===== src/Sources.antt =====
-- hire-attestors/src/ssh.rs and hire-attestors/src/did_key.rs: the two sources whose secrets are held
-- by the SSH agent.
pub mod Ssh
pub mod Did
pub mod Asked
pub mod Sound
