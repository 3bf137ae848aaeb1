-- ===== src/Auth.antt =====
-- planrace/auth_v2.py: the replay stores, and the verification of signed responses.
pub mod Replay
pub mod Sign
pub mod Verify
pub mod Samples
