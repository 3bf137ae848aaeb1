-- ===== src/Models.antt =====
-- planrace/models_v2.py: the wire models of the v2 protocol, their validators and their digests.
pub mod Texts
pub mod Hex
pub mod Index
pub mod Bundle
pub mod Sql
pub mod Task
pub mod Reveal
pub mod Exchange
