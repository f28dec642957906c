-- ===== src/Output.antt =====
-- The data path of packets that leave the host: kernel/common/dysco_output.c.
pub mod Path
pub mod PathLaws
pub mod Window
pub mod Tag
pub mod Session
pub mod Syn
pub mod Cutoff
