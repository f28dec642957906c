-- ===== src/Input.antt =====
-- The data path of packets that arrive at the host: kernel/common/dysco_input.c.
pub mod Blocks
pub mod Paths
pub mod Handler
pub mod TwoPaths
pub mod Refused
pub mod Linked
