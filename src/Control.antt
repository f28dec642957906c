-- ===== src/Control.antt =====
-- The reconfiguration protocol: kernel/common/dysco_control_input.c and
-- kernel/common/dysco_control_output.c.
pub mod Deltas
pub mod Anchors
pub mod Input
pub mod Output
pub mod Splice
pub mod Switch
pub mod Settled
pub mod Retransmission
