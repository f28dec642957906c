-- ===== src/Rewrite.antt =====
-- The translation of one packet by one control block: `dysco_in_*` of
-- kernel/common/dysco_input.c and `dysco_out_*` of kernel/common/dysco_output.c.
pub mod Fields
pub mod Sack
pub mod SackCsum
pub mod Input
pub mod Output
pub mod Translation
pub mod Addresses
