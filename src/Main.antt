-- ===== src/Main.antt =====
-- kernel/common/dysco_main.c: policies, what is reported to user space, and the namespaces.
pub mod Policies
pub mod Report
pub mod Room
pub mod Removal
