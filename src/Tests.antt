-- ===== src/Tests.antt =====
-- The theorems at concrete inputs, and runs of the code.
mod Host
mod Reconfig
mod Syn
mod Control
mod System
mod Namespaces
mod Hooks
mod Refused
mod Journey
mod Removal
