-- ===== src/Types.antt =====
-- The structures of kernel/common/dysco.h, and of the kernel's packet headers as far as the
-- module reads and writes them. Each kind of structure is a child.
mod Session
mod Blocks
mod Packet
unfoldable pub use Session.*
pub use Blocks.*
pub use Packet.*
