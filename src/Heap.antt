-- ===== src/Heap.antt =====
-- The state that the handlers work on: the control blocks in memory, the tables of the
-- namespace (`struct dysco_hashes` of kernel/common/dysco.h), the global `alloc_ports`, and the
-- packet in hand. A handler runs to its end before the next one starts, so the spinlocks, which
-- only keep handlers apart, are not modelled.
mod Monad
pub mod Laws
pub mod Keeps
pub mod Refused
pub mod Granted
unfoldable pub use Monad.*
use dysco.Base.{
  ℕ, zero, suc, ◌+◌, ◌≡◌, refl, arith, Bool, true, false, Option, none, some, List, [], ◌∷◌, ◌++◌,
  get_elem?, set, length, and_then, if◌then◌else◌,
}
use dysco.Types.{CbOut, CbIn, CbReconfig, Skb, Ctx, ServiceChain, TcpSession}
use dysco.Kernel.{Kernel}
