-- ===== src/System.antt =====
-- The whole module as its surroundings drive it: frames that arrive, packets that leave, messages
-- from user space, and what the clock and the allocator do in between. Drivers call
-- `dysco_handle_frame` and `dysco_output`; without them Netfilter calls the hooks of kernel/nf/d.c.
-- Each handler runs to its end.
mod Options
mod Blocks
mod Output
mod Control
mod Input
mod Hooks
mod Policies
pub mod Course
use dysco.Base.{ℕ, Bool, List, [], ◌∷◌, Option}
use dysco.Types.{Skb, Ctx, MsgType}
use dysco.Kernel.{Kernel}
use dysco.Heap.{World, M, pure, ◌>>=◌, ◌>>◌, modify}
use dysco.Output.Syn.{output}
use dysco.Input.Handler.{handle_frame}
use dysco.Nf.{nf_in, nf_out}
use dysco.Control.Input.{control_input}
use dysco.Control.Output.{control_output}
use dysco.Main.Policies.{user_kernel_com}

-- The addresses are those of the device.
pub data Action : Type 0 where
  frame_in packet_out hook_in hook_out : Ctx → List ℕ → Action
  message : MsgType → List ℕ → Action
  surroundings : (now : ℕ) (grants : List Bool) → Action

module _ ⦃k : Kernel⦄ (bpf_prog_create : ℕ → List ℕ → Option (Skb → Bool)) where
  unfoldable pub perform : Action → M (Unit {0})
  perform (frame_in c addresses) = do
    modify (λ w. record w { ctx = c })
    r ← handle_frame control_input addresses
    pure tt
  perform (packet_out c addresses) = do
    modify (λ w. record w { ctx = c })
    r ← output (control_output addresses)
    pure tt
  perform (hook_in c addresses) = do
    modify (λ w. record w { ctx = c })
    r ← nf_in control_input addresses
    pure tt
  perform (hook_out c addresses) = do
    modify (λ w. record w { ctx = c })
    r ← nf_out (control_output addresses)
    pure tt
  perform (message t payload) = user_kernel_com bpf_prog_create t payload
  perform (surroundings now grants) = modify (λ w. record w { now = now; grants = grants })

  unfoldable pub perform_all : List Action → M (Unit {0})
  unfolding perform
  perform_all [] = pure tt
  perform_all (a ∷ rest) = do perform a; perform_all rest
