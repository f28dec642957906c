-- ===== src/Nf/Frames.antt =====
-- The Netfilter hook of kernel/nf/d.c for packets that come in.
use dysco.Base.{ℕ, ◌≡◌, refl, some, List, [], ◌∷◌, ◌==◌, if◌then◌else◌, Bool-cases, inl, inr}
use dysco.Kernel.{Kernel}
use dysco.Heap.{World, M, pure, ◌>>=◌}
use dysco.Input.Handler.{rx_pass, rx_consumed, input}
use dysco.Control.Output.{mem}
use dysco.Nf.{nf_accept, nf_drop, verdict_in, nf_in}

module _ ⦃k : Kernel⦄ (control_input : M ℕ) where
  -- If the packet is sent to an address of the device, the hook runs the module's input handler
  -- once, however often the address is listed, and accepts the packet if the handler passes it on
  -- and drops it if the handler has consumed it. It accepts any other packet and leaves it alone.
  pub nf_in_lem :
      (addresses : List ℕ) (w : World)
      → nf_in control_input addresses w ≡ (
          if mem w.ctx.skb.ip.daddr addresses
          then (do
            ret ← input control_input
            pure (elim ret [ rx_pass ↦ nf_accept | rx_consumed ↦ nf_drop ]))
              w
          else some (nf_accept, w))
  unfolding nf_in verdict_in
  nf_in_lem [] w = refl
  nf_in_lem (a ∷ rest) w = elim (Bool-cases (w.ctx.skb.ip.daddr == a)) [
    | inl e ↦ rw e refl
    | inr e ↦ rw e (nf_in_lem rest w)
  ]
