-- ===== src/System/Hooks.antt =====
-- kernel/nf/d.c: the hooks keep what the abstract specification says.
use dysco.Base.{ℕ, List, [], ◌∷◌}
use dysco.Kernel.{Kernel}
use dysco.Heap.{M}
use dysco.Heap.Keeps.{BlockSpec, Keeps, Keeps-pure, Keeps-if, Keeps-bind}
use dysco.Heap.Keeps.Blocks.{Keeps-get_skb, Keeps-modify_skb}
use dysco.Nf.{nf_in, nf_out, nf_accept, verdict_in, verdict_out, push_ether, pull_ether}
use dysco.System.Input.{input-Keeps}
use dysco.System.Output.{output-Keeps}

module _ ⦃k : Kernel⦄ {spec : BlockSpec} where
  pub nf_in-Keeps :
      (control_input : M ℕ) (addresses : List ℕ)
      → Keeps spec control_input
      → Keeps spec (nf_in control_input addresses)
  unfolding nf_in
  nf_in-Keeps control_input [] h = Keeps-pure nf_accept
  nf_in-Keeps control_input (a ∷ rest) h = Keeps-bind Keeps-get_skb λ s.
      Keeps-if _ _ _ (Keeps-bind (input-Keeps control_input h) λ ret. Keeps-pure (verdict_in ret))
        (nf_in-Keeps control_input rest h)

  pub nf_out-Keeps :
      (control_output : M ℕ) → Keeps spec control_output → Keeps spec (nf_out control_output)
  unfolding nf_out
  nf_out-Keeps control_output h = Keeps-bind (Keeps-modify_skb push_ether) λ _.
      Keeps-bind (output-Keeps control_output h)
        λ ret. Keeps-bind (Keeps-modify_skb pull_ether) λ _. Keeps-pure (verdict_out ret)
