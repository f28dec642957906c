-- ===== src/Tests/Hooks.antt =====
-- The theorems on the Netfilter hooks at concrete inputs.
use dysco.Base.{◌≡◌, some, [], ◌∷◌, if◌then◌else◌}
use dysco.Heap.{pure, ◌>>=◌}
use dysco.Input.Handler.{input, rx_pass, rx_consumed}
use dysco.Control.Input.{control_input}
use dysco.Control.Output.{mem}
use dysco.Nf.{nf_accept, nf_drop, nf_in}
use dysco.Nf.Frames.{nf_in_lem}
use dysco.Tests.Host.{host, world}

nf_in_lem_example : nf_in control_input (1 ∷ 33554442 ∷ 33554442 ∷ []) world ≡ (
    if mem 33554442 (1 ∷ 33554442 ∷ 33554442 ∷ [])
    then (do
      ret ← input control_input
      pure (elim ret [ rx_pass ↦ nf_accept | rx_consumed ↦ nf_drop ]))
        world
    else some (nf_accept, world))
nf_in_lem_example = nf_in_lem control_input (1 ∷ 33554442 ∷ 33554442 ∷ []) world
