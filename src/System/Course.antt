-- ===== src/System/Course.antt =====
-- Runs of the whole module, as the abstract specification of an output block sees them.
use dysco.Base.{
  ℕ, zero, suc, ◌≡◌, ◌≤◌, refl, sym, ap, subst, ◌≢◌, ◌∙◌, arith, Bool, Option, none, some, List, [],
  ◌∷◌, get_elem?, length,
}
use dysco.Types.{Skb, CbOut}
use dysco.Kernel.{Kernel}
use dysco.Anchor.{view, start, Steps, here, next}
use dysco.Anchor.Laws.{IsSound, Steps-start-IsSound, Grows, Steps-Grows}
use dysco.Heap.{World, modify}
use dysco.Heap.Laws.{HasOut}
use dysco.Heap.Keeps.{BlockSpec, AllOuts, After, Keeps, Keeps-pure, Keeps-bind}
use dysco.Heap.Keeps.Blocks.{AllOuts-same}
use dysco.System.Output.{output-Keeps}
use dysco.System.Input.{handle_frame-Keeps}
use dysco.System.Control.{control_input-Keeps, control_output-Keeps}
use dysco.System.Hooks.{nf_in-Keeps, nf_out-Keeps}
use dysco.System.Policies.{user_kernel_com-Keeps}
use dysco.System.{
  Action, frame_in, packet_out, hook_in, hook_out, message, surroundings, perform, perform_all,
}

module _ ⦃k : Kernel⦄ {spec : BlockSpec} (bpf : ℕ → List ℕ → Option (Skb → Bool)) where
  Keeps-modify : (f : World → World) → ((w : World) → (f w).outs ≡ w.outs) → Keeps spec (modify f)
  Keeps-modify f e = record { run = λ w h. AllOuts-same w (f w) (e w) h }

  perform-Keeps : (a : Action) → Keeps spec (perform bpf a)
  unfolding perform
  perform-Keeps (frame_in c addresses) =
      Keeps-bind (Keeps-modify _ λ w. refl)
        λ _. Keeps-bind (handle_frame-Keeps _ addresses control_input-Keeps) λ r. Keeps-pure tt
  perform-Keeps (packet_out c addresses) =
      Keeps-bind (Keeps-modify _ λ w. refl)
        λ _. Keeps-bind (output-Keeps _ (control_output-Keeps addresses)) λ r. Keeps-pure tt
  perform-Keeps (hook_in c addresses) =
      Keeps-bind (Keeps-modify _ λ w. refl)
        λ _. Keeps-bind (nf_in-Keeps _ addresses control_input-Keeps) λ r. Keeps-pure tt
  perform-Keeps (hook_out c addresses) =
      Keeps-bind (Keeps-modify _ λ w. refl)
        λ _. Keeps-bind (nf_out-Keeps _ (control_output-Keeps addresses)) λ r. Keeps-pure tt
  perform-Keeps (message t payload) = user_kernel_com-Keeps bpf t payload
  perform-Keeps (surroundings now grants) = Keeps-modify _ λ w. refl

  perform_all-Keeps : (actions : List Action) → Keeps spec (perform_all bpf actions)
  unfolding perform_all
  perform_all-Keeps [] = Keeps-pure tt
  perform_all-Keeps (a ∷ rest) = Keeps-bind (perform-Keeps a) λ _. perform_all-Keeps rest

-- The blocks of a world whose memory was empty once.
abbrev from_start : BlockSpec
from_start = record {
  old = 0;
  At = λ p b. Steps start (view b);
  closed = λ p b b' s r. next r s;
  fresh = λ p b h e. rw e here;
}

get_elem?-beyond :
    {A : Type 0} (xs : List (Option A)) (i : ℕ) (a : A)
    → length xs ≤ i
    → get_elem? xs i ≢ some (some a)
get_elem?-beyond [] i a h e = absurd cc
get_elem?-beyond (x ∷ xs) zero a h e = absurd (omega arith)
get_elem?-beyond (x ∷ xs) (suc i) a h e = get_elem?-beyond xs i a (omega arith) e

from :
    (b c : CbOut) (o : Option (Option CbOut))
    → o ≡ some (some b)
    → o ≡ some (some c)
    → Steps (view c) (view b)
from b c o e f =
    subst (λ x. Steps (view c) x)
      (ap (λ y. elim y [ none ↦ view c | some z ↦ elim z [ none ↦ view c | some v ↦ view v ] ])
        (sym f ∙ e))
      here

module _ ⦃k : Kernel⦄ where
  -- The blocks of a later world, as seen from the blocks that there were.
  abbrev since : World → BlockSpec
  since w = record {
    old = length w.outs;
    At = λ p b'. (b : CbOut) → HasOut w p b → Steps (view b) (view b');
    closed = λ p b b' s r c h. next (r c h) s;
    fresh = λ p b h e c f. absurd (get_elem?-beyond w.outs p c h f);
  }

  AllOuts-since : (w : World) → AllOuts (since w) w
  AllOuts-since w = record {
    room = omega arith;
    at = λ p b e c f. from b c (get_elem? w.outs p) e f;
  }

  AllOuts-from_start : (w : World) → w.outs ≡ [] → AllOuts from_start w
  AllOuts-from_start w e = record {
    room = omega arith;
    at = λ p b f.
        absurd (get_elem?-beyond [] p b (omega arith) (sym (ap (λ l. get_elem? l p) e) ∙ f));
  }

module _ ⦃k : Kernel⦄ (bpf : ℕ → List ℕ → Option (Skb → Bool)) (actions : List Action)
    (w w' : World) (p : ℕ) (b' : CbOut) where
  perform_all-Steps :
      w.outs ≡ []
      → perform_all bpf actions w ≡ some (tt, w')
      → HasOut w' p b'
      → Steps start (view b')
  perform_all-Steps e r h =
      (subst (After from_start) r
          ((perform_all-Keeps bpf actions).run w (AllOuts-from_start w e))).at
        p b' h

  -- A module that starts with no output block, after any sequence of frames that arrive, packets
  -- that leave, messages from user space, and changes of the clock and of the allocator's answers,
  -- in which nothing faults: an output block in memory is in one of the four states that the
  -- program names; once it is the old path it is not in the state of a single path; and where the
  -- acks have left the old path, their cutoff is known.
  pub perform_all-IsSound :
      w.outs ≡ [] → perform_all bpf actions w ≡ some (tt, w') → HasOut w' p b' → IsSound (view b')
  perform_all-IsSound e r h = Steps-start-IsSound (perform_all-Steps e r h)

  -- From any world, over any sequence of frames that arrive, packets that leave, messages from user
  -- space, and changes of the clock and of the allocator's answers, in which nothing faults: an
  -- output block that is in memory before and after has gone forward by the specification's steps. In particular none
  -- of the flags for the old path, for a state transfer, for a known cutoff of the acks, and for
  -- the use of the new path for data and for acks, is ever taken back.
  pub perform_all-Grows :
      (b : CbOut)
      → HasOut w p b
      → perform_all bpf actions w ≡ some (tt, w')
      → HasOut w' p b'
      → Steps (view b) (view b') × Grows (view b) (view b')
  perform_all-Grows b g r h =
      let after =
        (subst (After (since w)) r ((perform_all-Keeps bpf actions).run w (AllOuts-since w))) in
      let steps = after.at p b' h b g in (steps, Steps-Grows steps)
