-- ===== src/Main/Removal/Twice.antt =====
-- kernel/common/dysco_main.c, `dysco_destroy_hashes`: a block that
-- `dysco_insert_pending` has put into two tables.
use dysco.Base.{
  ℕ, ◌<◌, count, ◌+◌, ◌-◌, ◌≡◌, refl, sym, ap, subst, arith, Bool, true, false, inl, inr, Option,
  none, some, List, if◌then◌else◌, ◌==◌, ==_iff, set, length,
}
use dysco.Types.{CbOut}
use dysco.Kernel.{Kernel, KernelLaws}
use dysco.Heap.{World, M, pure, ◌>>=◌, ◌>>◌, free_out, insert_pen, modify_out, lift}
use dysco.Heap.Laws.{HasOut-cases, modify_out-fault, modify_out-HasOut}
use dysco.Main.Removal.{free_hash_out, destroy_sessions, destroy_blocks}
use dysco.Heap.Refused.{at, alloc_out-both, kmalloc_ok-both}
use dysco.Types.{Skb}
use dysco.Chain.{read_hops}
use dysco.Input.Blocks.{SynView, fill_pending, insert_pending}
use dysco.Main.Removal.Freed.{free_hash_out-fault, destroy_sessions-frees, destroy_blocks-fault}

module _ ⦃k : Kernel⦄ where
  -- The block is an entry of both tables of pending entries.
  pub record IsPending (p : ℕ) (w : World) : Type 0 where
    pub pen : 0 < count p (k.sessions.entries w.dh.hash_pen)
    pub tag : 0 < count p (k.tags.entries w.dh.hash_pen_tag)

module _ ⦃k : Kernel⦄ (laws : KernelLaws k) where
  open laws use {sessions_laws, tags_laws}

  -- Where a handler has succeeded, the block is.
  abbrev Pends : ℕ → Option (Bool × World) → Type 0
  Pends p none = Unit {0}
  Pends p (some (false, w)) = Unit {0}
  Pends p (some (true, w)) = IsPending p w

  abbrev Fresh : SynView → World → Type 0
  Fresh sp w =
      (k.sessions.lookup w.dh.hash_pen sp.ss ≡ none) × (k.tags.lookup w.dh.hash_pen_tag 0 ≡ none)

  inserted-Pends :
      (sp : SynView) (p : ℕ) (w : World) (outs : List (Option CbOut))
      → Fresh sp w
      → Pends p (((do insert_pen sp.ss 0 p; pure true)) (record w { outs = outs }))
  unfolding insert_pen
  inserted-Pends sp p w outs (fresh, fresh_tag) =
      let self : ◌≡◌ {A = ℕ} (if p == p then 1 else 0) 1 =
        ap {B = ℕ} (λ b. if b then 1 else 0) ((==_iff p p).1 refl) in
      record {
        pen = omega (arith, self, sessions_laws.entries-insert w.dh.hash_pen sp.ss p p fresh);
        tag = omega (arith, self, tags_laws.entries-insert w.dh.hash_pen_tag 0 p p fresh_tag);
      }

  fill_pending-Pends :
      (s : Skb) (sp : SynView) (p : ℕ) (w : World) → Fresh sp w → Pends p (fill_pending s sp p w)
  unfolding fill_pending
  fill_pending-Pends s sp p w fresh = go (read_hops (sp.sc_len - 1) s.body (sp.ptr + 16 + 4))
    where
      fill : List ℕ → CbOut → CbOut
      fill hops d = record d {
        sc = some (record { len = sp.sc_len - 1; pos = k.stale_pos; hops = hops });
        free_sc = true;
      }

      done : M Bool
      done = do insert_pen sp.ss 0 p; pure true

      filled : (hops : List ℕ) → Pends p ((modify_out p (fill hops) >> done) w)
      filled hops = elim (HasOut-cases w p) [
        | inl e ↦
            subst (λ r. Pends p (elim r [ none ↦ none | some (a, v) ↦ done v ]))
              (sym (modify_out-fault w p (fill hops) e)) tt
        | inr (b, h) ↦
            subst (λ r. Pends p (elim r [ none ↦ none | some (a, v) ↦ done v ]))
              (sym (modify_out-HasOut w p b h (fill hops)))
              (inserted-Pends sp p w (set w.outs p (some (fill hops b))) fresh)
      ]

      go : (o : Option (List ℕ)) → Pends p ((lift o >>= λ hops. modify_out p (fill hops) >> done) w)
      go none = tt
      go (some hops) = filled hops

  insert_pending-Pends :
      (s : Skb) (sp : SynView) (w : World)
      → Fresh sp w
      → Pends (length w.outs) (insert_pending s sp w)
  unfolding insert_pending free_out
  insert_pending-Pends s sp w fresh =
      alloc_out-both (Pends (length w.outs)) w _ _
        (λ _.
          kmalloc_ok-both (Pends (length w.outs)) _ _
            (λ _. fill_pending-Pends s sp (length w.outs) _ fresh) λ _. tt)
        λ _. tt

  -- `dysco_insert_pending` has made an entry for a session and with tags that were not pending.
  -- Then its block is in the table of pending sessions and in that of pending tags. Whenever the
  -- namespace is destroyed with the block in both, and the first four tables are destroyed without
  -- a fault, the block is freed by then, and `dysco_destroy_hashes` faults on the table of tags,
  -- where it frees the block again.
  pub destroy_blocks-insert_pending :
      (s : Skb) (sp : SynView) (w u v v' : World)
      → insert_pending s sp w ≡ some (true, u)
      → k.sessions.lookup w.dh.hash_pen sp.ss ≡ none
      → k.tags.lookup w.dh.hash_pen_tag 0 ≡ none
      → IsPending (length w.outs) v
      → destroy_sessions v ≡ some (tt, v')
      → IsPending (length w.outs) u
        × (at v'.outs (length w.outs) ≡ none)
        × (free_hash_out (length w.outs) v' ≡ none)
        × (destroy_blocks v ≡ none)
  destroy_blocks-insert_pending s sp w u v v' e fresh fresh_tag h first =
      let freed = destroy_sessions-frees (length w.outs) v v' h.pen first in
      (
        subst (Pends (length w.outs)) e (insert_pending-Pends s sp w (fresh, fresh_tag)),
        freed,
        free_hash_out-fault (length w.outs) v' freed,
        destroy_blocks-fault (length w.outs) v v' h.pen first h.tag,
      )
