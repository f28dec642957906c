-- ===== src/Input/Refused.antt =====
-- kernel/common/dysco_input.c, `dysco_insert_cb_input`: what is left when memory runs out.
use mathlib.Core.Bool.{false≢true}
use dysco.Base.{
  ℕ, suc, ap, subst, ◌≡◌, refl, Bool, true, false, if◌then◌else◌, Option, none, some, List, length,
  ltb, ◌∷◌, [],
}
use dysco.Types.{Skb}
use dysco.Kernel.{Kernel}
use dysco.Heap.{World, pure, ◌>>=◌, ◌>>◌, free_out, free_in, alloc_out, alloc_in, kmalloc_ok}
use dysco.Heap.Refused.{
  free-snoc, Reverted, refuses, Pointer, Success, alloc_out-both, alloc_in-both, kmalloc_ok-both,
  Returns, Returns->>=, Returns-pure, after_Success,
}
use dysco.Input.Blocks.{
  SynView, fill_pending, connect, insert_pending, insert_cb_in_reverse, insert_forward,
  insert_cb_input,
}

module _ ⦃k : Kernel⦄ where
  fill_pending-Returns :
      (P : Option (Bool × World) → Type 0)
      → P none
      → ((w : World) → P (some (true, w)))
      → (s : Skb) (sp : SynView) (p : ℕ) → Returns P (fill_pending s sp p)
  unfolding fill_pending
  fill_pending-Returns P fault success s sp p = search (Returns->>=, Returns-pure) depth 20

  connect-Returns :
      (P : Option (Option ℕ × World) → Type 0)
      → P none
      → ((q : ℕ) (w : World) → P (some (some q, w)))
      → (s : Skb) (sp : SynView) (q p : ℕ) → Returns P (connect s sp q p)
  unfolding connect
  connect-Returns P fault success s sp q p = search (Returns->>=, Returns-pure) depth 20

  insert_pending-Success : (s : Skb) (sp : SynView) (w : World) → Success w (insert_pending s sp w)
  unfolding insert_pending free_out
  insert_pending-Success s sp w =
      alloc_out-both (Success w) w _ _
        (λ _.
          kmalloc_ok-both (Success w) _ _
            (λ _. (fill_pending-Returns (Success w) tt (λ _. tt) s sp _).run _)
            λ _. record {
              dh = refl;
              outs = free-snoc w.outs _ _ λ p. refl;
              ins = λ p. refl;
              rcbs = λ p. refl;
            })
        λ _. record { dh = refl; outs = λ p. refl; ins = λ p. refl; rcbs = λ p. refl }

  insert_forward-Success : (s : Skb) (sp : SynView) (w : World) → Success w (insert_forward s sp w)
  unfolding insert_forward
  insert_forward-Success s sp w = go (ltb 1 sp.sc_len)
    where
      go : (b : Bool) → Success w ((if b then insert_pending s sp else pure true) w)
      go true = insert_pending-Success s sp w
      go false = tt

  pub insert_cb_input-Pointer :
      (s : Skb) (sp : SynView) (w : World) → Pointer w (insert_cb_input s sp w)
  unfolding insert_cb_input insert_cb_in_reverse free_in free_out
  insert_cb_input-Pointer s sp w =
      alloc_in-both (Pointer w) w _ _
        (λ _.
          alloc_out-both (Pointer w) _ _ _
            (λ _.
              after_Success (Pointer w) tt (insert_forward s sp)
                (λ b.
                  if b
                  then connect s sp (length w.ins) (length w.outs)
                  else (do free_in (length w.ins); free_out (length w.outs); pure none))
                _ (insert_forward-Success s sp _)
                (λ _.
                  (connect-Returns (Pointer w) tt (λ _ _. tt) s sp (length w.ins)
                      (length w.outs)).run
                    _)
                λ u r. record {
                  dh = r.dh;
                  outs = free-snoc w.outs u.outs _ r.outs;
                  ins = free-snoc w.ins u.ins _ r.ins;
                  rcbs = r.rcbs;
                })
            λ _. record {
              dh = refl;
              outs = λ p. refl;
              ins = free-snoc w.ins _ _ λ p. refl;
              rcbs = λ p. refl;
            })
        λ _. record { dh = refl; outs = λ p. refl; ins = λ p. refl; rcbs = λ p. refl }

  -- The demands of `dysco_insert_cb_input`: two blocks, and two more for a pending entry.
  abbrev pub demands : SynView → ℕ
  demands sp = suc (suc (if ltb 1 sp.sc_len then 2 else 0))

  insert_pending-refused :
      (s : Skb) (sp : SynView) (w : World) (gs : List Bool)
      → refuses 2 gs ≡ true
      → (u : World) × (insert_pending s sp (record w { grants = gs }) ≡ some (false, u))
  unfolding insert_pending free_out alloc_out kmalloc_ok
  insert_pending-refused s sp w [] h = absurd (false≢true h)
  insert_pending-refused s sp w (false ∷ gs) h = (_, refl)
  insert_pending-refused s sp w (true ∷ []) h = absurd (false≢true h)
  insert_pending-refused s sp w (true ∷ false ∷ gs) h = (_, refl)
  insert_pending-refused s sp w (true ∷ true ∷ gs) h = absurd (false≢true h)

  insert_forward-refused :
      (s : Skb) (sp : SynView) (w : World)
      → refuses (if ltb 1 sp.sc_len then 2 else 0) w.grants ≡ true
      → (u : World) × (insert_forward s sp w ≡ some (false, u))
  unfolding insert_forward
  insert_forward-refused s sp w = go (ltb 1 sp.sc_len)
    where
      go :
          (b : Bool)
          → refuses (if b then 2 else 0) w.grants ≡ true
          → (u : World) × ((if b then insert_pending s sp else pure true) w ≡ some (false, u))
      go true h = insert_pending-refused s sp w w.grants h
      go false h = absurd (false≢true h)

  insert_cb_input-refused :
      (s : Skb) (sp : SynView) (w : World) (gs : List Bool)
      → refuses (demands sp) gs ≡ true
      → (u : World) × (insert_cb_input s sp (record w { grants = gs }) ≡ some (none, u))
  unfolding insert_cb_input insert_cb_in_reverse free_in free_out alloc_in alloc_out
  insert_cb_input-refused s sp w [] h = absurd (false≢true h)
  insert_cb_input-refused s sp w (false ∷ gs) h = (_, refl)
  insert_cb_input-refused s sp w (true ∷ []) h = absurd (false≢true h)
  insert_cb_input-refused s sp w (true ∷ false ∷ gs) h = (_, refl)
  insert_cb_input-refused s sp w (true ∷ true ∷ gs) h =
      let (u, e) = insert_forward-refused s sp _ h in
      (
        _,
        ap
            (λ r.
              ((λ _. r) >>= λ b.
              if b
              then connect s sp (length w.ins) (length w.outs)
              else (do free_in (length w.ins); free_out (length w.outs); pure none))
                u)
            e,
      )

  -- Where one of the demands for memory of `dysco_insert_cb_input` is refused, it ends without a
  -- fault and returns NULL, the tables are as they were, and the blocks that are not freed are the
  -- ones that were there, unchanged.
  pub insert_cb_input-Reverted :
      (s : Skb) (sp : SynView) (w : World)
      → refuses (demands sp) w.grants ≡ true
      → (u : World) × (insert_cb_input s sp w ≡ some (none, u)) × Reverted w u
  insert_cb_input-Reverted s sp w h =
      let (u, e) = insert_cb_input-refused s sp w w.grants h in
      (u, e, subst (Pointer w) e (insert_cb_input-Pointer s sp w))
