-- ===== src/Main/Removal/Freed.antt =====
-- kernel/common/dysco_main.c, `dysco_destroy_hashes`: a block that is met twice.
use dysco.Base.{
  ℕ, zero, suc, ◌+◌, ◌<◌, ◌≡◌, ◌∙◌, refl, sym, ap, subst, arith, Bool-cases, ◌⊎◌, inl, inr, Option,
  none, some, List, [], ◌∷◌, if◌then◌else◌, ◌==◌, ==_iff, get_elem?, set, count, and_then,
}
use dysco.Types.{CbOut}
use dysco.Kernel.{Kernel}
use dysco.Heap.{World, M, ◌>>◌, load_out, free_out, free_rcb}
use dysco.Heap.Refused.{at}
use dysco.Heap.Laws.{HasOut-cases, load_out-HasOut, HasRcb-cases, load_rcb-HasRcb}
use dysco.Main.Removal.{
  free_hash_out, free_hash_in, free_hash_rcb, walk, destroy_sessions, destroy_blocks, free_dcb_out,
}
use dysco.Main.Policies.{del_policies}

module _ {A : Type 0} where
  pub at-set-none : (xs : List (Option A)) (i : ℕ) → at (set xs i none) i ≡ none
  at-set-none [] i = refl
  at-set-none (x ∷ xs) zero = refl
  at-set-none (x ∷ xs) (suc i) = at-set-none xs i

  pub at-set_freed : (xs : List (Option A)) (i p : ℕ) → at xs p ≡ none → at (set xs i none) p ≡ none
  at-set_freed [] i p h = h
  at-set_freed (x ∷ xs) zero zero h = refl
  at-set_freed (x ∷ xs) zero (suc p) h = h
  at-set_freed (x ∷ xs) (suc i) zero h = h
  at-set_freed (x ∷ xs) (suc i) (suc p) h = at-set_freed xs i p h

module _ ⦃k : Kernel⦄ (p : ℕ) where
  abbrev IsFreed : World → Type 0
  IsFreed w = at w.outs p ≡ none

  -- The block is freed at the end, if there is no fault.
  abbrev FreedAfter : Option (Unit {0} × World) → Type 0
  FreedAfter none = Unit {0}
  FreedAfter (some (a, w)) = IsFreed w

  load_out-fault : (w : World) → IsFreed w → load_out p w ≡ none
  unfolding load_out
  load_out-fault w h = go (get_elem? w.outs p) h
    where
      go :
          (o : Option (Option CbOut))
          → and_then o (λ x. x) ≡ none
          → and_then {B = CbOut × World} o (λ x. and_then x λ b. some (b, w)) ≡ none
      go none e = refl
      go (some none) e = refl
      go (some (some b)) e = absurd cc

  pub free_hash_out-fault : (w : World) → IsFreed w → free_hash_out p w ≡ none
  unfolding free_hash_out
  free_hash_out-fault w h =
      ap (λ r. elim r [ none ↦ none | some (d, v) ↦ free_out p v ]) (load_out-fault w h)

  -- What freeing a block does.
  free_hash_out-cases :
      (q : ℕ) (w : World)
      → (free_hash_out q w ≡ none)
        ⊎ (free_hash_out q w ≡ some (tt, record w { outs = set w.outs q none }))
  unfolding free_hash_out free_out
  free_hash_out-cases q w = elim (HasOut-cases w q) [
    | inl e ↦ inl (ap (λ r. elim r [ none ↦ none | some (d, v) ↦ free_out q v ]) e)
    | inr (b, h) ↦
        inr
          (ap (λ r. elim r [ none ↦ none | some (d, v) ↦ free_out q v ]) (load_out-HasOut w q b h))
  ]

  free_hash_out-FreedAfter : (w : World) → FreedAfter (free_hash_out p w)
  free_hash_out-FreedAfter w = elim (free_hash_out-cases p w) [
    | inl e ↦ subst FreedAfter (sym e) tt
    | inr e ↦ subst FreedAfter (sym e) (at-set-none w.outs p)
  ]

  free_hash_out-keeps : (q : ℕ) (w : World) → IsFreed w → FreedAfter (free_hash_out q w)
  free_hash_out-keeps q w h = elim (free_hash_out-cases q w) [
    | inl e ↦ subst FreedAfter (sym e) tt
    | inr e ↦ subst FreedAfter (sym e) (at-set_freed w.outs q p h)
  ]

  free_hash_rcb-keeps : (r : ℕ) (w : World) → IsFreed w → FreedAfter (free_hash_rcb r w)
  unfolding free_hash_rcb free_rcb
  free_hash_rcb-keeps r w h = elim (HasRcb-cases w r) [
    | inl e ↦
        subst (λ o. FreedAfter (elim o [ none ↦ none | some (d, v) ↦ free_rcb r v ])) (sym e) tt
    | inr (b, a) ↦
        subst (λ o. FreedAfter (elim o [ none ↦ none | some (d, v) ↦ free_rcb r v ]))
          (sym (load_rcb-HasRcb w r b a)) h
  ]

  after :
      (n : M (Unit {0})) (r : Option (Unit {0} × World))
      → FreedAfter r
      → ((w : World) → IsFreed w → FreedAfter (n w))
      → FreedAfter (elim r [ none ↦ none | some (a, w) ↦ n w ])
  after n none h f = tt
  after n (some (a, w)) h f = f w h

  after_any :
      (n : M (Unit {0})) (r : Option (Unit {0} × World))
      → ((w : World) → FreedAfter (n w))
      → FreedAfter (elim r [ none ↦ none | some (a, w) ↦ n w ])
  after_any n none f = tt
  after_any n (some (a, w)) f = f w

  fault_after :
      (n : M (Unit {0})) (r : Option (Unit {0} × World))
      → FreedAfter r
      → ((w : World) → IsFreed w → n w ≡ none)
      → elim r [ none ↦ none | some (a, w) ↦ n w ] ≡ none
  fault_after n none h f = refl
  fault_after n (some (a, w)) h f = f w h

  walk-keeps :
      (ps : List ℕ) (f : ℕ → M (Unit {0}))
      → ((q : ℕ) (w : World) → IsFreed w → FreedAfter (f q w))
      → (w : World) → IsFreed w
      → FreedAfter (walk ps f w)
  walk-keeps [] f k w h = h
  walk-keeps (q ∷ ps) f k w h = after (walk ps f) (f q w) (k q w h) (walk-keeps ps f k)

  -- A walk that meets the block frees it.
  walk-frees : (ps : List ℕ) (w : World) → 0 < count p ps → FreedAfter (walk ps free_hash_out w)
  walk-frees [] w h = absurd (omega arith)
  walk-frees (q ∷ ps) w h = elim (Bool-cases (p == q)) [
    | inl e ↦
        subst (λ x. FreedAfter ((free_hash_out x >> walk ps free_hash_out) w)) ((==_iff p q).0 e)
          (after (walk ps free_hash_out) (free_hash_out p w) (free_hash_out-FreedAfter w)
            (walk-keeps ps free_hash_out free_hash_out-keeps))
    | inr e ↦
        after_any (walk ps free_hash_out) (free_hash_out q w) λ v.
          walk-frees ps v (omega (arith, subst (λ b. 0 < (if b then 1 else 0) + count p ps) e h))
  ]

  -- A walk that meets it when it is freed faults.
  walk-fault :
      (ps : List ℕ) (w : World) → 0 < count p ps → IsFreed w → walk ps free_hash_out w ≡ none
  walk-fault [] w h i = absurd (omega arith)
  walk-fault (q ∷ ps) w h i = elim (Bool-cases (p == q)) [
    | inl e ↦
        subst (λ x. (free_hash_out x >> walk ps free_hash_out) w ≡ none) ((==_iff p q).0 e)
          (ap (λ r. elim r [ none ↦ none | some (a, v) ↦ walk ps free_hash_out v ])
            (free_hash_out-fault w i))
    | inr e ↦
        fault_after (walk ps free_hash_out) (free_hash_out q w) (free_hash_out-keeps q w i) λ v.
          walk-fault ps v (omega (arith, subst (λ b. 0 < (if b then 1 else 0) + count p ps) e h))
  ]

  -- The block is freed with the table of pending sessions.
  destroy_sessions-FreedAfter :
      (w : World) → 0 < count p (k.sessions.entries w.dh.hash_pen) → FreedAfter (destroy_sessions w)
  unfolding destroy_sessions
  destroy_sessions-FreedAfter w pen =
      let s = k.sessions in
      let pens = s.entries w.dh.hash_pen in
      let rcbs = s.entries w.dh.hash_reconfig in
      after_any _ (walk (s.entries w.dh.hash_out) free_dcb_out w) λ v1.
        after_any _ (walk (s.entries w.dh.hash_in) free_hash_in v1) λ v2.
          after (walk rcbs free_hash_rcb) (walk pens free_hash_out v2) (walk-frees pens v2 pen)
            (walk-keeps rcbs free_hash_rcb free_hash_rcb-keeps)

  -- A block in both tables of pending entries is freed twice.
  module _ (w v : World) (pen : 0 < count p (k.sessions.entries w.dh.hash_pen))
      (first : destroy_sessions w ≡ some (tt, v)) where
    pub destroy_sessions-frees : at v.outs p ≡ none
    destroy_sessions-frees = subst FreedAfter first (destroy_sessions-FreedAfter w pen)

    pub destroy_blocks-fault :
        0 < count p (k.tags.entries w.dh.hash_pen_tag) → destroy_blocks w ≡ none
    unfolding destroy_blocks
    destroy_blocks-fault tag =
        let tags = k.tags.entries w.dh.hash_pen_tag in
        ap (λ r. elim r [ none ↦ none | some (a, u) ↦ (walk tags free_hash_out >> del_policies) u ])
          first
        ∙ ap (λ r. elim r [ none ↦ none | some (a, u) ↦ del_policies u ])
            (walk-fault tags v tag destroy_sessions-frees)
