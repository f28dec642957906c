-- ===== src/Main/Removal/Cleared.antt =====
-- kernel/common/dysco_main.c, `dysco_destroy_hashes` on a namespace without pending entries:
-- `dysco_free_dcb_out` frees two blocks where there is a second path.
use dysco.Base.{
  ℕ, ◌+◌, ◌≤◌, ◌<◌, ◌≡◌, ◌≢◌, refl, sym, ap, subst, ◌∙◌, arith, Option, none, some, List, [], ◌∷◌,
  get_elem?, get_elem?-set_ne, set, count, and_then,
}
use dysco.Types.{CbOut}
use dysco.Kernel.{Kernel}
use dysco.Heap.{World, M, pure, ◌>>◌, maybe}
use dysco.Heap.Laws.{load_out-HasOut}
use dysco.Heap.Refused.{at}
use dysco.Main.Removal.{
  free_hash_out, free_hash_in, free_hash_rcb, walk, destroy_sessions, destroy_blocks, free_dcb_out,
}
use dysco.Main.Removal.Once.{
  Removable, Removable-tail, clear, at-clear, count_self, count-cons, free_hash_out_lem, walk_ins,
  walk_rcbs,
}
use dysco.Main.Policies.{del_policies, del_all, del_all-nil}

-- The block of the second path.
abbrev second : Option (Option CbOut) → Option ℕ
second o = and_then o λ x. and_then x λ d. d.other_path

abbrev with_second : Option ℕ → ℕ → List ℕ → List ℕ
with_second none p ps = p ∷ ps
with_second (some q) p ps = q ∷ p ∷ ps

-- The blocks that are freed for the entries of a table: for each its second path and itself.
unfoldable pub targets : List (Option CbOut) → List ℕ → List ℕ
targets os [] = []
targets os (p ∷ ps) = with_second (second (get_elem? os p)) p (targets os ps)

count-with_second :
    (x : ℕ) (o : Option ℕ) (p : ℕ) (ps : List ℕ) → count x (p ∷ ps) ≤ count x (with_second o p ps)
count-with_second x none p ps = omega arith
count-with_second x (some q) p ps = omega arith

count-targets :
    (os : List (Option CbOut)) (x : ℕ) (ps : List ℕ) → count x ps ≤ count x (targets os ps)
unfolding targets
count-targets os x [] = omega arith
count-targets os x (p ∷ ps) =
    omega (
      arith,
      count-targets os x ps,
      count-with_second x (second (get_elem? os p)) p (targets os ps),
    )

-- Freeing a block changes nothing for entries that it is not among.
targets-set :
    (os : List (Option CbOut)) (p : ℕ) (ps : List ℕ)
    → count p ps ≡ 0
    → targets (set os p none) ps ≡ targets os ps
unfolding targets
targets-set os p [] h = refl
targets-set os p (q ∷ ps) h =
    let tail : count p ps ≡ 0 = omega (arith, h, count-cons p q ps) in
    ap (λ o. with_second (second o) q (targets (set os p none) ps))
      (get_elem?-set_ne os p q none
        λ e. omega (arith, count_self p ps, subst (λ y. count p (y ∷ ps) ≡ 0) (sym e) h))
    ∙ ap (with_second (second (get_elem? os q)) q) (targets-set os p ps tail)

none_left :
    (os : List (Option CbOut)) (p : ℕ) (ps : List ℕ)
    → count p (p ∷ targets os ps) ≤ 1
    → count p ps ≡ 0
none_left os p ps h = omega (arith, h, count_self p (targets os ps), count-targets os p ps)

module _ ⦃k : Kernel⦄ (p : ℕ) (w : World) (d : CbOut)
    (at_p : get_elem? w.outs p ≡ some (some d)) where
  -- What is left of `dysco_free_dcb_out` when the block is read.
  free_second : Option ℕ → M (Unit {0})
  free_second o = do maybe o (pure tt) λ q. free_hash_out q; free_hash_out p

  free_dcb_out_lem : (o : Option ℕ) → d.other_path ≡ o → free_dcb_out p w ≡ free_second o w
  unfolding free_dcb_out free_second
  free_dcb_out_lem o e =
      ap (λ r. elim r [ none ↦ none | some (b, v) ↦ free_second b.other_path v ])
        (load_out-HasOut w p d at_p)
      ∙ ap (λ x. free_second x w) e

  free_second-some :
      (q : ℕ) (b : CbOut)
      → get_elem? w.outs q ≡ some (some b)
      → q ≢ p
      → free_second (some q) w ≡ some (tt, record w { outs = set (set w.outs q none) p none })
  unfolding free_second
  free_second-some q b at_q ne =
      ap (λ r. elim r [ none ↦ none | some (a, v) ↦ free_hash_out p v ])
        (free_hash_out_lem q w b at_q)
      ∙ free_hash_out_lem p (record w { outs = set w.outs q none }) d
          (get_elem?-set_ne w.outs q p none ne ∙ at_p)

module _ ⦃k : Kernel⦄ where
  abbrev Clears : List ℕ → World → Type 0
  Clears ps w =
      Removable w.outs (targets w.outs ps)
      → walk ps free_dcb_out w ≡ some (tt, record w { outs = clear (targets w.outs ps) w.outs })

  walk_dcbs-cons :
      (p : ℕ) (ps : List ℕ) (w : World) (d : CbOut)
      → get_elem? w.outs p ≡ some (some d)
      → ((v : World) → Clears ps v)
      → (o : Option ℕ) → d.other_path ≡ o
      → Removable w.outs (with_second o p (targets w.outs ps))
      → walk (p ∷ ps) free_dcb_out w
        ≡ some (tt, record w { outs = clear (with_second o p (targets w.outs ps)) w.outs })
  unfolding free_second
  walk_dcbs-cons p ps w d at_p ih none e r =
      let os = set w.outs p none in
      let same = targets-set w.outs p ps (none_left w.outs p ps (r.once p)) in
      ap (λ x. elim x [ none ↦ none | some (a, v) ↦ walk ps free_dcb_out v ])
        (free_dcb_out_lem p w d at_p none e ∙ free_hash_out_lem p w d at_p)
      ∙ ih (record w { outs = os })
          (subst (Removable os) (sym same) (Removable-tail w.outs p (targets w.outs ps) r))
      ∙ ap (λ ts. some (tt, record w { outs = clear ts os })) same
  walk_dcbs-cons p ps w d at_p ih (some q) e r =
      let ts = targets w.outs ps in
      let os1 = set w.outs q none in
      let os = set os1 p none in
      let r1 = Removable-tail w.outs q (p ∷ ts) r in
      let (b, at_q) = r.live q (omega (arith, count_self q (p ∷ ts))) in
      let ne : q ≢ p = λ f. omega (
        arith,
        r.once q,
        count_self q (p ∷ ts),
        subst (λ y. count q (y ∷ ts) ≡ 1 + count q ts) f (count_self q ts),
      ) in
      let left_q : count q ps ≡ 0 =
        omega
          (arith, r.once q, count_self q (p ∷ ts), count-cons q p ts, count-targets w.outs q ps) in
      let same_q = targets-set w.outs q ps left_q in
      let same =
        targets-set os1 p ps (omega (arith, r1.once p, count_self p ts, count-targets w.outs p ps))
        ∙ same_q in
      ap (λ x. elim x [ none ↦ none | some (a, v) ↦ walk ps free_dcb_out v ])
        (free_dcb_out_lem p w d at_p (some q) e ∙ free_second-some p w d at_p q b at_q ne)
      ∙ ih (record w { outs = os }) (subst (Removable os) (sym same) (Removable-tail os1 p ts r1))
      ∙ ap (λ xs. some (tt, record w { outs = clear xs os })) same

  walk_dcbs : (ps : List ℕ) (w : World) → Clears ps w
  unfolding targets
  walk_dcbs [] w r = refl
  walk_dcbs (p ∷ ps) w r =
      let o = second (get_elem? w.outs p) in
      let (d, at_p) = r.live p (
        omega
          (arith, count_self p (targets w.outs ps), count-with_second p o p (targets w.outs ps))) in
      walk_dcbs-cons p ps w d at_p (walk_dcbs ps) o (sym (ap second at_p)) r

  module _ (w : World) where
    abbrev outs : List ℕ
    outs = k.sessions.entries w.dh.hash_out

    abbrev ins : List ℕ
    ins = k.sessions.entries w.dh.hash_in

    abbrev rcbs : List ℕ
    rcbs = k.sessions.entries w.dh.hash_reconfig

    abbrev without_outs : World
    without_outs = record w { outs = clear (targets w.outs outs) w.outs }

    abbrev without_ins : World
    without_ins = record without_outs { ins = clear ins w.ins }

    abbrev without_rcbs : World
    without_rcbs = record without_ins { rcbs = clear rcbs w.rcbs }

    destroy_sessions-Removable :
        Removable w.outs (targets w.outs outs)
        → Removable w.ins ins
        → Removable w.rcbs rcbs
        → k.sessions.entries w.dh.hash_pen ≡ []
        → destroy_sessions w ≡ some (tt, without_rcbs)
    unfolding destroy_sessions
    destroy_sessions-Removable r_outs r_ins r_rcbs no_pen =
        ap (λ x. elim x [ none ↦ none | some (a, v) ↦ behind_outs v ]) (walk_dcbs outs w r_outs)
        ∙ ap (λ x. elim x [ none ↦ none | some (a, v) ↦ behind_ins v ])
            (walk_ins ins without_outs r_ins)
        ∙ ap (λ ps. (walk ps free_hash_out >> walk rcbs free_hash_rcb) without_ins) no_pen
        ∙ walk_rcbs rcbs without_ins r_rcbs
      where
        behind_ins : M (Unit {0})
        behind_ins = do
          walk (k.sessions.entries w.dh.hash_pen) free_hash_out
          walk rcbs free_hash_rcb

        behind_outs : M (Unit {0})
        behind_outs = do walk ins free_hash_in; behind_ins

  -- A namespace without pending entries, in which no block of the tables is freed yet and none is
  -- met twice, the second paths of the output blocks included: `dysco_destroy_hashes` runs to its
  -- end without a fault, and afterwards all these blocks are freed and no policy is left.
  pub destroy_blocks-Removable :
      (w : World)
      → Removable w.outs (targets w.outs (k.sessions.entries w.dh.hash_out))
      → Removable w.ins (k.sessions.entries w.dh.hash_in)
      → Removable w.rcbs (k.sessions.entries w.dh.hash_reconfig)
      → k.sessions.entries w.dh.hash_pen ≡ []
      → k.tags.entries w.dh.hash_pen_tag ≡ []
      → (u : World) × (destroy_blocks w ≡ some (tt, u))
        × ((p : ℕ)
            → 0 < count p (targets w.outs (k.sessions.entries w.dh.hash_out))
            → at u.outs p ≡ none)
        × ((q : ℕ) → 0 < count q (k.sessions.entries w.dh.hash_in) → at u.ins q ≡ none)
        × ((r : ℕ) → 0 < count r (k.sessions.entries w.dh.hash_reconfig) → at u.rcbs r ≡ none)
        × (u.dh.policies ≡ [])
  unfolding destroy_blocks del_policies
  destroy_blocks-Removable w r_outs r_ins r_rcbs no_pen no_tag = (
    record (without_rcbs w) {
      dh = record ((without_rcbs w).dh) { policies = del_all (without_rcbs w).dh.policies };
    },
    ap
          (λ x. elim x [
            | none ↦ none
            | some (a, v) ↦
                (walk (k.tags.entries w.dh.hash_pen_tag) free_hash_out >> del_policies) v
          ])
          (destroy_sessions-Removable w r_outs r_ins r_rcbs no_pen)
        ∙ ap (λ ps. (walk ps free_hash_out >> del_policies) (without_rcbs w)) no_tag,
    λ p. at-clear (targets w.outs (outs w)) w.outs p,
    λ q. at-clear (ins w) w.ins q,
    λ r. at-clear (rcbs w) w.rcbs r,
    del_all-nil w.dh.policies,
  )
