-- ===== src/Main/Removal/Once.antt =====
-- kernel/common/dysco_main.c, `dysco_destroy_hashes`: the blocks of a namespace without pending
-- entries.
use dysco.Base.{
  ℕ, ◌+◌, ◌≤◌, ◌<◌, ◌≡◌, ◌≢◌, refl, sym, ap, subst, ◌∙◌, arith, Option, none, some, List, [], ◌∷◌,
  if◌then◌else◌, ◌==◌, ==_iff, get_elem?, get_elem?-set_ne, set, count, and_then, Bool-cases, inl,
  inr,
}
use dysco.Types.{CbOut, CbIn, CbReconfig}
use dysco.Kernel.{Kernel}
use dysco.Heap.{World, M, load_out, load_in, load_rcb, free_out, free_in, free_rcb}
use dysco.Heap.Refused.{at}
use dysco.Main.Removal.{free_hash_out, free_hash_in, free_hash_rcb, walk}
use dysco.Main.Removal.Freed.{at-set-none, at-set_freed}

pub count_self : (p : ℕ) (ps : List ℕ) → count p (p ∷ ps) ≡ 1 + count p ps
count_self p ps = ap {B = ℕ} (λ b. (if b then 1 else 0) + count p ps) ((==_iff p p).1 refl)

pub count-cons : (x p : ℕ) (ps : List ℕ) → count x ps ≤ count x (p ∷ ps)
count-cons x p ps = omega arith

module _ {A : Type 0} where
  -- The blocks of a list can be freed: each stands in it once and is not freed yet.
  pub record Removable (os : List (Option A)) (ps : List ℕ) : Type 0 where
    pub once : (x : ℕ) → count x ps ≤ 1
    pub live : (x : ℕ) → 0 < count x ps → (b : A) × (get_elem? os x ≡ some (some b))

  -- The memory after they have been freed.
  abbrev pub clear : List ℕ → List (Option A) → List (Option A)
  clear [] os = os
  clear (p ∷ ps) os = clear ps (set os p none)

  pub Removable-tail :
      (os : List (Option A)) (p : ℕ) (ps : List ℕ)
      → Removable os (p ∷ ps)
      → Removable (set os p none) ps
  Removable-tail os p ps r = record {
    once = λ x. omega (arith, r.once x, count-cons x p ps);
    live = λ x h.
        let (b, e) = r.live x (omega (arith, h, count-cons x p ps)) in
        (b, get_elem?-set_ne os p x none (other x h) ∙ e);
  }
    where
      other : (x : ℕ) → 0 < count x ps → p ≢ x
      other x h e = omega (arith, r.once p, count_self p ps, subst (λ y. 0 < count y ps) (sym e) h)

  clear-freed :
      (ps : List ℕ) (os : List (Option A)) (x : ℕ) → at os x ≡ none → at (clear ps os) x ≡ none
  clear-freed [] os x h = h
  clear-freed (p ∷ ps) os x h = clear-freed ps (set os p none) x (at-set_freed os p x h)

  pub at-clear :
      (ps : List ℕ) (os : List (Option A)) (x : ℕ) → 0 < count x ps → at (clear ps os) x ≡ none
  at-clear [] os x h = absurd (omega arith)
  at-clear (p ∷ ps) os x h = elim (Bool-cases (x == p)) [
    | inl e ↦
        clear-freed ps (set os p none) x
          (subst (λ y. at (set os y none) x ≡ none) ((==_iff x p).0 e) (at-set-none os x))
    | inr e ↦
        at-clear ps (set os p none) x
          (omega (arith, subst (λ b. 0 < (if b then 1 else 0) + count x ps) e h))
  ]

module _ ⦃k : Kernel⦄ where
  -- A walk over one kind of block, whose memory `get_os` and `put_os` read and write.
  module _ {A : Type 0} (get_os : World → List (Option A))
      (put_os : World → List (Option A) → World)
      (get_put : (w : World) (os : List (Option A)) → get_os (put_os w os) ≡ os)
      (put_put : (w : World) (os os' : List (Option A)) → put_os (put_os w os) os' ≡ put_os w os')
      (put_get : (w : World) → put_os w (get_os w) ≡ w) (free : ℕ → M (Unit {0}))
      (free_lem : (p : ℕ) (w : World) (b : A)
        → get_elem? (get_os w) p ≡ some (some b)
        → free p w ≡ some (tt, put_os w (set (get_os w) p none))) where
    walk-Removable :
        (ps : List ℕ) (w : World)
        → Removable (get_os w) ps
        → walk ps free w ≡ some (tt, put_os w (clear ps (get_os w)))
    walk-Removable [] w r = ap (λ v. some (tt, v)) (sym (put_get w))
    walk-Removable (p ∷ ps) w r =
        let (b, e) = r.live p (omega (arith, count_self p ps)) in
        let w' = put_os w (set (get_os w) p none) in
        let os : get_os w' ≡ set (get_os w) p none = get_put w (set (get_os w) p none) in
        ap (λ o. elim o [ none ↦ none | some (a, v) ↦ walk ps free v ]) (free_lem p w b e)
        ∙ walk-Removable ps w'
            (subst (λ x. Removable x ps) (sym os) (Removable-tail (get_os w) p ps r))
        ∙ ap (λ v. some (tt, v))
            (put_put w (set (get_os w) p none) (clear ps (get_os w'))
              ∙ ap (λ x. put_os w (clear ps x)) os)

  pub free_hash_out_lem :
      (p : ℕ) (w : World) (b : CbOut)
      → get_elem? w.outs p ≡ some (some b)
      → free_hash_out p w ≡ some (tt, record w { outs = set w.outs p none })
  unfolding free_hash_out load_out free_out
  free_hash_out_lem p w b e =
      ap
        (λ o. elim (and_then {B = CbOut × World} o λ x. and_then x λ d. some (d, w)) [
          | none ↦ none
          | some (d, v) ↦ free_out p v
        ])
        e

  free_hash_in_lem :
      (p : ℕ) (w : World) (b : CbIn)
      → get_elem? w.ins p ≡ some (some b)
      → free_hash_in p w ≡ some (tt, record w { ins = set w.ins p none })
  unfolding free_hash_in load_in free_in
  free_hash_in_lem p w b e =
      ap
        (λ o. elim (and_then {B = CbIn × World} o λ x. and_then x λ d. some (d, w)) [
          | none ↦ none
          | some (d, v) ↦ free_in p v
        ])
        e

  free_hash_rcb_lem :
      (p : ℕ) (w : World) (b : CbReconfig)
      → get_elem? w.rcbs p ≡ some (some b)
      → free_hash_rcb p w ≡ some (tt, record w { rcbs = set w.rcbs p none })
  unfolding free_hash_rcb load_rcb free_rcb
  free_hash_rcb_lem p w b e =
      ap
        (λ o. elim (and_then {B = CbReconfig × World} o λ x. and_then x λ d. some (d, w)) [
          | none ↦ none
          | some (d, v) ↦ free_rcb p v
        ])
        e

  pub walk_ins :
      (ps : List ℕ) (w : World)
      → Removable w.ins ps
      → walk ps free_hash_in w ≡ some (tt, record w { ins = clear ps w.ins })
  walk_ins =
      walk-Removable (λ w. w.ins) (λ w os. record w { ins = os }) (λ w os. refl) (λ w os os'. refl)
        (λ w. refl) free_hash_in free_hash_in_lem

  pub walk_rcbs :
      (ps : List ℕ) (w : World)
      → Removable w.rcbs ps
      → walk ps free_hash_rcb w ≡ some (tt, record w { rcbs = clear ps w.rcbs })
  walk_rcbs =
      walk-Removable (λ w. w.rcbs) (λ w os. record w { rcbs = os }) (λ w os. refl)
        (λ w os os'. refl) (λ w. refl) free_hash_rcb free_hash_rcb_lem
