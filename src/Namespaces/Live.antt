-- ===== src/Namespaces/Live.antt =====
-- What `dysco_create_hashes` and `dysco_destroy_hashes` of kernel/common/dysco_main.c do with the
-- kernel's resources.
use dysco.Base.{
  ℕ, ◌≡◌, ◌≢◌, ◌⊎◌, inl, inr, refl, sym, subst, ap, ◌∙◌, Bool, true, false, and_then, Option, none,
  some, List, ◌∷◌, ◌==◌, ==_iff, if◌then◌else◌,
}
use dysco.Kernel.{Rhashtable}
use dysco.Namespaces.{
  Table, hash_out, hash_in, hash_pen, hash_reconfig, hash_pen_tag, Resource, block, socket, table,
  table_number, same, take_away, has, answer, Module, N, pure, ◌>>=◌, ◌>>◌, obtain, release,
  free_nh_aux, free_hash_out, free_hash_in, free_hash_pen, free_hash_tag, set_namespace,
  create_tables, create_hashes, destroy_hashes,
}

-- The resources of a block that is ready, in the order in which they were obtained.
abbrev pub owned : ℕ → List Resource → List Resource
owned p rs =
    table p hash_pen_tag
    ∷ table p hash_reconfig
    ∷ table p hash_pen
    ∷ table p hash_in
    ∷ table p hash_out
    ∷ block p
    ∷ rs

eq_refl : (p : ℕ) → (p == p) ≡ true
eq_refl p = (==_iff p p).1 refl

same_table : (p : ℕ) (t : Table) → same (table p t) (table p t) ≡ true
same_table p t = rw (eq_refl p, eq_refl (table_number t)) refl

take_away-head :
    (r : Resource) (rs : List Resource) → same r r ≡ true → take_away r (r ∷ rs) ≡ some rs
take_away-head r rs e = rw e refl

module _ ⦃ns : Rhashtable ℕ⦄ where
  -- The outcome of `dysco_create_hashes` for `net` when the resources `rs` were held before
  -- and the next name was `p`.
  abbrev pub Created : Option ℕ → ℕ → List Resource → Option (Option ℕ × Module) → Type 0
  Created net p rs none = ⊥
  Created net p rs (some (none, m)) = m.live ≡ rs
  Created net p rs (some (some q, m)) =
      (q ≡ p) × ((m.live ≡ owned p rs) ⊎ ((net ≢ none) × (m.live ≡ socket p ∷ owned p rs)))

  -- Whether a demand is met or not.
  module _ {B : Type 0} (P : Option (B × Module) → Type 0) (r : Resource) (m : Module) where
    pub obtain-both :
        (f : Bool → N B)
        → ((gs : List Bool) → P (f true (record m { live = r ∷ m.live; grants = gs })))
        → ((gs : List Bool) → P (f false (record m { grants = gs })))
        → P ((obtain r >>= f) m)
    unfolding obtain
    obtain-both f met refused = go (answer m.grants).0 (answer m.grants).1
      where
        go :
            (b : Bool) (gs : List Bool)
            → P (
                ((λ v.
                      if b
                      then some (true, record v { live = r ∷ v.live; grants = gs })
                      else some (false, record v { grants = gs }))
                    >>= f)
                  m)
        go true gs = met gs
        go false gs = refused gs

    -- A resource that is held is given back.
    pub release-held :
        (rs : List Resource) (n : N B)
        → take_away r m.live ≡ some rs
        → P (n (record m { live = rs }))
        → P ((release r >> n) m)
    unfolding release
    release-held rs n e h = subst (λ o. P ((do lift o; n) m)) (sym e) h
      where
        lift : Option (List Resource) → N (Unit {0})
        lift o v = and_then o λ ys. some (tt, record v { live = ys })

    -- The same for the one that was obtained last.
    release-head :
        (rs : List Resource) (n : N B)
        → same r r ≡ true
        → m.live ≡ r ∷ rs
        → P (n (record m { live = rs }))
        → P ((release r >> n) m)
    release-head rs n e h = release-held rs n (ap (take_away r) h ∙ take_away-head r rs e)

  -- The labels of `dysco_create_hashes` give back what was obtained before the jump.
  module _ (net : Option ℕ) (p : ℕ) (rs : List Resource) where
    free_nh_aux-Created : (m : Module) → m.live ≡ block p ∷ rs → Created net p rs (free_nh_aux p m)
    unfolding free_nh_aux
    free_nh_aux-Created m e = release-head (Created net p rs) _ m rs _ (eq_refl p) e refl

    free_hash_out-Created :
        (m : Module)
        → m.live ≡ table p hash_out ∷ block p ∷ rs
        → Created net p rs (free_hash_out p m)
    unfolding free_hash_out
    free_hash_out-Created m e =
        release-head (Created net p rs) _ m _ _ (same_table p hash_out) e
          (free_nh_aux-Created _ refl)

    free_hash_in-Created :
        (m : Module)
        → m.live ≡ table p hash_in ∷ table p hash_out ∷ block p ∷ rs
        → Created net p rs (free_hash_in p m)
    unfolding free_hash_in
    free_hash_in-Created m e =
        release-head (Created net p rs) _ m _ _ (same_table p hash_in) e
          (free_hash_out-Created _ refl)

    free_hash_pen-Created :
        (m : Module)
        → m.live ≡ table p hash_pen ∷ table p hash_in ∷ table p hash_out ∷ block p ∷ rs
        → Created net p rs (free_hash_pen p m)
    unfolding free_hash_pen
    free_hash_pen-Created m e =
        release-head (Created net p rs) _ m _ _ (same_table p hash_pen) e
          (free_hash_in-Created _ refl)

    free_hash_tag-Created :
        (m : Module)
        → m.live
          ≡ table p hash_reconfig
            ∷ table p hash_pen
            ∷ table p hash_in
            ∷ table p hash_out
            ∷ block p
            ∷ rs
        → Created net p rs (free_hash_tag p m)
    unfolding free_hash_tag
    free_hash_tag-Created m e =
        release-head (Created net p rs) _ m _ _ (same_table p hash_reconfig) e
          (free_hash_pen-Created _ refl)

    set_namespace-Created :
        (m : Module) → m.live ≡ owned p rs → Created net p rs (set_namespace p net m)
    unfolding set_namespace
    set_namespace-Created m e = go net
      where
        go : (o : Option ℕ) → Created o p rs (set_namespace p o m)
        go none = (refl, inl e)
        go (some net_ns) =
            obtain-both (Created (some net_ns) p rs) (socket p) m _
              (λ gs. (refl, inr ((λ n. cc), ap (◌∷◌ (socket p)) e))) λ gs. (refl, inl e)

  -- Whatever the kernel grants and refuses: `dysco_create_hashes` gives back nothing that it does
  -- not hold; if it returns NULL, the resources held are those that were held before; and if it
  -- returns a block, it is a new one, and the block, its five tables and at most one socket for it
  -- have come in, and no socket if no namespace was given.
  pub create_hashes-Created :
      (net_ns : Option ℕ) (m : Module) → Created net_ns m.made m.live (create_hashes net_ns m)
  unfolding create_hashes create_tables
  create_hashes-Created net_ns m =
      let p = m.made in
      let P = Created net_ns p m.live in
      obtain-both P (block p) _ _
        (λ _.
          obtain-both P (table p hash_out) _ _
            (λ _.
              obtain-both P (table p hash_in) _ _
                (λ _.
                  obtain-both P (table p hash_pen) _ _
                    (λ _.
                      obtain-both P (table p hash_reconfig) _ _
                        (λ _.
                          obtain-both P (table p hash_pen_tag) _ _
                            (λ _. set_namespace-Created net_ns p m.live _ refl)
                            λ _. free_hash_tag-Created net_ns p m.live _ refl)
                        λ _. free_hash_pen-Created net_ns p m.live _ refl)
                    λ _. free_hash_in-Created net_ns p m.live _ refl)
                λ _. free_hash_out-Created net_ns p m.live _ refl)
            λ _. free_nh_aux-Created net_ns p m.live _ refl)
        λ _. refl

  module _ (p : ℕ) (rs : List Resource) (h : has (socket p) rs ≡ false) (m : Module) where
    IsFreed : Option (Unit {0} × Module) → Type 0
    IsFreed r = r ≡ some (tt, record m { live = rs })

    -- A socket may stand in front.
    front : Bool → List Resource → List Resource
    front true xs = socket p ∷ xs
    front false xs = xs

    take_away-front :
        (s : Bool) (t : Table) (xs ys : List Resource)
        → take_away (table p t) xs ≡ some ys
        → take_away (table p t) (front s xs) ≡ some (front s ys)
    unfolding front
    take_away-front true t xs ys e = rw e refl
    take_away-front false t xs ys e = e

    release_block : IsFreed (release (block p) (record m { live = block p ∷ rs }))
    unfolding release IsFreed
    release_block =
        ap (λ o. and_then o λ ys. some (tt, record m { live = ys }))
          (take_away-head (block p) rs (eq_refl p))

    has-front : (s : Bool) → has (socket p) (front s (block p ∷ rs)) ≡ s
    unfolding front
    has-front true = rw (eq_refl p) refl
    has-front false = h

    free_block-IsFreed :
        (s b : Bool)
        → b ≡ s
        → IsFreed (
            ((if b then release (socket p) else pure tt) >> release (block p))
              (record m { live = front s (block p ∷ rs) }))
    unfolding front
    free_block-IsFreed true true e =
        release-held IsFreed (socket p) _ (block p ∷ rs) _
          (take_away-head (socket p) (block p ∷ rs) (eq_refl p)) release_block
    free_block-IsFreed false false e = release_block
    free_block-IsFreed true false e = absurd cc
    free_block-IsFreed false true e = absurd cc

    destroy_hashes-IsFreed :
        (s : Bool) → m.live ≡ front s (owned p rs) → IsFreed (destroy_hashes p m)
    unfolding destroy_hashes
    destroy_hashes-IsFreed s e =
        let l5 = block p ∷ rs in
        let l4 = table p hash_pen_tag ∷ l5 in
        let l3 = table p hash_pen_tag ∷ table p hash_reconfig ∷ l5 in
        let l2 = table p hash_pen_tag ∷ table p hash_reconfig ∷ table p hash_pen ∷ l5 in
        let l1 =
          table p hash_pen_tag ∷ table p hash_reconfig ∷ table p hash_pen ∷ table p hash_in ∷ l5 in
        release-held IsFreed (table p hash_out) m (front s l1) _
          (ap (take_away (table p hash_out)) e
            ∙ take_away-front s hash_out (owned p rs) l1 (rw (eq_refl p) refl))
          (release-held IsFreed (table p hash_in) _ (front s l2) _
            (take_away-front s hash_in l1 l2 (rw (eq_refl p) refl))
            (release-held IsFreed (table p hash_pen) _ (front s l3) _
              (take_away-front s hash_pen l2 l3 (rw (eq_refl p) refl))
              (release-held IsFreed (table p hash_reconfig) _ (front s l4) _
                (take_away-front s hash_reconfig l3 l4 (rw (eq_refl p) refl))
                (release-held IsFreed (table p hash_pen_tag) _ (front s l5) _
                  (take_away-front s hash_pen_tag l4 l5 (rw (eq_refl p) refl))
                  (free_block-IsFreed s _ (has-front s))))))

  -- Destroying a block that was just created, with or without a socket for its number, leaves the
  -- resources as they were before, if there was no socket for the number then.
  pub destroy_hashes-create_hashes :
      (net_ns : Option ℕ) (m m' : Module) (p : ℕ)
      → create_hashes net_ns m ≡ some (some p, m')
      → has (socket p) m.live ≡ false
      → destroy_hashes p m' ≡ some (tt, record m' { live = m.live })
  unfolding front IsFreed
  destroy_hashes-create_hashes net_ns m m' p e h =
      let (same_p, c) = subst (Created net_ns m.made m.live) e (create_hashes-Created net_ns m) in
      elim c [
        | inl c ↦ destroy_hashes-IsFreed p m.live h m' false (rw same_p c)
        | inr c ↦ destroy_hashes-IsFreed p m.live h m' true (rw same_p c.1)
      ]
