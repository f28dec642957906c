-- ===== src/Namespaces/Lifetime.antt =====
-- kernel/common/dysco_main.c: from the start of the module to its removal, what the kernel handed
-- out is what the table of namespaces and the cache account for.
use dysco.Base.{
  ℕ, ◌+◌, ◌≡◌, refl, sym, ap, ◌∙◌, arith, ◌==◌, Bool, true, inl, inr, Option, none, some, List, [],
  ◌∷◌, count, drop, head?,
}
use dysco.Kernel.{Rhashtable, RhashtableLaws}
use dysco.Namespaces.{
  ns_table, socket, Module, N, pure, ◌>>=◌, ◌>>◌, maybe, create_hashes, assign, new_namespace,
  dev_event, dev_events, init_hashes, init, deinit, modify, fill_cache, obtain, max_namespaces,
}
use dysco.Namespaces.Live.{Created, obtain-both}
use dysco.Namespaces.Removed.{Holds-same, one, destroy_namespaces-empty}
use dysco.Namespaces.Steady.{Same}
use dysco.Namespaces.Owned.{
  Holds-socket, accounted, Owned, create_hashes-Outcome, Ends, skipped, gained, fill_cache-Ends,
}
use dysco.Namespaces.Served.{boot}

module _ ⦃ns : Rhashtable ℕ⦄ where
  module _ (laws : RhashtableLaws ◌==◌ ns) where
    open laws use {entries-insert}

    assign-Ends :
        (n p : ℕ) (rest : List ℕ) (m : Module)
        → ns.lookup m.ns_hash_table n ≡ none
        → m.ns_hashes ≡ p ∷ rest
        → Ends m (assign n p m)
    unfolding assign
    assign-Ends n p rest m e f h =
        obtain-both (λ r. (m' : Module) × (r ≡ some (tt, m')) × Owned m') (socket p) taken _
          (λ gs. (
            _,
            refl,
            record {
              holds =
                  Holds-socket p (Holds-same h.holds moved)
                    λ q. omega (arith, inserted q, h.unused q);
              unused = λ q. omega (arith, inserted q, h.unused q);
              older = λ q l. sym (moved q) ∙ h.older q l;
            },
          ))
          λ gs. (
            _,
            refl,
            record {
              holds = Holds-same h.holds moved;
              unused = λ q. omega (arith, inserted q, h.unused q);
              older = λ q l. sym (moved q) ∙ h.older q l;
            },
          )
      where
        taken : Module
        taken = record m {
          ns_hashes = drop 1 m.ns_hashes;
          ns_hash_table = ns.insert m.ns_hash_table n p;
          tot_namespaces = m.tot_namespaces + 1;
        }

        inserted :
            (q : ℕ)
            → count q (ns.entries taken.ns_hash_table)
              ≡ one q p + count q (ns.entries m.ns_hash_table)
        inserted q = entries-insert m.ns_hash_table n p q e

        moved : (q : ℕ) → accounted m q ≡ accounted taken q
        moved q = omega (arith, inserted q, ap (count q) f, ap (λ c. count q (drop 1 c)) f)

    new_namespace-Ends :
        (n : ℕ) (m : Module) → ns.lookup m.ns_hash_table n ≡ none → Ends m (new_namespace n m)
    unfolding new_namespace
    new_namespace-Ends n m e h = go m.ns_hashes refl
      where
        go :
            (ps : List ℕ)
            → m.ns_hashes ≡ ps
            → (m' : Module) × (maybe (head? ps) (pure tt) (λ p. assign n p) m ≡ some (tt, m'))
              × Owned m'
        go [] f = (m, refl, h)
        go (p ∷ rest) f = assign-Ends n p rest m e f h

    dev_event-Ends : (n : ℕ) (m : Module) → Ends m (dev_event true n m)
    unfolding dev_event
    dev_event-Ends n m h = go (ns.lookup m.ns_hash_table n) refl
      where
        go :
            (o : Option ℕ)
            → ns.lookup m.ns_hash_table n ≡ o
            → (m' : Module) × (maybe o (new_namespace n) (λ p. pure tt) m ≡ some (tt, m'))
              × Owned m'
        go none e = new_namespace-Ends n m e h
        go (some p) e = (m, refl, h)

    pub dev_events-Ends :
        (nets : List ℕ) (m : Module)
        → Owned m
        → (m' : Module) × (dev_events nets m ≡ some (tt, m')) × Owned m'
    unfolding dev_events
    dev_events-Ends [] m h = (m, refl, h)
    dev_events-Ends (n ∷ nets) m h =
        let (v, e, k) = dev_event-Ends n m h in
        let (m', f, l) = dev_events-Ends nets v k in
        (m', ap (λ r. elim r [ none ↦ none | some (a, w) ↦ dev_events nets w ]) e ∙ f, l)

    module _ (t : ns.T) (init_net : ℕ) (none_yet : (n : ℕ) → ns.lookup t n ≡ none)
        (no_entry : ns.entries t ≡ []) (grants : List Bool) where
      -- The module before it starts, where the memory for the table of namespaces is granted.
      abbrev booting : Module
      booting = record (boot t) { grants = true ∷ grants }

      -- The module when the table of namespaces is there.
      abbrev begun : Module
      begun = record (boot t) { live = ns_table ∷ []; grants = grants }

      begun-Owned : Owned begun
      begun-Owned =
          let acc : (q : ℕ) → accounted begun q ≡ 0 = λ q. ap (λ es. count q es + 0) no_entry in
          record {
            holds =
                Holds-same
                  (record {
                    blocks = λ q. refl;
                    tables = λ q u. refl;
                    sockets = λ q. omega arith;
                    names = refl;
                    once = λ q. omega arith;
                  })
                  (λ q. sym (acc q));
            unused = λ q. omega arith;
            older = λ q l. acc q;
          }

      -- The end of `dysco_init_hashes`.
      abbrev filled : Option ℕ → N (Unit {0})
      filled dh = do
        maybe dh (pure tt)
            λ p. modify (λ v. record v { ns_hash_table = ns.insert v.ns_hash_table init_net p })
        fill_cache max_namespaces

      init-Owned : (m' : Module) × (init init_net booting ≡ some (tt, m')) × Owned m'
      unfolding init init_hashes obtain
      init-Owned =
          let o = create_hashes-Outcome (some init_net) begun in
          go o.result o.after o.ends o.same o.created
        where
          go :
              (r : Option ℕ) (v : Module)
              → create_hashes (some init_net) begun ≡ some (r, v)
              → Same (record begun { made = begun.made + 1 }) v
              → Created (some init_net) begun.made begun.live (some (r, v))
              → (m' : Module) × ((create_hashes (some init_net) >>= filled) begun ≡ some (tt, m'))
                × Owned m'
          go none v e s c =
              let (m', f, k) = fill_cache-Ends max_namespaces v (skipped begun v s c begun-Owned) in
              (m', ap (λ r. elim r [ none ↦ none | some (a, n) ↦ filled a n ]) e ∙ f, k)
          go (some p) v e s (same_p, c) =
              let v' = record v { ns_hash_table = ns.insert v.ns_hash_table init_net p } in
              let ins : (q : ℕ)
                  → count q (ns.entries v'.ns_hash_table) ≡ one q 0 + count q (ns.entries t) =
                λ q.
                  rw (s.table_same, same_p) (entries-insert t init_net 0 q (none_yet init_net)) in
              let (m', f, k) = fill_cache-Ends max_namespaces v' (
                gained begun v' begun-Owned (record {
                  made_more = s.made_same;
                  more = λ q. omega (arith, ins q, ap (count q) s.cache_same);
                  kept = λ q. omega (arith, ins q);
                  came = elim c [
                    | inl f ↦ inl f
                    | inr (g, f) ↦ inr ((λ q. omega (arith, ins q)), f)
                  ];
                })) in
              (m', ap (λ r. elim r [ none ↦ none | some (a, n) ↦ filled a n ]) e ∙ f, k)

      -- The module starts with a table for the namespaces, and devices are then set up in any list
      -- of namespaces, whatever else the kernel refuses. Removing the module then runs to its end,
      -- gives back nothing that is not held, and leaves nothing held.
      pub deinit-init :
          (nets : List ℕ)
          → (m : Module) × ((do init init_net; dev_events nets; deinit) booting ≡ some (tt, m))
            × (m.live ≡ [])
      unfolding deinit
      deinit-init nets =
          let (u, e, h) = init-Owned in
          let (v, f, k) = dev_events-Ends nets u h in
          let (m, g, l) = destroy_namespaces-empty v k.holds in
          (
            m,
            ap (λ r. elim r [ none ↦ none | some (a, w) ↦ (do dev_events nets; deinit) w ]) e
                ∙ ap (λ r. elim r [ none ↦ none | some (a, w) ↦ deinit w ]) f
                ∙ g,
            l,
          )
