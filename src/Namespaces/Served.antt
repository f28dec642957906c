-- ===== src/Namespaces/Served.antt =====
-- kernel/common/dysco_main.c: from the start of the module on, each namespace gets tables of its
-- own as long as the cache lasts.
use dysco.Base.{
  ℕ, zero, suc, ◌+◌, ◌≤◌, ◌<◌, ◌≡◌, ◌≢◌, refl, sym, ap, subst, ◌∙◌, arith, ◌==◌, ==_iff, Bool-cases,
  inl, inr, if◌then◌else◌, Option, none, some, List, [], ◌∷◌, get_elem?, length,
}
use dysco.Kernel.{Rhashtable, RhashtableLaws}
use dysco.Namespaces.{
  Module, ◌>>◌, dev_events, init_hashes, fill_cache, create_tables, create_hashes, set_namespace,
  obtain, max_namespaces,
}
use dysco.Namespaces.Events.{tables_of, dev_event-Ends}
use dysco.Namespaces.Assigned.{IsSeparate, Goes, Goes-same, Goes-trans, Served, Event-Serves}

some-inj : {x y : ℕ} → some x ≡ some y → x ≡ y
some-inj {x} e = ap (λ o. elim o [ none ↦ x | some z ↦ z ]) e

none-ne_some : {x : ℕ} → none ≢ some x
none-ne_some e = cc

module _ ⦃ns : Rhashtable ℕ⦄ where
  -- The events all end, with the namespaces served.
  record AllServed (nets : List ℕ) (m : Module) (r : Option (Unit {0} × Module)) : Type 0 where
    pub after : Module
    pub ends : r ≡ some (tt, after)
    pub goes : Goes m after
    pub served : Served after nets

  module _ (laws : RhashtableLaws ◌==◌ ns) where
    dev_events-AllServed :
        (nets : List ℕ) (m : Module)
        → length nets ≤ length m.ns_hashes
        → AllServed nets m (dev_events nets m)
    unfolding dev_events
    dev_events-AllServed [] m h = record { after = m; ends = refl; goes = Goes-same m; served = tt }
    dev_events-AllServed (n ∷ nets) m h =
        let first = dev_event-Ends n m in
        let s = Event-Serves laws n m first.after (omega arith) first.event in
        let rest = dev_events-AllServed nets first.after (omega (arith, s.left)) in
        record {
          after = rest.after;
          ends =
              ap (λ r. elim r [ none ↦ none | some (a, v) ↦ dev_events nets v ]) first.ends
              ∙ rest.ends;
          goes = Goes-trans s.goes rest.goes;
          served = ((s.served.0, rest.goes.kept n s.served.0 s.served.1), rest.served);
        }

  -- The module before it starts, with the empty table that `rhashtable_init` is to make.
  abbrev pub boot : ns.T → Module
  boot t = record {
    live = [];
    grants = [];
    made = 0;
    ns_hash_table = t;
    ns_hashes = [];
    tot_namespaces = 0;
  }

  -- The cache that the start leaves.
  abbrev down : ℕ → List ℕ
  down zero = []
  down (suc n) = suc n ∷ down n

  get_elem?-down : (n i p : ℕ) → get_elem? (down n) i ≡ some p → (p + i ≡ n) × (0 < p)
  get_elem?-down zero i p e = absurd cc
  get_elem?-down (suc n) zero p e =
      let same = some-inj e in (omega (arith, same), omega (arith, same))
  get_elem?-down (suc n) (suc i) p e = let h = get_elem?-down n i p e in (omega (arith, h.0), h.1)

  record Booted (t : ns.T) (init_net : ℕ) : Type 0 where
    after : Module
    ends : init_hashes init_net (boot t) ≡ some (tt, after)
    cache : after.ns_hashes ≡ down max_namespaces
    assigned : after.ns_hash_table ≡ ns.insert t init_net 0

  init_hashes-Booted : (t : ns.T) (init_net : ℕ) → Booted t init_net
  unfolding init_hashes create_tables create_hashes fill_cache set_namespace obtain
  init_hashes-Booted t init_net = record { after = _; ends = refl; cache = refl; assigned = refl }

  module _ (laws : RhashtableLaws ◌==◌ ns) (t : ns.T) (init_net : ℕ)
      (none_yet : (n : ℕ) → ns.lookup t n ≡ none) where
    open laws use {lookup-insert}

    booted : Booted t init_net
    booted = init_hashes-Booted t init_net

    table-booted :
        (k : ℕ) → tables_of booted.after k ≡ (if init_net == k then some 0 else ns.lookup t k)
    table-booted k =
        ap (λ h. ns.lookup h k) booted.assigned ∙ lookup-insert t init_net k 0 (none_yet init_net)

    lookup-booted : (k p : ℕ) → tables_of booted.after k ≡ some p → (init_net ≡ k) × (p ≡ 0)
    lookup-booted k p e = elim (Bool-cases (init_net == k)) [
      | inl i ↦ ((==_iff init_net k).0 i, some-inj (sym e ∙ table-booted k ∙ rw i refl))
      | inr i ↦ absurd (none-ne_some (sym (none_yet k) ∙ sym (table-booted k ∙ rw i refl) ∙ e))
    ]

    cache-booted :
        (i p : ℕ) → get_elem? booted.after.ns_hashes i ≡ some p → (p + i ≡ max_namespaces) × (0 < p)
    cache-booted i p f =
        get_elem?-down max_namespaces i p (ap (λ l. get_elem? l i) (sym booted.cache) ∙ f)

    booted-IsSeparate : IsSeparate booted.after
    booted-IsSeparate = record {
      apart = λ n k p h i. sym (lookup-booted n p h).0 ∙ (lookup-booted k p i).0;
      in_use = λ n p i h f. omega (arith, (cache-booted i p f).1, (lookup-booted n p h).1);
      cached = λ i j p f g. omega (arith, (cache-booted i p f).0, (cache-booted j p g).0);
    }

    init_net-Served : Served booted.after (init_net ∷ [])
    init_net-Served = (
      (
        0,
        table-booted init_net
            ∙ ap (λ b. if b then some 0 else ns.lookup t init_net)
                ((==_iff init_net init_net).1 refl),
      ),
      tt,
    )

    -- The module starts with memory for all that it asks for, and devices are then set up in any
    -- list of at most 20 namespaces, with repetitions counted: nothing faults, afterwards the first
    -- namespace and each of the list have tables, no two namespaces share theirs, and the tables in
    -- the cache are distinct and belong to no namespace.
    pub init_hashes-dev_events :
        (nets : List ℕ)
        → length nets ≤ max_namespaces
        → (m : Module) × ((do init_hashes init_net; dev_events nets) (boot t) ≡ some (tt, m))
          × Served m (init_net ∷ nets)
          × IsSeparate m
    init_hashes-dev_events nets h =
        let rest =
          dev_events-AllServed laws nets booted.after
            (subst (λ l. length nets ≤ length l) (sym booted.cache) h) in
        let first = init_net-Served.0 in
        (
          rest.after,
          ap (λ r. elim r [ none ↦ none | some (a, v) ↦ dev_events nets v ]) booted.ends
              ∙ rest.ends,
          ((first.0, rest.goes.kept init_net first.0 first.1), rest.served),
          rest.goes.separate booted-IsSeparate,
        )
