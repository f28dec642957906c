-- ===== src/Namespaces/Owned.antt =====
-- kernel/common/dysco_main.c: the state in which what the kernel handed out is what the table of
-- namespaces and the cache account for, and how new blocks come in.
use dysco.Base.{
  ℕ, zero, suc, ◌+◌, ◌≤◌, ◌<◌, ◌≡◌, ◌⊎◌, refl, sym, ap, subst, ◌∙◌, arith, ◌==◌, ==_iff, Bool-cases,
  Bool, true, false, ◌&&◌, inl, inr, if◌then◌else◌, Option, none, some, List, ◌∷◌, count,
}
use dysco.Kernel.{Rhashtable}
use dysco.Namespaces.{
  Table, hash_out, hash_in, hash_pen, hash_reconfig, hash_pen_tag, Resource, socket, table,
  table_number, Module, N, pure, ◌>>=◌, ◌>>◌, maybe, create_hashes, modify, fill_cache,
}
use dysco.Namespaces.Live.{owned, Created, create_hashes-Created}
use dysco.Namespaces.Resources.{held}
use dysco.Namespaces.Removed.{Holds, Holds-same, one}
use dysco.Namespaces.Steady.{Same, Stays, create_tables-Steady}

held-owned :
    (q : ℕ) (t : Table) (p : ℕ) (rs : List Resource)
    → held (table q t) (owned p rs) ≡ one q p + held (table q t) rs
held-owned q t p rs = go (q == p) t
  where
    n : ℕ
    n = held (table q t) rs

    go :
        (b : Bool) (t : Table)
        → (if b && (table_number t == 4) then 1 else 0)
            + ((if b && (table_number t == 3) then 1 else 0)
                + ((if b && (table_number t == 2) then 1 else 0)
                    + ((if b && (table_number t == 1) then 1 else 0)
                        + ((if b && (table_number t == 0) then 1 else 0) + (0 + n)))))
          ≡ (if b then 1 else 0) + n
    go false t = omega arith
    go true hash_out = omega arith
    go true hash_in = omega arith
    go true hash_pen = omega arith
    go true hash_reconfig = omega arith
    go true hash_pen_tag = omega arith

-- A new block, with or without a socket, is accounted for.
Holds-owned :
    {rs : List Resource} {b : ℕ} {f g : ℕ → ℕ} (p : ℕ)
    → Holds rs b f
    → f p ≡ 0
    → ((q : ℕ) → g q ≡ one q p + f q)
    → Holds (owned p rs) b g
Holds-owned {rs} {f = f} p h new_ more = record {
  blocks = λ q. omega (arith, h.blocks q, more q);
  tables = λ q t. omega (arith, held-owned q t p rs, h.tables q t, more q);
  sockets = λ q. omega (arith, h.sockets q, more q);
  names = omega (arith, h.names);
  once = λ q. elim (Bool-cases (q == p)) [
    | inl e ↦ omega (
      arith,
      more q,
      ap {B = ℕ} (λ c. if c then 1 else 0) e,
      subst (λ r. f r ≡ 0) (sym ((==_iff q p).0 e)) new_,
    )
    | inr e ↦ omega (arith, more q, ap {B = ℕ} (λ c. if c then 1 else 0) e, h.once q)
  ];
}

pub Holds-socket :
    {rs : List Resource} {b : ℕ} {f : ℕ → ℕ} (p : ℕ)
    → Holds rs b f
    → ((q : ℕ) → one q p + held (socket q) rs ≤ f q)
    → Holds (socket p ∷ rs) b f
Holds-socket p h room = record {
  blocks = λ q. omega (arith, h.blocks q);
  tables = λ q t. omega (arith, h.tables q t);
  sockets = λ q. omega (arith, room q);
  names = omega (arith, h.names);
  once = h.once;
}

module _ ⦃ns : Rhashtable ℕ⦄ where
  -- How often a block is in the table of namespaces or in the cache.
  abbrev pub accounted : Module → ℕ → ℕ
  accounted m q = count q (ns.entries m.ns_hash_table) + count q m.ns_hashes

  -- A block in the cache has no socket, and the next block will be a new one.
  pub record Owned (m : Module) : Type 0 where
    pub holds : Holds m.live 1 (accounted m)
    pub unused : (q : ℕ) → held (socket q) m.live ≤ count q (ns.entries m.ns_hash_table)
    pub older : (q : ℕ) → m.made ≤ q → accounted m q ≡ 0

  pub record Outcome (net : Option ℕ) (m : Module) : Type 0 where
    pub result : Option ℕ
    pub after : Module
    pub ends : create_hashes net m ≡ some (result, after)
    pub same : Same (record m { made = m.made + 1 }) after
    pub created : Created net m.made m.live (some (result, after))

  pub create_hashes-Outcome : (net : Option ℕ) (m : Module) → Outcome net m
  unfolding create_hashes
  create_hashes-Outcome net m =
      go (create_hashes net m) refl (create_hashes-Created net m)
        ((create_tables-Steady net m.made).run (record m { made = m.made + 1 }))
    where
      go :
          (r : Option (Option ℕ × Module))
          → create_hashes net m ≡ r
          → Created net m.made m.live r
          → Stays (record m { made = m.made + 1 }) r
          → Outcome net m
      go none e c s = absurd c
      go (some (o, m')) e c s = record { result = o; after = m'; ends = e; same = s; created = c }

  abbrev pub Ends : Module → Option (Unit {0} × Module) → Type 0
  Ends m r = Owned m → (m' : Module) × (r ≡ some (tt, m')) × Owned m'

  -- Nothing came in, but a name was used up.
  pub skipped :
      (m m' : Module)
      → Same (record m { made = m.made + 1 }) m'
      → m'.live ≡ m.live
      → Owned m
      → Owned m'
  skipped m m' s e h =
      let acc : (q : ℕ) → accounted m q ≡ accounted m' q = λ q.
        ap (λ t. count q (ns.entries t) + count q m.ns_hashes) (sym s.table_same)
        ∙ ap (λ c. count q (ns.entries m'.ns_hash_table) + count q c) (sym s.cache_same) in
      record {
        holds = subst (λ l. Holds l 1 (accounted m')) (sym e) (Holds-same h.holds acc);
        unused = λ q.
            subst (λ t. held (socket q) m'.live ≤ count q (ns.entries t)) (sym s.table_same)
              (subst (λ l. held (socket q) l ≤ count q (ns.entries m.ns_hash_table)) (sym e)
                (h.unused q));
        older = λ q l. sym (acc q) ∙ h.older q (omega (arith, s.made_same));
      }

  -- A new block came in and went to the table or to the cache.
  pub record Gained (m m' : Module) : Type 0 where
    pub made_more : m'.made ≡ m.made + 1
    pub more : (q : ℕ) → accounted m' q ≡ one q m.made + accounted m q
    pub kept :
        (q : ℕ) → count q (ns.entries m.ns_hash_table) ≤ count q (ns.entries m'.ns_hash_table)
    pub came :
        (m'.live ≡ owned m.made m.live)
        ⊎ (((q : ℕ)
              → one q m.made + count q (ns.entries m.ns_hash_table)
                ≤ count q (ns.entries m'.ns_hash_table))
            × (m'.live ≡ socket m.made ∷ owned m.made m.live))

  one_lt : (q p : ℕ) → p < q → one q p ≡ 0
  one_lt q p h = ground arith

  pub gained : (m m' : Module) → Owned m → Gained m m' → Owned m'
  gained m m' h g = record {
    holds = elim g.came [
      | inl e ↦ subst (λ l. Holds l 1 (accounted m')) (sym e) with_block
      | inr (room, e) ↦
          subst (λ l. Holds l 1 (accounted m')) (sym e)
            (Holds-socket m.made with_block λ q. omega (arith, g.more q, h.unused q))
    ];
    unused = λ q. elim g.came [
      | inl e ↦
          subst (λ l. held (socket q) l ≤ count q (ns.entries m'.ns_hash_table)) (sym e)
            (omega (arith, h.unused q, g.kept q))
      | inr (room, e) ↦
          subst (λ l. held (socket q) l ≤ count q (ns.entries m'.ns_hash_table)) (sym e)
            (omega (arith, h.unused q, room q))
    ];
    older = λ q l. omega (
      arith,
      g.more q,
      one_lt q m.made (omega (arith, g.made_more)),
      h.older q (omega (arith, g.made_more)),
    );
  }
    where
      with_block : Holds (owned m.made m.live) 1 (accounted m')
      with_block = Holds-owned m.made h.holds (h.older m.made (omega arith)) g.more

  pub fill_cache-Ends : (i : ℕ) (m : Module) → Ends m (fill_cache i m)
  unfolding fill_cache
  fill_cache-Ends zero m h = (m, refl, h)
  fill_cache-Ends (suc i) m h =
      let o = create_hashes-Outcome none m in
      go (fill_cache-Ends i) o.result o.after o.ends o.same o.created
    where
      next : Option ℕ → N (Unit {0})
      next dh =
          maybe dh (pure tt)
            λ p. do modify (λ v. record v { ns_hashes = p ∷ v.ns_hashes }); fill_cache i

      go :
          ((v : Module) → Ends v (fill_cache i v))
          → (r : Option ℕ) (v : Module) → create_hashes none m ≡ some (r, v)
          → Same (record m { made = m.made + 1 }) v
          → Created none m.made m.live (some (r, v))
          → (m' : Module) × ((create_hashes none >>= next) m ≡ some (tt, m')) × Owned m'
      go rec none v e s c =
          (v, ap (λ r. elim r [ none ↦ none | some (a, n) ↦ next a n ]) e, skipped m v s c h)
      go rec (some p) v e s (same_p, c) =
          let v' = record v { ns_hashes = p ∷ v.ns_hashes } in
          let (m', f, k) = rec v' (
            gained m v' h (record {
              made_more = s.made_same;
              more = λ q. rw (s.table_same, s.cache_same, same_p) omega arith;
              kept = λ q. rw s.table_same omega arith;
              came = inl (elim c [ inl e ↦ e | inr (n, e) ↦ absurd (n refl) ]);
            })) in
          (m', ap (λ r. elim r [ none ↦ none | some (a, n) ↦ next a n ]) e ∙ f, k)
