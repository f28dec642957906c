-- ===== src/Namespaces/Removed.antt =====
-- kernel/common/dysco_main.c: what is left of the resources when tables are destroyed.
use dysco.Base.{
  ℕ, ◌+◌, ◌≤◌, ◌≡◌, refl, sym, ap, subst, ◌∙◌, arith, Bool, true, false, Bool-cases, ◌&&◌, inl, inr,
  if◌then◌else◌, ◌==◌, ==_iff, Option, none, some, List, [], ◌∷◌, count, drop,
}
use dysco.Kernel.{Rhashtable}
use dysco.Namespaces.{
  Table, hash_out, hash_in, hash_pen, hash_reconfig, hash_pen_tag, Resource, ns_table, block,
  socket, table, table_number, has, Module, pure, ◌>>=◌, ◌>>◌, get, release, destroy_hashes,
  destroy_each, destroy_cached, destroy_namespaces,
}
use dysco.Namespaces.Resources.{held, held-nil, has-held, held-has, release_then-held, release-one}

-- What is held for blocks of which there are `f p` with the name `p`, and for `b` tables of
-- namespaces.
pub record Holds (live : List Resource) (b : ℕ) (f : ℕ → ℕ) : Type 0 where
  pub blocks : (p : ℕ) → held (block p) live ≡ f p
  pub tables : (p : ℕ) (t : Table) → held (table p t) live ≡ f p
  pub sockets : (p : ℕ) → held (socket p) live ≤ f p
  pub names : held ns_table live ≡ b
  pub once : (p : ℕ) → f p ≤ 1

abbrev pub one : ℕ → ℕ → ℕ
one p q = if p == q then 1 else 0

abbrev tables : ℕ → List Resource
tables p =
    table p hash_out
    ∷ table p hash_in
    ∷ table p hash_pen
    ∷ table p hash_reconfig
    ∷ table p hash_pen_tag
    ∷ []

pub Holds-same :
    {live : List Resource} {b : ℕ} {f g : ℕ → ℕ}
    → Holds live b f
    → ((q : ℕ) → f q ≡ g q)
    → Holds live b g
Holds-same h e = record {
  blocks = λ q. h.blocks q ∙ e q;
  tables = λ q t. h.tables q t ∙ e q;
  sockets = λ q. omega (arith, h.sockets q, e q);
  names = h.names;
  once = λ q. omega (arith, h.once q, e q);
}

-- A block has one of each table.
held-tables : (q : ℕ) (t : Table) (p : ℕ) → held (table q t) (tables p) ≡ one q p
held-tables q t p = go (q == p) t
  where
    go :
        (b : Bool) (t : Table)
        → (if b && (table_number t == 0) then 1 else 0)
            + ((if b && (table_number t == 1) then 1 else 0)
                + ((if b && (table_number t == 2) then 1 else 0)
                    + ((if b && (table_number t == 3) then 1 else 0)
                        + ((if b && (table_number t == 4) then 1 else 0) + 0))))
          ≡ (if b then 1 else 0)
    go false t = refl
    go true hash_out = refl
    go true hash_in = refl
    go true hash_pen = refl
    go true hash_reconfig = refl
    go true hash_pen_tag = refl

module _ ⦃ns : Rhashtable ℕ⦄ where
  -- What is left when the block `p` is destroyed.
  abbrev pub Left : (m : Module) (b : ℕ) (g : ℕ → ℕ) → Option (Unit {0} × Module) → Type 0
  Left m b g r = (ys : List Resource) × (r ≡ some (tt, record m { live = ys })) × Holds ys b g

  module _ (p : ℕ) (m : Module) (b : ℕ) (f g : ℕ → ℕ) (h : Holds m.live b f)
      (less : (q : ℕ) → f q ≡ one q p + g q) where
    fits : (s : Resource) → held s (tables p) ≤ held s m.live
    fits (table q t) = omega (arith, held-tables q t p, h.tables q t, less q)
    fits ns_table = omega arith
    fits (block q) = omega arith
    fits (socket q) = omega arith

    one_self : one p p ≡ 1
    one_self = ap (λ c. if c then 1 else 0) ((==_iff p p).1 refl)

    zero_if : (q : ℕ) → (q == p) ≡ false → one q p ≡ 0
    zero_if q e = ap (λ c. if c then 1 else 0) e

    finish :
        (zs : List Resource)
        → ((q : ℕ) → held (block q) m.live ≡ one q p + held (block q) zs)
        → ((q : ℕ) (t : Table) → held (table q t) m.live ≡ one q p + held (table q t) zs)
        → held ns_table m.live ≡ held ns_table zs
        → ((q : ℕ) → held (socket q) zs ≤ held (socket q) m.live)
        → held (socket p) zs ≡ 0
        → Holds zs b g
    finish zs u v w x y = record {
      blocks = λ q. omega (arith, u q, h.blocks q, less q);
      tables = λ q t. omega (arith, v q t, h.tables q t, less q);
      sockets = λ q. elim (Bool-cases (q == p)) [
        | inl e ↦ omega (arith, subst (λ r. held (socket r) zs ≡ 0) (sym ((==_iff q p).0 e)) y)
        | inr e ↦ omega (arith, x q, h.sockets q, less q, zero_if q e)
      ];
      names = omega (arith, h.names);
      once = λ q. omega (arith, h.once q, less q);
    }

    -- The end of `dysco_destroy_hashes`, when the tables have gone.
    module _ (ys : List Resource)
        (u : (s : Resource) → held s m.live ≡ held s (tables p) + held s ys) where
      destroy_block :
          (c : Bool)
          → has (socket p) ys ≡ c
          → Left m b g (
              ((if c then release (socket p) else pure tt) >> release (block p))
                (record m { live = ys }))
      destroy_block false e =
          let (zs, r, v) =
            release-one (block p) (record m { live = ys })
              (omega (arith, u (block p), h.blocks p, less p, one_self)) in
          (
            zs,
            r,
            finish zs (λ q. omega (arith, u (block q), v (block q)))
                (λ q t. omega (arith, u (table q t), v (table q t), held-tables q t p))
                (omega (arith, u ns_table, v ns_table))
                (λ q. omega (arith, u (socket q), v (socket q)))
                (omega (arith, has-held (socket p) ys e, v (socket p))),
          )
      destroy_block true e =
          let (xs, r, v) =
            release-one (socket p) (record m { live = ys }) (held-has (socket p) ys e) in
          let (zs, r', v') =
            release-one (block p) (record m { live = xs })
              (omega (arith, u (block p), v (block p), h.blocks p, less p, one_self)) in
          (
            zs,
            ap (λ o. elim o [ none ↦ none | some (a, n) ↦ release (block p) n ]) r ∙ r',
            finish zs (λ q. omega (arith, u (block q), v (block q), v' (block q)))
                (λ q t.
                  omega (arith, u (table q t), v (table q t), v' (table q t), held-tables q t p))
                (omega (arith, u ns_table, v ns_table, v' ns_table))
                (λ q. omega (arith, u (socket q), v (socket q), v' (socket q)))
                (omega (
                  arith,
                  v (socket p),
                  v' (socket p),
                  u (socket p),
                  h.sockets p,
                  h.once p,
                  one_self,
                )),
          )

    pub destroy_hashes-Left : Left m b g (destroy_hashes p m)
    unfolding destroy_hashes
    destroy_hashes-Left =
        release_then-held (Left m b g) (tables p) _ m fits λ ys u. destroy_block ys u _ refl

  -- All blocks of a list are destroyed.
  pub destroy_each-Left :
      (ps : List ℕ) (m : Module) (b : ℕ) (g : ℕ → ℕ)
      → Holds m.live b (λ q. count q ps + g q)
      → Left m b g (destroy_each ps m)
  unfolding destroy_each
  destroy_each-Left [] m b g h = (m.live, refl, Holds-same h (λ q. omega arith))
  destroy_each-Left (p ∷ ps) m b g h =
      let (ys, r, h') = destroy_hashes-Left p m b _ (λ q. count q ps + g q) h (λ q. omega arith) in
      let (zs, r', h'') = destroy_each-Left ps (record m { live = ys }) b g h' in
      (zs, ap (λ o. elim o [ none ↦ none | some (a, n) ↦ destroy_each ps n ]) r ∙ r', h'')

  -- The same for the blocks of the cache, which is emptied on the way.
  destroy_cached-Holds :
      (ps : List ℕ) (m : Module) (b : ℕ)
      → Holds m.live b (λ q. count q ps)
      → (m' : Module) × (destroy_cached ps m ≡ some (tt, m')) × Holds m'.live b (λ q. 0)
  unfolding destroy_cached
  destroy_cached-Holds [] m b h = (m, refl, h)
  destroy_cached-Holds (p ∷ ps) m b h =
      let (ys, r, h') =
        destroy_hashes-Left p (record m { ns_hashes = drop 1 m.ns_hashes }) b _ (λ q. count q ps) h
          (λ q. refl) in
      let (m', r', h'') =
        destroy_cached-Holds ps (record m { ns_hashes = drop 1 m.ns_hashes; live = ys }) b h' in
      (m', ap (λ o. elim o [ none ↦ none | some (a, n) ↦ destroy_cached ps n ]) r ∙ r', h'')

  Holds-none : (live : List Resource) → Holds live 0 (λ q. 0) → live ≡ []
  Holds-none live h = held-nil live (elim [
    | ns_table ↦ h.names
    | block p ↦ h.blocks p
    | socket p ↦ omega (arith, h.sockets p)
    | table p t ↦ h.tables p t
  ])

  -- Where what is held is just what the table of namespaces and the cache account for, destroying
  -- the namespaces gives everything back.
  pub destroy_namespaces-empty :
      (m : Module)
      → Holds m.live 1 (λ q. count q (ns.entries m.ns_hash_table) + count q m.ns_hashes)
      → (m' : Module) × (destroy_namespaces m ≡ some (tt, m')) × (m'.live ≡ [])
  unfolding destroy_namespaces
  destroy_namespaces-empty m h =
      let (ys, r, h') = destroy_each-Left (ns.entries m.ns_hash_table) m 1 _ h in
      let (zs, u, v) = release-one ns_table (record m { live = ys }) (omega (arith, h'.names)) in
      let (m', w, h'') =
        destroy_cached-Holds m.ns_hashes (record m { live = zs }) 0
          (record {
            blocks = λ q. omega (arith, v (block q), h'.blocks q);
            tables = λ q t. omega (arith, v (table q t), h'.tables q t);
            sockets = λ q. omega (arith, v (socket q), h'.sockets q);
            names = omega (arith, v ns_table, h'.names);
            once = h'.once;
          }) in
      (
        m',
        ap
              (λ o. elim o [
                | none ↦ none
                | some (a, n) ↦ (do release ns_table; c ← get; destroy_cached c.ns_hashes) n
              ])
              r
            ∙ ap (λ o. elim o [ none ↦ none | some (a, n) ↦ destroy_cached n.ns_hashes n ]) u
            ∙ w,
        Holds-none m'.live h'',
      )
