-- ===== src/Namespaces/Steady.antt =====
-- What of kernel/common/dysco_main.c takes and gives back resources, and changes nothing else.
use dysco.Base.{
  ℕ, ◌≡◌, refl, ◌∙◌, Bool, true, false, Option, none, some, List, ◌∷◌, and_then, if◌then◌else◌,
}
use dysco.Kernel.{Rhashtable}
use dysco.Namespaces.{
  Resource, take_away, answer, Module, N, pure, ◌>>=◌, obtain, release, free_nh_aux, free_hash_out,
  free_hash_in, free_hash_pen, free_hash_tag, set_namespace, create_tables,
}

module _ ⦃ns : Rhashtable ℕ⦄ where
  pub record Same (m m' : Module) : Type 0 where
    pub table_same : m'.ns_hash_table ≡ m.ns_hash_table
    pub cache_same : m'.ns_hashes ≡ m.ns_hashes
    pub made_same : m'.made ≡ m.made

  abbrev pub Stays : {A : Type 0} → Module → Option (A × Module) → Type 0
  Stays m none = Unit {0}
  Stays m (some (a, m')) = Same m m'

  pub record Steady {A : Type 0} (n : N A) : Type 0 where
    pub run : (m : Module) → Stays m (n m)

module _ ⦃ns : Rhashtable ℕ⦄ {A : Type 0} where
  Steady-pure : (a : A) → Steady (pure a)
  Steady-pure a = record {
    run = λ m. record { table_same = refl; cache_same = refl; made_same = refl };
  }

  Steady-if : (b : Bool) (n o : N A) → Steady n → Steady o → Steady (if b then n else o)
  Steady-if true n o p q = p
  Steady-if false n o p q = q

module _ ⦃ns : Rhashtable ℕ⦄ {A B : Type 0} where
  Stays-bind :
      (m : Module) (r : Option (A × Module)) (f : A → N B)
      → Stays m r
      → ((a : A) → Steady (f a))
      → Stays m (elim r [ none ↦ none | some (a, v) ↦ f a v ])
  Stays-bind m none f h kf = tt
  Stays-bind m (some (a, v)) f h kf = go (f a v) ((kf a).run v)
    where
      go : (o : Option (B × Module)) → Stays v o → Stays m o
      go none u = tt
      go (some (b, w)) u = record {
        table_same = u.table_same ∙ h.table_same;
        cache_same = u.cache_same ∙ h.cache_same;
        made_same = u.made_same ∙ h.made_same;
      }

  Steady-bind : {n : N A} {f : A → N B} → Steady n → ((a : A) → Steady (f a)) → Steady (n >>= f)
  Steady-bind {n} {f} kn kf = record { run = λ m. Stays-bind m (n m) f (kn.run m) kf }

module _ ⦃ns : Rhashtable ℕ⦄ where
  pub Steady-obtain : (r : Resource) → Steady (obtain r)
  unfolding obtain
  Steady-obtain r = record { run = λ m. go m (answer m.grants).0 (answer m.grants).1 }
    where
      go :
          (m : Module) (b : Bool) (gs : List Bool)
          → Stays m (
              if b
              then some (true, record m { live = r ∷ m.live; grants = gs })
              else some (false, record m { grants = gs }))
      go m true gs = record { table_same = refl; cache_same = refl; made_same = refl }
      go m false gs = record { table_same = refl; cache_same = refl; made_same = refl }

  Steady-release : (r : Resource) → Steady (release r)
  unfolding release
  Steady-release r = record { run = λ m. go m (take_away r m.live) }
    where
      go :
          (m : Module) (o : Option (List Resource))
          → Stays m (and_then o λ rs. some (tt, record m { live = rs }))
      go m none = tt
      go m (some rs) = record { table_same = refl; cache_same = refl; made_same = refl }

  ruleset steady_rules = (Steady-pure, Steady-if, Steady-bind, Steady-obtain, Steady-release)

  free_nh_aux-Steady : (p : ℕ) → Steady (free_nh_aux p)
  unfolding free_nh_aux
  free_nh_aux-Steady p = search steady_rules

  free_hash_out-Steady : (p : ℕ) → Steady (free_hash_out p)
  unfolding free_hash_out
  free_hash_out-Steady p = search (steady_rules, free_nh_aux-Steady)

  free_hash_in-Steady : (p : ℕ) → Steady (free_hash_in p)
  unfolding free_hash_in
  free_hash_in-Steady p = search (steady_rules, free_hash_out-Steady)

  free_hash_pen-Steady : (p : ℕ) → Steady (free_hash_pen p)
  unfolding free_hash_pen
  free_hash_pen-Steady p = search (steady_rules, free_hash_in-Steady)

  free_hash_tag-Steady : (p : ℕ) → Steady (free_hash_tag p)
  unfolding free_hash_tag
  free_hash_tag-Steady p = search (steady_rules, free_hash_pen-Steady)

  set_namespace-Steady : (p : ℕ) (net_ns : Option ℕ) → Steady (set_namespace p net_ns)
  unfolding set_namespace
  set_namespace-Steady p none = Steady-pure (some p)
  set_namespace-Steady p (some net_ns) = search steady_rules

  pub create_tables-Steady : (net_ns : Option ℕ) (p : ℕ) → Steady (create_tables net_ns p)
  unfolding create_tables
  create_tables-Steady net_ns p =
      search
        (
          steady_rules, free_nh_aux-Steady, free_hash_out-Steady, free_hash_in-Steady,
          free_hash_pen-Steady, free_hash_tag-Steady, set_namespace-Steady,
        )
        depth 40
