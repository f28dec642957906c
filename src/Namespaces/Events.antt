-- ===== src/Namespaces/Events.antt =====
-- kernel/common/dysco_main.c, `dysco_dev_event`: how an event ends.
use dysco.Base.{
  ℕ, ◌+◌, ◌≡◌, refl, ap, Bool, true, false, Option, none, some, List, [], ◌∷◌, head?, drop,
  if◌then◌else◌,
}
use dysco.Kernel.{Rhashtable}
use dysco.Namespaces.{
  socket, Module, pure, ◌>>=◌, maybe, obtain, answer, assign, new_namespace, dev_event,
}

module _ ⦃ns : Rhashtable ℕ⦄ where
  -- The tables that a namespace has.
  abbrev pub tables_of : Module → ℕ → Option ℕ
  tables_of m net_ns = ns.lookup m.ns_hash_table net_ns

  -- How an event ends: nothing is done, or the first block of the cache goes to the namespace.
  pub data Event (m : Module) (n : ℕ) : Module → Type 0 where
    known : (p : ℕ) → tables_of m n ≡ some p → Event m n m
    empty : tables_of m n ≡ none → m.ns_hashes ≡ [] → Event m n m
    given :
        (p : ℕ) (rest : List ℕ) (m' : Module)
        → tables_of m n ≡ none
        → m.ns_hashes ≡ p ∷ rest
        → m'.ns_hash_table ≡ ns.insert m.ns_hash_table n p
        → m'.ns_hashes ≡ rest
        → m'.tot_namespaces ≡ m.tot_namespaces + 1
        → Event m n m'

  -- An event always ends, in one of these ways.
  pub record Ends (n : ℕ) (m : Module) (r : Option (Unit {0} × Module)) : Type 0 where
    pub after : Module
    pub ends : r ≡ some (tt, after)
    pub event : Event m n after

  assign-Ends :
      (n p : ℕ) (rest : List ℕ) (m : Module)
      → tables_of m n ≡ none
      → m.ns_hashes ≡ p ∷ rest
      → Ends n m (assign n p m)
  unfolding assign obtain
  assign-Ends n p rest m e f = go (answer m.grants).0 (answer m.grants).1
    where
      taken : Module
      taken = record m {
        ns_hashes = drop 1 m.ns_hashes;
        ns_hash_table = ns.insert m.ns_hash_table n p;
        tot_namespaces = m.tot_namespaces + 1;
      }

      go :
          (b : Bool) (gs : List Bool)
          → Ends n m (
              ((λ v.
                    if b
                    then some (true, record v { live = socket p ∷ v.live; grants = gs })
                    else some (false, record v { grants = gs }))
                  >>= λ ok. pure tt)
                taken)
      go true gs = record {
        after = _;
        ends = refl;
        event = given p rest _ e f refl (ap (drop 1) f) refl;
      }
      go false gs = record {
        after = _;
        ends = refl;
        event = given p rest _ e f refl (ap (drop 1) f) refl;
      }

  new_namespace-Ends : (n : ℕ) (m : Module) → tables_of m n ≡ none → Ends n m (new_namespace n m)
  unfolding new_namespace
  new_namespace-Ends n m e = go m.ns_hashes refl
    where
      go :
          (ps : List ℕ)
          → m.ns_hashes ≡ ps
          → Ends n m (maybe (head? ps) (pure tt) (λ p. assign n p) m)
      go [] f = record { after = m; ends = refl; event = empty e f }
      go (p ∷ rest) f = assign-Ends n p rest m e f

  pub dev_event-Ends : (n : ℕ) (m : Module) → Ends n m (dev_event true n m)
  unfolding dev_event
  dev_event-Ends n m = go (tables_of m n) refl
    where
      go :
          (o : Option ℕ) → tables_of m n ≡ o → Ends n m (maybe o (new_namespace n) (λ p. pure tt) m)
      go none e = new_namespace-Ends n m e
      go (some p) e = record { after = m; ends = refl; event = known p e }
