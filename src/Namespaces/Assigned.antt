-- ===== src/Namespaces/Assigned.antt =====
-- kernel/common/dysco_main.c: which tables a namespace has, and from when on.
use dysco.Base.{
  ℕ, suc, ◌+◌, ◌≤◌, ◌<◌, ◌≡◌, ◌≢◌, ◌⊎◌, inl, inr, refl, sym, ap, ◌∙◌, arith, ◌==◌, ==_iff, none,
  some, List, [], ◌∷◌, get_elem?, length, if◌then◌else◌, Bool-cases,
}
use dysco.Kernel.{Rhashtable, RhashtableLaws}
use dysco.Namespaces.{Module}
use dysco.Namespaces.Events.{tables_of, Event, known, empty, given}

some-inj : {x y : ℕ} → some x ≡ some y → x ≡ y
some-inj {x} e = ap (λ o. elim o [ none ↦ x | some z ↦ z ]) e

none-ne_some : {x : ℕ} → none ≢ some x
none-ne_some e = cc

module _ ⦃ns : Rhashtable ℕ⦄ where
  -- Two namespaces share no tables, and none has tables that are still in the cache.
  pub record IsSeparate (m : Module) : Type 0 where
    pub apart : (n k p : ℕ) → tables_of m n ≡ some p → tables_of m k ≡ some p → n ≡ k
    pub in_use : (n p i : ℕ) → tables_of m n ≡ some p → get_elem? m.ns_hashes i ≢ some p
    pub cached :
        (i j p : ℕ) → get_elem? m.ns_hashes i ≡ some p → get_elem? m.ns_hashes j ≡ some p → i ≡ j

  -- Every namespace of the list has tables.
  abbrev pub Served : Module → List ℕ → Type 0
  Served m [] = Unit {0}
  Served m (n ∷ nets) = ((p : ℕ) × (tables_of m n ≡ some p)) × Served m nets

  -- What an event or a list of events leaves of the module before it.
  pub record Goes (m m' : Module) : Type 0 where
    pub kept : (n p : ℕ) → tables_of m n ≡ some p → tables_of m' n ≡ some p
    pub separate : IsSeparate m → IsSeparate m'

  pub Goes-same : (m : Module) → Goes m m
  Goes-same m = record { kept = λ n p e. e; separate = λ s. s }

  pub Goes-trans : {l m o : Module} → Goes l m → Goes m o → Goes l o
  Goes-trans g h = record {
    kept = λ n p e. h.kept n p (g.kept n p e);
    separate = λ s. h.separate (g.separate s);
  }

  module _ (laws : RhashtableLaws ◌==◌ ns) where
    open laws use {lookup-insert}

    -- An event that gives the tables `p` to `n`.
    module _ (m m' : Module) (n p : ℕ) (rest : List ℕ) (e : tables_of m n ≡ none)
        (f : m.ns_hashes ≡ p ∷ rest) (t : m'.ns_hash_table ≡ ns.insert m.ns_hash_table n p)
        (c : m'.ns_hashes ≡ rest) where
      lookup-given : (k : ℕ) → tables_of m' k ≡ (if n == k then some p else tables_of m k)
      lookup-given k = ap (λ h. ns.lookup h k) t ∙ lookup-insert m.ns_hash_table n k p e

      given_to : tables_of m' n ≡ some p
      given_to =
          lookup-given n ∙ ap (λ b. if b then some p else tables_of m n) ((==_iff n n).1 refl)

      given-kept : (k q : ℕ) → tables_of m k ≡ some q → tables_of m' k ≡ some q
      given-kept k q h = elim (Bool-cases (n == k)) [
        | inl i ↦ absurd (none-ne_some (sym e ∙ ap (tables_of m) ((==_iff n k).0 i) ∙ h))
        | inr i ↦ lookup-given k ∙ rw i h
      ]

      given-cases :
          (k q : ℕ) → tables_of m' k ≡ some q → ((k ≡ n) × (q ≡ p)) ⊎ (tables_of m k ≡ some q)
      given-cases k q h = elim (Bool-cases (n == k)) [
        | inl i ↦ inl (sym ((==_iff n k).0 i), some-inj (sym h ∙ lookup-given k ∙ rw i refl))
        | inr i ↦ inr (sym (lookup-given k ∙ rw i refl) ∙ h)
      ]

      cached_then :
          (i q : ℕ) → get_elem? m'.ns_hashes i ≡ some q → get_elem? m.ns_hashes (suc i) ≡ some q
      cached_then i q h = ap (λ l. get_elem? l (suc i)) f ∙ sym (ap (λ l. get_elem? l i) c) ∙ h

      cached_head : get_elem? m.ns_hashes 0 ≡ some p
      cached_head = ap (λ l. get_elem? l 0) f

      given-apart :
          IsSeparate m → (a b q : ℕ) → tables_of m' a ≡ some q → tables_of m' b ≡ some q → a ≡ b
      given-apart s a b q ha hb = elim (given-cases a q ha) [
        | inl (i, j) ↦ elim (given-cases b q hb) [
          | inl (u, v) ↦ i ∙ sym u
          | inr v ↦ absurd (s.in_use b p 0 (v ∙ ap some j) cached_head)
        ]
        | inr i ↦ elim (given-cases b q hb) [
          | inl (u, v) ↦ absurd (s.in_use a p 0 (i ∙ ap some v) cached_head)
          | inr v ↦ s.apart a b q i v
        ]
      ]

      given-in_use :
          IsSeparate m → (a q i : ℕ) → tables_of m' a ≡ some q → get_elem? m'.ns_hashes i ≢ some q
      given-in_use s a q i ha hi = elim (given-cases a q ha) [
        | inl (u, v) ↦
            absurd
              (omega (arith, s.cached 0 (suc i) p cached_head (cached_then i q hi ∙ ap some v)))
        | inr v ↦ s.in_use a q (suc i) v (cached_then i q hi)
      ]

      given-Goes : Goes m m'
      given-Goes = record {
        kept = given-kept;
        separate = λ s. record {
          apart = given-apart s;
          in_use = given-in_use s;
          cached = λ i j q hi hj.
              omega (arith, s.cached (suc i) (suc j) q (cached_then i q hi) (cached_then j q hj));
        };
      }

    -- An event, with room in the cache if the namespace is new, has its namespace served.
    pub record Serves (n : ℕ) (m m' : Module) : Type 0 where
      pub goes : Goes m m'
      pub served : (p : ℕ) × (tables_of m' n ≡ some p)
      pub left : length m.ns_hashes ≤ length m'.ns_hashes + 1

    pub Event-Serves :
        (n : ℕ) (m m' : Module) → 0 < length m.ns_hashes → Event m n m' → Serves n m m'
    Event-Serves n m m' h (known p e) = record {
      goes = Goes-same m;
      served = (p, e);
      left = omega arith;
    }
    Event-Serves n m m' h (empty e f) = absurd (omega (arith, ap length f))
    Event-Serves n m m' h (given p rest m'' e f t c u) = record {
      goes = given-Goes m m' n p rest e f t c;
      served = (p, given_to m m' n p rest e f t c);
      left = omega (arith, ap length f, ap length c);
    }
