-- ===== src/Namespaces/Monad.antt =====
-- The resources that kernel/common/dysco_main.c holds, and the state of its namespaces.
use dysco.Base.{
  ℕ, ◌+◌, Bool, true, false, ◌&&◌, ◌||◌, Option, none, some, List, [], ◌∷◌, ◌==◌, if◌then◌else◌,
  and_then,
}
use dysco.Kernel.{Rhashtable}

-- The tables of `struct dysco_hashes`.
pub data Table : Type 0 where
  hash_out hash_in hash_pen hash_reconfig hash_pen_tag : Table

-- A number stands for a `struct dysco_hashes`.
pub data Resource : Type 0 where
  ns_table : Resource
  block socket : ℕ → Resource
  table : ℕ → Table → Resource

abbrev pub table_number : Table → ℕ
table_number hash_out = 0
table_number hash_in = 1
table_number hash_pen = 2
table_number hash_reconfig = 3
table_number hash_pen_tag = 4

abbrev pub same : Resource → Resource → Bool
same ns_table ns_table = true
same (block p) (block q) = p == q
same (socket p) (socket q) = p == q
same (table p s) (table q t) = (p == q) && (table_number s == table_number t)
same _ _ = false

abbrev pub has : Resource → List Resource → Bool
has r [] = false
has r (x ∷ xs) = same r x || has r xs

-- `none`: the resource is not held.
abbrev pub take_away : Resource → List Resource → Option (List Resource)
take_away r [] = none
take_away r (x ∷ xs) =
    let rest = take_away r xs in if same r x then some xs else and_then rest λ ys. some (x ∷ ys)

module _ ⦃ns : Rhashtable ℕ⦄ where
  -- `grants` says of each demand to come whether the kernel meets it; it meets all when the list
  -- is empty. `ns_hashes` is the cache. `made` counts the blocks asked for.
  pub record Module : Type 0 where
    pub live : List Resource
    pub grants : List Bool
    pub made : ℕ
    pub ns_hash_table : ns.T
    pub ns_hashes : List ℕ
    pub tot_namespaces : ℕ

  -- `none` is a resource given back that is not held.
  abbrev pub N : Type 0 → Type 0
  N A = Module → Option (A × Module)

  abbrev pub pure : {A : Type 0} → A → N A
  pure a m = some (a, m)

  infixl 5 ◌>>=◌ ◌>>◌
  abbrev pub ◌>>=◌ : {A B : Type 0} → N A → (A → N B) → N B
  ◌>>=◌ n f m = elim (n m) [ none ↦ none | some (a, m') ↦ f a m' ]

  abbrev pub ◌>>◌ : {B : Type 0} → N (Unit {0}) → N B → N B
  n >> o = n >>= λ _. o

  abbrev pub maybe : {A B : Type 0} → Option A → N B → (A → N B) → N B
  maybe o n f m = elim o [ none ↦ n m | some a ↦ f a m ]

  abbrev pub get : N Module
  get m = some (m, m)

  abbrev pub modify : (Module → Module) → N (Unit {0})
  modify f m = some (tt, f m)

  -- The name of the next block.
  abbrev pub fresh : N ℕ
  fresh m = some (m.made, record m { made = m.made + 1 })

  -- `kmalloc`, `rhashtable_init`, `netlink_kernel_create`.
  abbrev pub answer : List Bool → Bool × List Bool
  answer [] = (true, [])
  answer (g ∷ gs) = (g, gs)

  unfoldable pub obtain : Resource → N Bool
  obtain r m =
      let (g, gs) = answer m.grants in
      if g
      then some (true, record m { live = r ∷ m.live; grants = gs })
      else some (false, record m { grants = gs })

  -- `kfree`, `rhashtable_destroy`, `netlink_kernel_release`.
  unfoldable pub release : Resource → N (Unit {0})
  release r m = and_then (take_away r m.live) λ rs. some (tt, record m { live = rs })
