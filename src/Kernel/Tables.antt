-- ===== src/Kernel/Tables.antt =====
-- include/linux/rhashtable.h: a table from keys to pointers. The key is read from the object
-- that is linked into the table.
use dysco.Base.{ℕ, ◌≡◌, Bool, false, Option, none, some, if◌then◌else◌, List, ◌∷◌, count}

pub record Rhashtable (K : Type 0) : Type 1 where
  pub T : Type 0
  pub lookup : T → K → Option ℕ
  pub insert : T → K → ℕ → T
  pub remove : T → K → ℕ → T
  -- The objects that `rhashtable_free_and_destroy` walks over, in its order.
  pub entries : T → List ℕ

-- What holds of a table whose keys are distinct.
pub record RhashtableLaws {K : Type 0} (eq : K → K → Bool) (r : Rhashtable K) : Type 0 where
  pub lookup-insert :
      (t : r.T) (k j : K) (p : ℕ)
      → r.lookup t k ≡ none
      → r.lookup (r.insert t k p) j ≡ (if eq k j then some p else r.lookup t j)
  pub lookup-remove :
      (t : r.T) (k j : K) (p : ℕ) → eq k j ≡ false → r.lookup (r.remove t k p) j ≡ r.lookup t j
  -- The walk meets an object that was inserted once.
  pub entries-insert :
      (t : r.T) (k : K) (p q : ℕ)
      → r.lookup t k ≡ none
      → count q (r.entries (r.insert t k p)) ≡ count q (p ∷ r.entries t)
