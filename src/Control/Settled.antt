-- ===== src/Control/Settled.antt =====
-- Handlers that change nothing when a message comes after another one.
use dysco.Base.{ℕ, ◌≡◌, ap, sym, ◌∙◌, Option, none, some}
use dysco.Kernel.{Kernel}
use dysco.Heap.{World, M}

module _ ⦃k : Kernel⦄ where
  -- The handler returns and changes nothing.
  abbrev pub Quiet : M (Option ℕ) → World → Type 0
  Quiet m w = (v : Option ℕ) × (m w ≡ some (v, w))

  -- `m` has run from `w` to `w'`: what is so where a run of `m` is known to end is so in `w'`.
  module _ (m m' : M (Option ℕ)) (w w' : World) (v : Option ℕ) (h : m w ≡ some (v, w')) where
    abbrev world_of : Option (Option ℕ × World) → World
    world_of none = w
    world_of (some p) = p.1

    pub same_run : (u : Option ℕ) (w1 : World) → m w ≡ some (u, w1) → Quiet m' w1 → Quiet m' w'
    same_run u w1 e d = let same : w1 ≡ w' = ap world_of (sym e ∙ h) in rw (← same) d

    pub faults : m w ≡ none → Quiet m' w'
    faults e = absurd (none-ne-some (sym e ∙ h))
      where
        none-ne-some : {a : Option ℕ × World} → none ≡ some a → ⊥
        none-ne-some e = cc
