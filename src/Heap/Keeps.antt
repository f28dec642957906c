-- ===== src/Heap/Keeps.antt =====
-- Handlers that keep a property of the output blocks: one rule for each way to build a handler.
pub mod Blocks
use dysco.Base.{
  ℕ, ◌≤◌, ◌≡◌, Bool, true, false, if◌then◌else◌, Option, none, some, get_elem?, length,
}
use dysco.Types.{CbOut}
use dysco.Anchor.{Step, view, start}
use dysco.Kernel.{Kernel}
use dysco.Heap.Monad.{World, M, pure, ◌>>=◌, maybe}

-- A property of a pointer and its block that holds of new blocks, and that goes on to hold along
-- the abstract specification. Blocks are new from the pointer `old` on.
pub record BlockSpec : Type 1 where
  pub old : ℕ
  pub At : ℕ → CbOut → Type 0
  pub closed : (p : ℕ) (b b' : CbOut) → Step (view b) (view b') → At p b → At p b'
  pub fresh : (p : ℕ) (b : CbOut) → old ≤ p → view b ≡ start → At p b

module _ ⦃k : Kernel⦄ (spec : BlockSpec) where
  -- Every output block that is not freed has the property.
  pub record AllOuts (w : World) : Type 0 where
    pub room : spec.old ≤ length w.outs
    pub at : (p : ℕ) (b : CbOut) → get_elem? w.outs p ≡ some (some b) → spec.At p b

  -- What is left when a handler has run: a fault leaves nothing to say.
  abbrev pub After : {A : Type 0} → Option (A × World) → Type 0
  After none = Unit {0}
  After (some (a, w)) = AllOuts w

  pub record Keeps {A : Type 0} (m : M A) : Type 0 where
    pub run : (w : World) → AllOuts w → After (m w)

module _ ⦃k : Kernel⦄ {spec : BlockSpec} {A : Type 0} where
  pub Keeps-pure : (a : A) → Keeps spec (pure a)
  Keeps-pure a = record { run = λ w h. h }

  pub Keeps-if :
      (b : Bool) (m n : M A) → Keeps spec m → Keeps spec n → Keeps spec (if b then m else n)
  Keeps-if true m n km kn = km
  Keeps-if false m n km kn = kn

module _ ⦃k : Kernel⦄ {spec : BlockSpec} {A B : Type 0} where
  pub Keeps-maybe :
      (o : Option A) (m : M B) (f : A → M B)
      → Keeps spec m
      → ((a : A) → Keeps spec (f a))
      → Keeps spec (maybe o m f)
  Keeps-maybe none m f km kf = record { run = km.run }
  Keeps-maybe (some a) m f km kf = record { run = (kf a).run }

  After-bind :
      (r : Option (A × World)) (f : A → M B)
      → After spec r
      → ((a : A) → Keeps spec (f a))
      → After spec (elim r [ none ↦ none | some (a, w) ↦ f a w ])
  After-bind none f h kf = tt
  After-bind (some (a, w)) f h kf = (kf a).run w h

  pub Keeps-bind :
      {m : M A} {f : A → M B} → Keeps spec m → ((a : A) → Keeps spec (f a)) → Keeps spec (m >>= f)
  Keeps-bind {m} {f} km kf = record { run = λ w h. After-bind (m w) f (km.run w h) kf }
