-- ===== src/Heap/Refused.antt =====
-- What a handler leaves when memory is refused and it takes back what it had done.
use dysco.Base.{
  ℕ, zero, suc, ◌≡◌, ◌≢◌, refl, ap, Bool, true, false, if◌then◌else◌, Option, none, some, List, [],
  ◌∷◌, ◌++◌, length, get_elem?, set, and_then,
}
use dysco.Types.{CbOut, CbIn}
use dysco.Kernel.{Kernel}
use dysco.Heap.Monad.{World, M, pure, ◌>>=◌, kmalloc_ok, alloc_out, alloc_in, grant_of}

-- The block at a pointer, if it is not freed.
abbrev pub at : {A : Type 0} → List (Option A) → ℕ → Option A
at xs p = and_then (get_elem? xs p) λ o. o

abbrev pub SameBlocks : {A : Type 0} → List (Option A) → List (Option A) → Type 0
SameBlocks xs ys = (p : ℕ) → at xs p ≡ at ys p

-- One of the first demands for memory is refused.
abbrev pub refuses : ℕ → List Bool → Bool
refuses zero gs = false
refuses (suc n) [] = false
refuses (suc n) (true ∷ gs) = refuses n gs
refuses (suc n) (false ∷ gs) = true

module _ {A : Type 0} where
  at-set_other : (xs : List (Option A)) (i p : ℕ) → i ≢ p → at (set xs i none) p ≡ at xs p
  at-set_other [] i p ne = refl
  at-set_other (x ∷ xs) zero zero ne = absurd (ne refl)
  at-set_other (x ∷ xs) zero (suc p) ne = refl
  at-set_other (x ∷ xs) (suc i) zero ne = refl
  at-set_other (x ∷ xs) (suc i) (suc p) ne = at-set_other xs i p (λ e. ne (ap suc e))

  -- A block that was added to `xs` and has been freed from what became of the list.
  pub free-snoc :
      (xs ys : List (Option A)) (b : A)
      → SameBlocks ys (xs ++ some b ∷ [])
      → SameBlocks (set ys (length xs) none) xs
  free-snoc [] [] b h p = refl
  free-snoc [] (y ∷ ys) b h zero = refl
  free-snoc [] (y ∷ ys) b h (suc p) = h (suc p)
  free-snoc (x ∷ xs) [] b h zero = h zero
  free-snoc (x ∷ xs) [] b h (suc p) = free-snoc xs [] b (λ q. h (suc q)) p
  free-snoc (x ∷ xs) (y ∷ ys) b h zero = h zero
  free-snoc (x ∷ xs) (y ∷ ys) b h (suc p) = free-snoc xs ys b (λ q. h (suc q)) p

module _ ⦃k : Kernel⦄ where
  -- The tables and the blocks that are not freed are as before.
  pub record Reverted (w w' : World) : Type 0 where
    pub dh : w'.dh ≡ w.dh
    pub outs : SameBlocks w'.outs w.outs
    pub ins : SameBlocks w'.ins w.ins
    pub rcbs : SameBlocks w'.rcbs w.rcbs

  -- A refusal, `none` or `false`, has reverted what was done.
  abbrev pub Pointer : World → Option (Option ℕ × World) → Type 0
  Pointer w none = Unit {0}
  Pointer w (some (none, w')) = Reverted w w'
  Pointer w (some (some p, w')) = Unit {0}

  abbrev pub Success : World → Option (Bool × World) → Type 0
  Success w none = Unit {0}
  Success w (some (false, w')) = Reverted w w'
  Success w (some (true, w')) = Unit {0}

  -- What holds of the outcome of a computation wherever it starts.
  pub record Returns {B : Type 0} (P : Option (B × World) → Type 0) (m : M B) : Type 0 where
    pub run : (w : World) → P (m w)

  pub Returns->>= :
      {A B : Type 0} (P : Option (B × World) → Type 0) (m : M A) (f : A → M B)
      → P none
      → ((a : A) → Returns P (f a))
      → Returns P (m >>= f)
  Returns->>= {A = A} P m f fault rest = record { run = λ v. go v (m v) }
    where
      go : (v : World) (r : Option (A × World)) → P (((λ _. r) >>= f) v)
      go v none = fault
      go v (some (a, u)) = (rest a).run u

  pub Returns-pure :
      {B : Type 0} (P : Option (B × World) → Type 0) (b : B)
      → ((w : World) → P (some (b, w)))
      → Returns P (pure b)
  Returns-pure P b success = record { run = success }

  pub after_Success :
      {B : Type 0} (P : Option (B × World) → Type 0)
      → P none
      → (m : M Bool) (f : Bool → M B) (v : World) → Success v (m v)
      → ((u : World) → P (f true u))
      → ((u : World) → Reverted v u → P (f false u))
      → P ((m >>= f) v)
  after_Success P fault m f v ok met refused = go (m v) ok
    where
      go : (r : Option (Bool × World)) → Success v r → P (((λ _. r) >>= f) v)
      go none _ = fault
      go (some (true, u)) _ = met u
      go (some (false, u)) r = refused u r

  -- One rule for each demand for memory, which may be refused.
  module _ {B : Type 0} (P : Option (B × World) → Type 0) (w : World) where
    pub alloc_out-both :
        (b : CbOut) (f : Option ℕ → M B)
        → ((gs : List Bool)
            → P (f (some (length w.outs)) (record w { outs = w.outs ++ some b ∷ []; grants = gs })))
        → ((gs : List Bool) → P (f none (record w { grants = gs })))
        → P ((alloc_out b >>= f) w)
    unfolding alloc_out
    alloc_out-both b f met refused = go (grant_of w.grants).0 (grant_of w.grants).1
      where
        go :
            (g : Bool) (gs : List Bool)
            → P (
                ((λ v.
                      if g
                      then some (
                        some (length v.outs),
                        record v { outs = v.outs ++ some b ∷ []; grants = gs },
                      )
                      else some (none, record v { grants = gs }))
                    >>= f)
                  w)
        go true gs = met gs
        go false gs = refused gs

    pub alloc_in-both :
        (b : CbIn) (f : Option ℕ → M B)
        → ((gs : List Bool)
            → P (f (some (length w.ins)) (record w { ins = w.ins ++ some b ∷ []; grants = gs })))
        → ((gs : List Bool) → P (f none (record w { grants = gs })))
        → P ((alloc_in b >>= f) w)
    unfolding alloc_in
    alloc_in-both b f met refused = go (grant_of w.grants).0 (grant_of w.grants).1
      where
        go :
            (g : Bool) (gs : List Bool)
            → P (
                ((λ v.
                      if g
                      then some (
                        some (length v.ins),
                        record v { ins = v.ins ++ some b ∷ []; grants = gs },
                      )
                      else some (none, record v { grants = gs }))
                    >>= f)
                  w)
        go true gs = met gs
        go false gs = refused gs

    pub kmalloc_ok-both :
        (f : Bool → M B)
        → ((gs : List Bool) → P (f true (record w { grants = gs })))
        → ((gs : List Bool) → P (f false (record w { grants = gs })))
        → P ((kmalloc_ok >>= f) w)
    unfolding kmalloc_ok
    kmalloc_ok-both f met refused = go (grant_of w.grants).0 (grant_of w.grants).1
      where
        go : (g : Bool) (gs : List Bool) → P (((λ v. some (g, record v { grants = gs })) >>= f) w)
        go true gs = met gs
        go false gs = refused gs
