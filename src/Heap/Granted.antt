-- ===== src/Heap/Granted.antt =====
-- What a handler leaves when memory is granted.
use mathlib.Core.Bool.{false≢true}
use dysco.Base.{
  ℕ, suc, zero, ◌≡◌, refl, sym, ap, subst, and_then, Bool, true, false, if◌then◌else◌, Option, none,
  some, List, [], ◌∷◌, ◌++◌, length, get_elem?, set,
}
use dysco.Types.{CbOut, CbIn}
use dysco.Kernel.{Kernel}
use dysco.Heap.Monad.{
  World, M, ◌>>=◌, kmalloc_ok, modify_out, modify_in, alloc_out, alloc_in, grant_of,
}
use dysco.Heap.Refused.{refuses}

module _ {A : Type 0} where
  pub get_elem?-snoc : (xs : List A) (b : A) → get_elem? (xs ++ b ∷ []) (length xs) ≡ some b
  get_elem?-snoc [] b = refl
  get_elem?-snoc (x ∷ xs) b = get_elem?-snoc xs b

  pub set-snoc : (xs : List A) (b b' : A) → set (xs ++ b ∷ []) (length xs) b' ≡ xs ++ b' ∷ []
  set-snoc [] b b' = refl
  set-snoc (x ∷ xs) b b' = ap (◌∷◌ x) (set-snoc xs b b')

  -- What was in the list is still there.
  pub get_elem?-append :
      (xs ys : List A) (p : ℕ) (b : A) → get_elem? xs p ≡ some b → get_elem? (xs ++ ys) p ≡ some b
  get_elem?-append [] ys p b h = cc
  get_elem?-append (x ∷ xs) ys zero b h = h
  get_elem?-append (x ∷ xs) ys (suc p) b h = get_elem?-append xs ys p b h

refuses-nil : (n : ℕ) → refuses n [] ≡ false
refuses-nil zero = refl
refuses-nil (suc n) = refl

module _ ⦃k : Kernel⦄ {B : Type 0} (P : Option (B × World) → Type 0) (w : World) (n : ℕ) where
  pub alloc_out-met :
      (b : CbOut) (f : Option ℕ → M B)
      → refuses (suc n) w.grants ≡ false
      → ((gs : List Bool)
          → refuses n gs ≡ false
          → P (f (some (length w.outs)) (record w { outs = w.outs ++ some b ∷ []; grants = gs })))
      → P ((alloc_out b >>= f) w)
  unfolding alloc_out
  alloc_out-met b f h met = go w.grants h
    where
      go :
          (gs : List Bool)
          → refuses (suc n) gs ≡ false
          → P (
              ((λ v.
                    let (g, gs') = grant_of gs in
                    if g
                    then some (
                      some (length v.outs),
                      record v { outs = v.outs ++ some b ∷ []; grants = gs' },
                    )
                    else some (none, record v { grants = gs' }))
                  >>= f)
                w)
      go [] h = met [] (refuses-nil n)
      go (true ∷ gs) h = met gs h
      go (false ∷ gs) h = absurd (false≢true (sym h))

  pub alloc_in-met :
      (b : CbIn) (f : Option ℕ → M B)
      → refuses (suc n) w.grants ≡ false
      → ((gs : List Bool)
          → refuses n gs ≡ false
          → P (f (some (length w.ins)) (record w { ins = w.ins ++ some b ∷ []; grants = gs })))
      → P ((alloc_in b >>= f) w)
  unfolding alloc_in
  alloc_in-met b f h met = go w.grants h
    where
      go :
          (gs : List Bool)
          → refuses (suc n) gs ≡ false
          → P (
              ((λ v.
                    let (g, gs') = grant_of gs in
                    if g
                    then some
                        (some (length v.ins), record v { ins = v.ins ++ some b ∷ []; grants = gs' })
                    else some (none, record v { grants = gs' }))
                  >>= f)
                w)
      go [] h = met [] (refuses-nil n)
      go (true ∷ gs) h = met gs h
      go (false ∷ gs) h = absurd (false≢true (sym h))

  pub kmalloc_ok-met :
      (f : Bool → M B)
      → refuses (suc n) w.grants ≡ false
      → ((gs : List Bool) → refuses n gs ≡ false → P (f true (record w { grants = gs })))
      → P ((kmalloc_ok >>= f) w)
  unfolding kmalloc_ok
  kmalloc_ok-met f h met = go w.grants h
    where
      go :
          (gs : List Bool)
          → refuses (suc n) gs ≡ false
          → P (((λ v. let (g, gs') = grant_of gs in some (g, record v { grants = gs' })) >>= f) w)
      go [] h = met [] (refuses-nil n)
      go (true ∷ gs) h = met gs h
      go (false ∷ gs) h = absurd (false≢true (sym h))

module _ ⦃k : Kernel⦄ {B : Type 0} (P : Option (B × World) → Type 0) (w : World) (p : ℕ) where
  -- A block that is there is written without a fault.
  pub modify_out-met :
      (b : CbOut) (g : CbOut → CbOut) (f : Unit {0} → M B)
      → get_elem? w.outs p ≡ some (some b)
      → P (f tt (record w { outs = set w.outs p (some (g b)) }))
      → P ((modify_out p g >>= f) w)
  unfolding modify_out
  modify_out-met b g f at =
      subst
        (λ o. P (
          ((λ v.
                and_then o
                  λ o'. and_then o' λ d. some (tt, record v { outs = set v.outs p (some (g d)) }))
              >>= f)
            w))
        (sym at)

  pub modify_in-met :
      (b : CbIn) (g : CbIn → CbIn) (f : Unit {0} → M B)
      → get_elem? w.ins p ≡ some (some b)
      → P (f tt (record w { ins = set w.ins p (some (g b)) }))
      → P ((modify_in p g >>= f) w)
  unfolding modify_in
  modify_in-met b g f at =
      subst
        (λ o. P (
          ((λ v.
                and_then o
                  λ o'. and_then o' λ d. some (tt, record v { ins = set v.ins p (some (g d)) }))
              >>= f)
            w))
        (sym at)
