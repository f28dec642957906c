-- ===== src/Heap/Laws.antt =====
-- Reading and writing the output blocks.
use dysco.Base.{
  ℕ, zero, suc, ◌≡◌, refl, ap, Option, none, some, List, [], ◌∷◌, get_elem?, get_elem?-set_ne, set,
  ◌≢◌, ◌∙◌, ◌⊎◌, inl, inr,
}
use dysco.Types.{CbOut, CbReconfig}
use dysco.Kernel.{Kernel}
use dysco.Heap.Monad.{World, load_out, modify_out, load_rcb}

module _ {A : Type 0} where
  set-same : (xs : List A) (i : ℕ) (x : A) → get_elem? xs i ≡ some x → set xs i x ≡ xs
  set-same [] i x e = cc
  set-same (y ∷ xs) zero x e = cc
  set-same (y ∷ xs) (suc i) x e = ap (◌∷◌ y) (set-same xs i x e)

  pub get_elem?-set_at :
      (xs : List A) (i : ℕ) (x y : A) → get_elem? xs i ≡ some x → get_elem? (set xs i y) i ≡ some y
  get_elem?-set_at [] i x y e = cc
  get_elem?-set_at (z ∷ xs) zero x y e = refl
  get_elem?-set_at (z ∷ xs) (suc i) x y e = get_elem?-set_at xs i x y e

some-ne-none : {A : Type 0} {a : A} → some a ≡ none → ⊥
some-ne-none e = cc

module _ ⦃k : Kernel⦄ where
  -- The pointer is that of a block that is not freed.
  abbrev pub HasOut : World → ℕ → CbOut → Type 0
  HasOut w p b = get_elem? w.outs p ≡ some (some b)

  abbrev pub HasRcb : World → ℕ → CbReconfig → Type 0
  HasRcb w r b = get_elem? w.rcbs r ≡ some (some b)

  abbrev pub store_out : ℕ → CbOut → World → World
  store_out p b w = record w { outs = set w.outs p (some b) }

  pub HasOut-cases : (w : World) (p : ℕ) → (load_out p w ≡ none) ⊎ ((b : CbOut) × HasOut w p b)
  unfolding load_out
  HasOut-cases w p = go (get_elem? w.outs p) refl
    where
      go :
          (o : Option (Option CbOut))
          → get_elem? w.outs p ≡ o
          → (load_out p w ≡ none) ⊎ ((b : CbOut) × HasOut w p b)
      go none e = inl (rw e refl)
      go (some none) e = inl (rw e refl)
      go (some (some b)) e = inr (b, e)

  pub modify_out-fault :
      (w : World) (p : ℕ) (f : CbOut → CbOut) → load_out p w ≡ none → modify_out p f w ≡ none
  unfolding load_out modify_out
  modify_out-fault w p f e = go (get_elem? w.outs p) refl
    where
      go : (o : Option (Option CbOut)) → get_elem? w.outs p ≡ o → modify_out p f w ≡ none
      go none h = rw h refl
      go (some none) h = rw h refl
      go (some (some b)) h = absurd (some-ne-none (rw h at e))

  pub HasRcb-cases : (w : World) (r : ℕ) → (load_rcb r w ≡ none) ⊎ ((b : CbReconfig) × HasRcb w r b)
  unfolding load_rcb
  HasRcb-cases w r = go (get_elem? w.rcbs r) refl
    where
      go :
          (o : Option (Option CbReconfig))
          → get_elem? w.rcbs r ≡ o
          → (load_rcb r w ≡ none) ⊎ ((b : CbReconfig) × HasRcb w r b)
      go none e = inl (rw e refl)
      go (some none) e = inl (rw e refl)
      go (some (some b)) e = inr (b, e)

  module _ (w : World) (p : ℕ) (b : CbOut) (at : HasOut w p b) where
    pub load_out-HasOut : load_out p w ≡ some (b, w)
    unfolding load_out
    load_out-HasOut = rw at refl

    pub modify_out-HasOut : (f : CbOut → CbOut) → modify_out p f w ≡ some (tt, store_out p (f b) w)
    unfolding modify_out
    modify_out-HasOut f = rw at refl

    pub HasOut-store_out : (b' : CbOut) → HasOut (store_out p b' w) p b'
    HasOut-store_out b' = get_elem?-set_at w.outs p (some b) (some b') at

    -- Writing back what is there changes nothing.
    pub store_out-same : store_out p b w ≡ w
    store_out-same = ap (λ os. record w { outs = os }) (set-same w.outs p (some b) at)

  pub load_rcb-HasRcb :
      (w : World) (r : ℕ) (b : CbReconfig) → HasRcb w r b → load_rcb r w ≡ some (b, w)
  unfolding load_rcb
  load_rcb-HasRcb w r b at = rw at refl

  pub HasOut-store_ne :
      (w : World) (p q : ℕ) (b' n : CbOut) → p ≢ q → HasOut w q n → HasOut (store_out p b' w) q n
  HasOut-store_ne w p q b' n ne h = get_elem?-set_ne w.outs p q (some b') ne ∙ h
