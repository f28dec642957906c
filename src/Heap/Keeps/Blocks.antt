-- ===== src/Heap/Keeps/Blocks.antt =====
-- The rules for reading and writing memory and the tables.
use dysco.Base.{
  ℕ, zero, suc, ◌≡◌, refl, sym, arith, ◌∙◌, ap, Bool, true, false, if◌then◌else◌, Option, none,
  some, List, [], ◌∷◌, ◌++◌, get_elem?, set, length, and_then, length-set, length-append,
}
use dysco.Types.{CbOut, CbIn, CbReconfig, Skb, Ctx, TcpSession}
use dysco.Anchor.{Step, view, start}
use dysco.Kernel.{Kernel}
use dysco.Heap.Monad.{
  World, Hashes, get, kmalloc_ok, deref, load_out, modify_out, update_out, load_in, modify_in,
  load_rcb, modify_rcb, alloc_out, alloc_in, alloc_rcb, free_out, free_in, get_skb, put_skb,
  modify_skb, on_ctx, lift, modify_dh, lookup_out, lookup_in, lookup_pen, lookup_pen_tag,
  lookup_reconfig, insert_out, insert_in, insert_reconfig, remove_reconfig, insert_pen, remove_pen,
}
use dysco.Heap.Keeps.{BlockSpec, AllOuts, After, Keeps}

some-inj : (x y : CbOut) → some x ≡ some y → x ≡ y
some-inj x y e = ap (λ o. elim o [ none ↦ x | some z ↦ z ]) e

-- Every block in a list that is not freed has the property.
abbrev All : {A : Type 0} → (ℕ → A → Type 0) → List (Option A) → Type 0
All P xs = (p : ℕ) (a : _) → get_elem? xs p ≡ some (some a) → P p a

module _ {A : Type 0} where
  All-set :
      (P : ℕ → A → Type 0) (xs : List (Option A)) (i : ℕ) (o : Option A)
      → All P xs
      → ((a : A) → o ≡ some a → P i a)
      → All P (set xs i o)
  All-set P [] i o h new_ p a e = h p a e
  All-set P (x ∷ xs) zero o h new_ zero a e = new_ a cc
  All-set P (x ∷ xs) zero o h new_ (suc p) a e = h (suc p) a e
  All-set P (x ∷ xs) (suc i) o h new_ zero a e = h 0 a e
  All-set P (x ∷ xs) (suc i) o h new_ (suc p) a e =
      All-set (λ n. P (suc n)) xs i o (λ n. h (suc n)) new_ p a e

  All-snoc :
      (P : ℕ → A → Type 0) (xs : List (Option A)) (o : Option A)
      → All P xs
      → ((a : A) → o ≡ some a → P (length xs) a)
      → All P (xs ++ o ∷ [])
  All-snoc P [] o h new_ zero a e = new_ a cc
  All-snoc P [] o h new_ (suc p) a e = absurd cc
  All-snoc P (x ∷ xs) o h new_ zero a e = h 0 a e
  All-snoc P (x ∷ xs) o h new_ (suc p) a e =
      All-snoc (λ n. P (suc n)) xs o (λ n. h (suc n)) new_ p a e

module _ ⦃k : Kernel⦄ {B : Type 0} where
  After-and_then :
      {A : Type 0} (spec : BlockSpec) (o : Option A) (f : A → Option (B × World))
      → ((a : A) → o ≡ some a → After spec (f a))
      → After spec (and_then o f)
  After-and_then spec none f h = tt
  After-and_then spec (some a) f h = h a refl

  After-if :
      (spec : BlockSpec) (b : Bool) (x y : Option (B × World))
      → After spec x
      → After spec y
      → After spec (if b then x else y)
  After-if spec true x y h i = h
  After-if spec false x y h i = i

module _ ⦃k : Kernel⦄ {spec : BlockSpec} where
  -- A write to the output blocks, and a new block.
  AllOuts-set :
      (w w' : World) (p : ℕ) (o : Option CbOut)
      → w'.outs ≡ set w.outs p o
      → AllOuts spec w
      → ((b : CbOut) → o ≡ some b → spec.At p b)
      → AllOuts spec w'
  AllOuts-set w w' p o e h new_ = record {
    room = omega (arith, h.room, length-set w.outs p o, ap length e);
    at = λ q c f. All-set spec.At w.outs p o h.at new_ q c (sym (ap (λ l. get_elem? l q) e) ∙ f);
  }

  AllOuts-snoc :
      (w w' : World) (b : CbOut)
      → w'.outs ≡ w.outs ++ some b ∷ []
      → AllOuts spec w
      → spec.At (length w.outs) b
      → AllOuts spec w'
  AllOuts-snoc w w' b e h new_ = record {
    room = omega (arith, h.room, length-append w.outs (some b ∷ []), ap length e);
    at = λ q c f.
        All-snoc spec.At w.outs (some b) h.at (λ a i. rw (sym (some-inj b a i)) new_) q c
          (sym (ap (λ l. get_elem? l q) e) ∙ f);
  }

  -- The blocks are as before.
  pub AllOuts-same : (w w' : World) → w'.outs ≡ w.outs → AllOuts spec w → AllOuts spec w'
  AllOuts-same w w' e h = record {
    room = omega (arith, h.room, ap length e);
    at = λ q c f. h.at q c (sym (ap (λ l. get_elem? l q) e) ∙ f);
  }

  -- The output blocks.
  pub Keeps-load_out : (p : ℕ) → Keeps spec (load_out p)
  unfolding load_out
  Keeps-load_out p = record {
    run = λ w h. After-and_then spec (get_elem? w.outs p) _ λ o _. After-and_then spec o _ λ b _. h;
  }

  pub Keeps-update_out :
      (p : ℕ) (f : CbOut → Option CbOut)
      → ((b b' : CbOut) → f b ≡ some b' → Step (view b) (view b'))
      → Keeps spec (update_out p f)
  unfolding update_out
  Keeps-update_out p f s = record {
    run = λ w h. After-and_then spec (get_elem? w.outs p) _ λ o e. After-and_then spec o _ λ b i.
        After-and_then spec (f b) _ λ b' j. AllOuts-set w _ p (some b') refl h λ c n.
          rw (sym (some-inj b' c n)) (spec.closed p b b' (s b b' j) (h.at p b (e ∙ ap some i)));
  }

  pub Keeps-modify_out :
      (p : ℕ) (f : CbOut → CbOut)
      → ((b : CbOut) → Step (view b) (view (f b)))
      → Keeps spec (modify_out p f)
  unfolding modify_out
  Keeps-modify_out p f s = record {
    run = λ w h. After-and_then spec (get_elem? w.outs p) _ λ o e. After-and_then spec o _ λ b i.
        AllOuts-set w _ p (some (f b)) refl h λ c n.
          rw (sym (some-inj (f b) c n)) (spec.closed p b (f b) (s b) (h.at p b (e ∙ ap some i)));
  }

  pub Keeps-alloc_out : (b : CbOut) → view b ≡ start → Keeps spec (alloc_out b)
  unfolding alloc_out
  Keeps-alloc_out b e = record {
    run = λ w h. search (
      After-if,
      AllOuts-snoc w _ b refl h (spec.fresh (length w.outs) b h.room e),
      AllOuts-same w _ refl h,
    );
  }

  pub Keeps-free_out : (p : ℕ) → Keeps spec (free_out p)
  unfolding free_out
  Keeps-free_out p = record { run = λ w h. AllOuts-set w _ p none refl h λ b e. absurd cc }

  -- The rest of the world.
  pub Keeps-get : Keeps spec get
  Keeps-get = record { run = λ w h. AllOuts-same w _ refl h }

  pub Keeps-get_skb : Keeps spec get_skb
  Keeps-get_skb = record { run = λ w h. AllOuts-same w _ refl h }

  pub Keeps-put_skb : (s : Skb) → Keeps spec (put_skb s)
  Keeps-put_skb s = record { run = λ w h. AllOuts-same w _ refl h }

  pub Keeps-modify_skb : (f : Skb → Skb) → Keeps spec (modify_skb f)
  Keeps-modify_skb f = record { run = λ w h. AllOuts-same w _ refl h }

  pub Keeps-modify_dh : (f : Hashes → Hashes) → Keeps spec (modify_dh f)
  Keeps-modify_dh f = record { run = λ w h. AllOuts-same w _ refl h }

  pub Keeps-lookup_out : (s : TcpSession) → Keeps spec (lookup_out s)
  Keeps-lookup_out s = record { run = λ w h. AllOuts-same w _ refl h }

  pub Keeps-lookup_in : (s : TcpSession) → Keeps spec (lookup_in s)
  Keeps-lookup_in s = record { run = λ w h. AllOuts-same w _ refl h }

  pub Keeps-lookup_pen : (s : TcpSession) → Keeps spec (lookup_pen s)
  Keeps-lookup_pen s = record { run = λ w h. AllOuts-same w _ refl h }

  pub Keeps-lookup_pen_tag : (t : ℕ) → Keeps spec (lookup_pen_tag t)
  Keeps-lookup_pen_tag t = record { run = λ w h. AllOuts-same w _ refl h }

  pub Keeps-lookup_reconfig : (s : TcpSession) → Keeps spec (lookup_reconfig s)
  Keeps-lookup_reconfig s = record { run = λ w h. AllOuts-same w _ refl h }

  pub Keeps-insert_out : (s : TcpSession) (p : ℕ) → Keeps spec (insert_out s p)
  unfolding insert_out
  Keeps-insert_out s p = record { run = λ w h. AllOuts-same w _ refl h }

  pub Keeps-insert_in : (s : TcpSession) (p : ℕ) → Keeps spec (insert_in s p)
  unfolding insert_in
  Keeps-insert_in s p = record { run = λ w h. AllOuts-same w _ refl h }

  pub Keeps-insert_reconfig : (s : TcpSession) (p : ℕ) → Keeps spec (insert_reconfig s p)
  unfolding insert_reconfig
  Keeps-insert_reconfig s p = record { run = λ w h. AllOuts-same w _ refl h }

  pub Keeps-remove_reconfig : (s : TcpSession) (p : ℕ) → Keeps spec (remove_reconfig s p)
  unfolding remove_reconfig
  Keeps-remove_reconfig s p = record { run = λ w h. AllOuts-same w _ refl h }

  pub Keeps-insert_pen : (s : TcpSession) (t p : ℕ) → Keeps spec (insert_pen s t p)
  unfolding insert_pen
  Keeps-insert_pen s t p = record { run = λ w h. AllOuts-same w _ refl h }

  pub Keeps-remove_pen : (s : TcpSession) (t p : ℕ) → Keeps spec (remove_pen s t p)
  unfolding remove_pen
  Keeps-remove_pen s t p = record { run = λ w h. AllOuts-same w _ refl h }

  pub Keeps-deref : (o : Option ℕ) → Keeps spec (deref o)
  unfolding deref
  Keeps-deref none = record { run = λ w h. tt }
  Keeps-deref (some p) = record { run = λ w h. h }

  pub Keeps-on_ctx : (f : Ctx → Option Ctx) → Keeps spec (on_ctx f)
  Keeps-on_ctx f = record {
    run = λ w h. After-and_then spec (f w.ctx) _ λ c _. AllOuts-same w _ refl h;
  }

  pub Keeps-lift : {A : Type 0} (o : Option A) → Keeps spec (lift o)
  Keeps-lift o = record { run = λ w h. After-and_then spec o _ λ a _. h }

  pub Keeps-load_in : (p : ℕ) → Keeps spec (load_in p)
  unfolding load_in
  Keeps-load_in p = record {
    run = λ w h. After-and_then spec (get_elem? w.ins p) _ λ o _. After-and_then spec o _ λ b _. h;
  }

  pub Keeps-modify_in : (p : ℕ) (f : CbIn → CbIn) → Keeps spec (modify_in p f)
  unfolding modify_in
  Keeps-modify_in p f = record {
    run = λ w h.
        After-and_then spec (get_elem? w.ins p) _
          λ o _. After-and_then spec o _ λ b _. AllOuts-same w _ refl h;
  }

  pub Keeps-alloc_in : (b : CbIn) → Keeps spec (alloc_in b)
  unfolding alloc_in
  Keeps-alloc_in b = record { run = λ w h. search (After-if, AllOuts-same w _ refl h) }

  pub Keeps-load_rcb : (p : ℕ) → Keeps spec (load_rcb p)
  unfolding load_rcb
  Keeps-load_rcb p = record {
    run = λ w h. After-and_then spec (get_elem? w.rcbs p) _ λ o _. After-and_then spec o _ λ b _. h;
  }

  pub Keeps-modify_rcb : (p : ℕ) (f : CbReconfig → CbReconfig) → Keeps spec (modify_rcb p f)
  unfolding modify_rcb
  Keeps-modify_rcb p f = record {
    run = λ w h.
        After-and_then spec (get_elem? w.rcbs p) _
          λ o _. After-and_then spec o _ λ b _. AllOuts-same w _ refl h;
  }

  pub Keeps-alloc_rcb : (b : CbReconfig) → Keeps spec (alloc_rcb b)
  unfolding alloc_rcb
  Keeps-alloc_rcb b = record { run = λ w h. search (After-if, AllOuts-same w _ refl h) }

  pub Keeps-free_in : (p : ℕ) → Keeps spec (free_in p)
  unfolding free_in
  Keeps-free_in p = record { run = λ w h. AllOuts-same w _ refl h }

  pub Keeps-kmalloc_ok : Keeps spec kmalloc_ok
  unfolding kmalloc_ok
  Keeps-kmalloc_ok = record {
    run =
        λ w h. elim w.grants [ [] ↦ AllOuts-same w _ refl h | (g ∷ gs) ↦ AllOuts-same w _ refl h ];
  }

pub ruleset heap_rules = (
  Keeps-load_out, Keeps-update_out, Keeps-modify_out, Keeps-alloc_out, Keeps-free_out, Keeps-get,
  Keeps-get_skb, Keeps-put_skb, Keeps-modify_skb, Keeps-modify_dh, Keeps-lookup_out,
  Keeps-lookup_in, Keeps-lookup_pen, Keeps-lookup_pen_tag, Keeps-lookup_reconfig, Keeps-insert_out,
  Keeps-insert_in, Keeps-insert_reconfig, Keeps-remove_reconfig, Keeps-insert_pen, Keeps-remove_pen,
  Keeps-deref, Keeps-on_ctx, Keeps-lift, Keeps-load_in, Keeps-modify_in, Keeps-alloc_in,
  Keeps-load_rcb, Keeps-modify_rcb, Keeps-alloc_rcb, Keeps-free_in, Keeps-kmalloc_ok,
)
