-- ===== src/Heap/Monad.antt =====
-- Memory, tables and the monad of a handler.
use dysco.Base.{
  ℕ, Bool, true, Option, none, some, List, [], ◌∷◌, ◌++◌, get_elem?, set, length, and_then,
  if◌then◌else◌,
}
use dysco.Types.{CbOut, CbIn, CbReconfig, Skb, Ctx, ServiceChain, TcpSession}
use dysco.Kernel.{Kernel}

-- A filter is a BPF program, run on a packet.
pub record Policy : Type 0 where
  pub filter : Skb → Bool
  pub sc : ServiceChain

module _ ⦃k : Kernel⦄ where
  -- `struct dysco_hashes`.
  pub record Hashes : Type 0 where
    pub policies : List Policy
    pub dysco_tag : ℕ
    pub hash_out : k.sessions.T
    pub hash_in : k.sessions.T
    pub hash_pen : k.sessions.T
    pub hash_pen_tag : k.tags.T
    pub hash_reconfig : k.sessions.T

  -- A freed block is `none`. `grants` says of each allocation to come whether it succeeds; all
  -- do when it is empty. `now` is what the clock shows.
  pub record World : Type 0 where
    pub outs : List (Option CbOut)
    pub ins : List (Option CbIn)
    pub rcbs : List (Option CbReconfig)
    pub dh : Hashes
    pub alloc_ports : ℕ
    pub dev_measurement : Option ℕ
    pub ctx : Ctx
    pub grants : List Bool
    pub now : ℕ

  -- `none` is a fault: NULL or a freed block dereferenced, or a read past the packet.
  abbrev pub M : Type 0 → Type 0
  M A = World → Option (A × World)

  abbrev pub pure : {A : Type 0} → A → M A
  pure a w = some (a, w)

  infixl 5 ◌>>=◌ ◌>>◌
  abbrev pub ◌>>=◌ : {A B : Type 0} → M A → (A → M B) → M B
  ◌>>=◌ m f w = elim (m w) [ none ↦ none | some (a, w') ↦ f a w' ]

  abbrev pub ◌>>◌ : {B : Type 0} → M (Unit {0}) → M B → M B
  m >> n = m >>= λ _. n

  -- The test of a pointer for NULL.
  abbrev pub maybe : {A B : Type 0} → Option A → M B → (A → M B) → M B
  maybe o m f w = elim o [ none ↦ m w | some a ↦ f a w ]

  abbrev pub get : M World
  get w = some (w, w)

  abbrev pub modify : (World → World) → M (Unit {0})
  modify f w = some (tt, f w)

  -- The allocator's answer, for one allocation.
  abbrev pub grant_of : List Bool → Bool × List Bool
  grant_of [] = (true, [])
  grant_of (g ∷ gs) = (g, gs)

  unfoldable pub kmalloc_ok : M Bool
  kmalloc_ok w = let (g, gs) = grant_of w.grants in some (g, record w { grants = gs })

  -- A pointer that the code dereferences.
  unfoldable pub deref : Option ℕ → M ℕ
  deref none w = none
  deref (some p) w = some (p, w)

  unfoldable pub load_out : ℕ → M CbOut
  load_out p w = and_then (get_elem? w.outs p) λ o. and_then o λ b. some (b, w)

  unfoldable pub modify_out : ℕ → (CbOut → CbOut) → M (Unit {0})
  modify_out p f w =
      and_then (get_elem? w.outs p)
        λ o. and_then o λ b. some (tt, record w { outs = set w.outs p (some (f b)) })

  -- The same for a change that may fault.
  unfoldable pub update_out : ℕ → (CbOut → Option CbOut) → M (Unit {0})
  update_out p f w = and_then (get_elem? w.outs p) λ o.
      and_then o λ b. and_then (f b) λ b'. some (tt, record w { outs = set w.outs p (some b') })

  unfoldable pub load_in : ℕ → M CbIn
  load_in p w = and_then (get_elem? w.ins p) λ o. and_then o λ b. some (b, w)

  unfoldable pub modify_in : ℕ → (CbIn → CbIn) → M (Unit {0})
  modify_in p f w =
      and_then (get_elem? w.ins p)
        λ o. and_then o λ b. some (tt, record w { ins = set w.ins p (some (f b)) })

  unfoldable pub load_rcb : ℕ → M CbReconfig
  load_rcb p w = and_then (get_elem? w.rcbs p) λ o. and_then o λ b. some (b, w)

  unfoldable pub modify_rcb : ℕ → (CbReconfig → CbReconfig) → M (Unit {0})
  modify_rcb p f w =
      and_then (get_elem? w.rcbs p)
        λ o. and_then o λ b. some (tt, record w { rcbs = set w.rcbs p (some (f b)) })

  -- A new block with the content given, if the allocator grants it.
  unfoldable pub alloc_out : CbOut → M (Option ℕ)
  alloc_out b w =
      let (g, gs) = grant_of w.grants in
      if g
      then some (some (length w.outs), record w { outs = w.outs ++ some b ∷ []; grants = gs })
      else some (none, record w { grants = gs })

  unfoldable pub alloc_in : CbIn → M (Option ℕ)
  alloc_in b w =
      let (g, gs) = grant_of w.grants in
      if g
      then some (some (length w.ins), record w { ins = w.ins ++ some b ∷ []; grants = gs })
      else some (none, record w { grants = gs })

  unfoldable pub alloc_rcb : CbReconfig → M (Option ℕ)
  alloc_rcb b w =
      let (g, gs) = grant_of w.grants in
      if g
      then some (some (length w.rcbs), record w { rcbs = w.rcbs ++ some b ∷ []; grants = gs })
      else some (none, record w { grants = gs })

  -- `kfree`.
  unfoldable pub free_out : ℕ → M (Unit {0})
  free_out p w = some (tt, record w { outs = set w.outs p none })

  unfoldable pub free_in : ℕ → M (Unit {0})
  free_in p w = some (tt, record w { ins = set w.ins p none })

  unfoldable pub free_rcb : ℕ → M (Unit {0})
  free_rcb p w = some (tt, record w { rcbs = set w.rcbs p none })

  abbrev pub get_skb : M Skb
  get_skb w = some (w.ctx.skb, w)

  abbrev pub put_skb : Skb → M (Unit {0})
  put_skb s w = some (tt, record w { ctx = record (w.ctx) { skb = s } })

  abbrev pub modify_skb : (Skb → Skb) → M (Unit {0})
  modify_skb f w = some (tt, record w { ctx = record (w.ctx) { skb = f w.ctx.skb } })

  -- A computation on the packet that may read past it.
  abbrev pub on_ctx : (Ctx → Option Ctx) → M (Unit {0})
  on_ctx f w = and_then (f w.ctx) λ c. some (tt, record w { ctx = c })

  abbrev pub lift : {A : Type 0} → Option A → M A
  lift o w = and_then o λ a. some (a, w)

  abbrev pub modify_dh : (Hashes → Hashes) → M (Unit {0})
  modify_dh f w = some (tt, record w { dh = f w.dh })

  -- `rhashtable_lookup_fast` in each of the tables.
  abbrev pub lookup_out : TcpSession → M (Option ℕ)
  lookup_out s w = some (k.sessions.lookup w.dh.hash_out s, w)

  abbrev pub lookup_in : TcpSession → M (Option ℕ)
  lookup_in s w = some (k.sessions.lookup w.dh.hash_in s, w)

  abbrev pub lookup_pen : TcpSession → M (Option ℕ)
  lookup_pen s w = some (k.sessions.lookup w.dh.hash_pen s, w)

  abbrev pub lookup_pen_tag : ℕ → M (Option ℕ)
  lookup_pen_tag t w = some (k.tags.lookup w.dh.hash_pen_tag t, w)

  abbrev pub lookup_reconfig : TcpSession → M (Option ℕ)
  lookup_reconfig s w = some (k.sessions.lookup w.dh.hash_reconfig s, w)

  -- `rhashtable_insert_fast`, `rhashtable_remove_fast`: the key is the one that the block holds.
  unfoldable pub insert_out : TcpSession → ℕ → M (Unit {0})
  insert_out s p w =
      some (tt, record w { dh = record (w.dh) { hash_out = k.sessions.insert w.dh.hash_out s p } })

  unfoldable pub insert_in : TcpSession → ℕ → M (Unit {0})
  insert_in s p w =
      some (tt, record w { dh = record (w.dh) { hash_in = k.sessions.insert w.dh.hash_in s p } })

  unfoldable pub insert_reconfig : TcpSession → ℕ → M (Unit {0})
  insert_reconfig s p w = some (
    tt,
    record w { dh = record (w.dh) { hash_reconfig = k.sessions.insert w.dh.hash_reconfig s p } },
  )

  unfoldable pub remove_reconfig : TcpSession → ℕ → M (Unit {0})
  remove_reconfig s p w = some (
    tt,
    record w { dh = record (w.dh) { hash_reconfig = k.sessions.remove w.dh.hash_reconfig s p } },
  )

  unfoldable pub insert_pen : TcpSession → ℕ → ℕ → M (Unit {0})
  insert_pen s tag p w = some (
    tt,
    record w {
      dh = record (w.dh) {
        hash_pen = k.sessions.insert w.dh.hash_pen s p;
        hash_pen_tag = k.tags.insert w.dh.hash_pen_tag tag p;
      };
    },
  )

  unfoldable pub remove_pen : TcpSession → ℕ → ℕ → M (Unit {0})
  remove_pen s tag p w = some (
    tt,
    record w {
      dh = record (w.dh) {
        hash_pen = k.sessions.remove w.dh.hash_pen s p;
        hash_pen_tag = k.tags.remove w.dh.hash_pen_tag tag p;
      };
    },
  )
