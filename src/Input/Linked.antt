-- ===== src/Input/Linked.antt =====
-- kernel/common/dysco_input.c, `dysco_insert_cb_input`: the blocks that the first SYN leaves.
use dysco.Base.{
  ℕ, suc, ap, subst, sym, ◌≡◌, refl, ◌∙◌, ◌+◌, ◌-◌, Bool, true, false, if◌then◌else◌, Option, none,
  some, List, [], ◌∷◌, ◌++◌, length, get_elem?, set, ltb,
}
use dysco.Types.{Skb, CbOut, CbIn, TcpSession, session_eq_refl, rev_session}
use dysco.Kernel.{Kernel, KernelLaws}
use dysco.Heap.{World, M, pure, ◌>>=◌, ◌>>◌, free_out, free_in, insert_in, insert_out, insert_pen}
use dysco.Heap.Refused.{refuses}
use dysco.Heap.Granted.{
  get_elem?-snoc, set-snoc, get_elem?-append, modify_out-met, modify_in-met, alloc_out-met,
  alloc_in-met, kmalloc_ok-met,
}
use dysco.Heap.Laws.{get_elem?-set_at}
use dysco.Chain.{read_hops}
use dysco.Output.Session.{session_of}
use dysco.Input.Blocks.{
  SynView, fill_pending, connect, insert_pending, cb_in_reverse, insert_cb_in_reverse,
  insert_forward, insert_cb_input,
}
use dysco.Input.Refused.{demands}

module _ ⦃k : Kernel⦄ where
  -- The two blocks of a session, found by what arrives and by what leaves, point to each other.
  pub record Linked (s : Skb) (sp : SynView) (w : World) (q p : ℕ) : Type 0 where
    pub found_in : k.sessions.lookup w.dh.hash_in (session_of s) ≡ some q
    pub found_out : k.sessions.lookup w.dh.hash_out (rev_session sp.ss) ≡ some p
    pub input_block :
        (i : CbIn) × (get_elem? w.ins q ≡ some (some i))
        × (i.sub ≡ session_of s)
        × (i.super ≡ sp.ss)
        × (i.dcb_out ≡ some p)
    pub output_block :
        (d : CbOut) × (get_elem? w.outs p ≡ some (some d))
        × (d.sub ≡ rev_session (session_of s))
        × (d.super ≡ rev_session sp.ss)
        × (d.dcb_in ≡ some q)

  -- What a handler leaves that only adds to the output blocks and to the pending entries.
  record Adds (w u : World) : Type 0 where
    ins : u.ins ≡ w.ins
    outs : (p : ℕ) (o : Option CbOut) → get_elem? w.outs p ≡ some o → get_elem? u.outs p ≡ some o
    hash_in : u.dh.hash_in ≡ w.dh.hash_in
    hash_out : u.dh.hash_out ≡ w.dh.hash_out

  abbrev Added : World → Option (Bool × World) → Type 0
  Added w r = (u : World) × (r ≡ some (true, u)) × Adds w u

  after_Added :
      {B : Type 0} (P : Option (B × World) → Type 0) (m : M Bool) (f : Bool → M B) (v : World)
      → Added v (m v)
      → ((u : World) → Adds v u → P (f true u))
      → P ((m >>= f) v)
  after_Added P m f v (u, e, adds) met = subst P (ap (λ r. ((λ _. r) >>= f) v) (sym e)) (met u adds)

  module _ (s : Skb) (sp : SynView) (hops : List ℕ)
      (readable : read_hops (sp.sc_len - 1) s.body (sp.ptr + 16 + 4) ≡ some hops) where
    fill_pending-Added :
        (w v : World) (b : CbOut)
        → v.outs ≡ w.outs ++ some b ∷ []
        → v.ins ≡ w.ins
        → v.dh ≡ w.dh
        → Added w (fill_pending s sp (length w.outs) v)
    unfolding fill_pending insert_pen
    fill_pending-Added w v b outs ins dh =
        let p = length w.outs in
        let b' = record b {
          sc = some (record { len = sp.sc_len - 1; pos = k.stale_pos; hops = hops });
          free_sc = true;
        } in
        let at : get_elem? v.outs p ≡ some (some b) =
          ap (λ os. get_elem? os p) outs ∙ get_elem?-snoc w.outs (some b) in
        rw readable (
          modify_out-met (Added w) v p b _ _ at (
            _,
            refl,
            record {
              ins = ins;
              outs = λ q o e.
                  ap (λ os. get_elem? (set os p (some b')) q) outs
                  ∙ ap (λ os. get_elem? os q) (set-snoc w.outs (some b) (some b'))
                  ∙ get_elem?-append w.outs (some b' ∷ []) q o e;
              hash_in = ap (λ h. h.hash_in) dh;
              hash_out = ap (λ h. h.hash_out) dh;
            },
          ))

    insert_pending-Added :
        (w : World) → refuses 2 w.grants ≡ false → Added w (insert_pending s sp w)
    unfolding insert_pending
    insert_pending-Added w h =
        alloc_out-met (Added w) w 1 _ _ h λ gs h'.
          kmalloc_ok-met (Added w) _ 0 _ h' λ gs' _. fill_pending-Added w _ _ refl refl refl

    insert_forward-Added :
        (w : World)
        → refuses (if ltb 1 sp.sc_len then 2 else 0) w.grants ≡ false
        → Added w (insert_forward s sp w)
    unfolding insert_forward
    insert_forward-Added w = go (ltb 1 sp.sc_len)
      where
        go :
            (b : Bool)
            → refuses (if b then 2 else 0) w.grants ≡ false
            → Added w ((if b then insert_pending s sp else pure true) w)
        go true h = insert_pending-Added w h
        go false h =
            (w, refl, record { ins = refl; outs = λ p o e. e; hash_in = refl; hash_out = refl })

  module _ (laws : KernelLaws k) (s : Skb) (sp : SynView) where
    abbrev Answers : ℕ → ℕ → Option (Option ℕ × World) → Type 0
    Answers q p r = (u : World) × (r ≡ some (some q, u)) × Linked s sp u q p

    connect-Linked :
        (w : World) (q p : ℕ) (i : CbIn) (d : CbOut)
        → get_elem? w.ins q ≡ some (some i)
        → get_elem? w.outs p ≡ some (some d)
        → i.sub ≡ session_of s
        → i.super ≡ sp.ss
        → d.sub ≡ rev_session (session_of s)
        → d.super ≡ rev_session sp.ss
        → k.sessions.lookup w.dh.hash_in (session_of s) ≡ none
        → k.sessions.lookup w.dh.hash_out (rev_session sp.ss) ≡ none
        → Answers q p (connect s sp q p w)
    unfolding connect insert_in insert_out
    connect-Linked w q p i d at_q at_p i_sub i_super d_sub d_super fresh_in fresh_out =
        modify_in-met (Answers q p) w q i _ _ at_q (
          modify_out-met (Answers q p) _ p d _ _ at_p (
            _,
            refl,
            record {
              found_in = inserted w.dh.hash_in (session_of s) q fresh_in;
              found_out = inserted w.dh.hash_out (rev_session sp.ss) p fresh_out;
              input_block = (_, get_elem?-set_at w.ins q (some i) _ at_q, i_sub, i_super, refl);
              output_block = (_, get_elem?-set_at w.outs p (some d) _ at_p, d_sub, d_super, refl);
            },
          ))
      where
        inserted :
            (t : k.sessions.T) (ss : TcpSession) (p : ℕ)
            → k.sessions.lookup t ss ≡ none
            → k.sessions.lookup (k.sessions.insert t ss p) ss ≡ some p
        inserted t ss p fresh =
            laws.sessions_laws.lookup-insert t ss ss p fresh
            ∙ ap (λ b. if b then some p else k.sessions.lookup t ss) (session_eq_refl ss)

    -- Where all demands for memory of `dysco_insert_cb_input` are granted, the packet holds the rest
    -- of the chain, and neither session is in its table, it returns the new input block: the
    -- subsession of the SYN finds it, the session seen from this host's side finds the new output
    -- block, each block points to the other, and they hold the sessions of the two directions.
    pub insert_cb_input-Linked :
        (w : World) (hops : List ℕ)
        → refuses (demands sp) w.grants ≡ false
        → read_hops (sp.sc_len - 1) s.body (sp.ptr + 16 + 4) ≡ some hops
        → k.sessions.lookup w.dh.hash_in (session_of s) ≡ none
        → k.sessions.lookup w.dh.hash_out (rev_session sp.ss) ≡ none
        → (u : World) × (insert_cb_input s sp w ≡ some (some (length w.ins), u))
          × Linked s sp u (length w.ins) (length w.outs)
    unfolding insert_cb_input insert_cb_in_reverse cb_in_reverse
    insert_cb_input-Linked w hops h readable fresh_in fresh_out =
        alloc_in-met (Answers (length w.ins) (length w.outs)) w
          (suc (if ltb 1 sp.sc_len then 2 else 0)) _ _ h
          λ gs h'. alloc_out-met (Answers (length w.ins) (length w.outs)) _ _ _ _ h' λ gs' h''.
            after_Added (Answers (length w.ins) (length w.outs)) (insert_forward s sp)
              (λ b.
                if b
                then connect s sp (length w.ins) (length w.outs)
                else (do free_in (length w.ins); free_out (length w.outs); pure none))
              _ (insert_forward-Added s sp hops readable _ h'')
              λ u added.
                connect-Linked u (length w.ins) (length w.outs) _ _
                  (ap (λ is. get_elem? is (length w.ins)) added.ins ∙ get_elem?-snoc w.ins _)
                  (added.outs (length w.outs) _ (get_elem?-snoc w.outs _)) refl refl refl refl
                  (ap (λ t. k.sessions.lookup t (session_of s)) added.hash_in ∙ fresh_in)
                  (ap (λ t. k.sessions.lookup t (rev_session sp.ss)) added.hash_out ∙ fresh_out)
