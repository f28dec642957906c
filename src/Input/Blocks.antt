-- ===== src/Input/Blocks.antt =====
-- kernel/common/dysco_input.c: the control blocks that the first SYN of a session creates.
use dysco.Base.{ℕ, ◌+◌, ◌-◌, Bool, true, false, Option, none, some, ltb, if◌then◌else◌, ntohl}
use dysco.Types.{Skb, CbOut, TcpSession, rev_session, one_path}
use dysco.Kernel.{Kernel}
use dysco.Heap.{
  maybe, M, pure, ◌>>=◌, ◌>>◌, lift, kmalloc_ok, modify_out, alloc_out, alloc_in, modify_in,
  free_out, free_in, insert_in, insert_out, insert_pen,
}
use dysco.Chain.{read_hops}
use dysco.Output.Session.{zero_out, zero_in, session_of}

-- The session and the length of the chain in the payload, and where the payload begins.
pub record SynView : Type 0 where
  pub ss : TcpSession
  pub sc_len : ℕ
  pub ptr : ℕ

module _ ⦃k : Kernel⦄ where
  -- The part of `dysco_insert_pending` after its demands for memory: the chain less its first hop.
  -- The tag that keys it is the 0 of cleared memory. `pos` is not written.
  unfoldable pub fill_pending : Skb → SynView → ℕ → M Bool
  fill_pending s sp p = do
    hops ← lift (read_hops (sp.sc_len - 1) s.body (sp.ptr + 16 + 4))
    modify_out p (λ d. record d {
      sc = some (record { len = sp.sc_len - 1; pos = k.stale_pos; hops = hops });
      free_sc = true;
    })
    insert_pen sp.ss 0 p
    pure true

  -- `dysco_insert_pending`: the block of the next subsession.
  unfoldable pub insert_pending : Skb → SynView → M Bool
  unfolding fill_pending
  insert_pending s sp = do
    dcb ← alloc_out (record zero_out { super = sp.ss })
    maybe dcb (pure false)
        λ p. do room ← kmalloc_ok; if room then fill_pending s sp p else (do free_out p; pure false)

  -- The output block that `dysco_insert_cb_in_reverse` fills.
  unfoldable pub cb_in_reverse : Skb → TcpSession → CbOut
  cb_in_reverse s ss = record zero_out {
    super = rev_session ss;
    sub = rev_session (session_of s);
    in_iack = ntohl s.th.seq;
    out_iack = ntohl s.th.seq;
    other_path = none;
    old_path = false;
    valid_ack_cut = false;
    use_np_seq = false;
    use_np_ack = false;
    ack_cutoff = 0;
    ack_ctr = 0;
    state = one_path;
    nh_mac = s.eth.h_source;
  }

  unfoldable pub insert_cb_in_reverse : Skb → TcpSession → M (Option ℕ)
  unfolding cb_in_reverse
  insert_cb_in_reverse s ss = alloc_out (cb_in_reverse s ss)

  -- The pending entry is made only if the chain goes on behind this host.
  unfoldable pub insert_forward : Skb → SynView → M Bool
  unfolding insert_pending
  insert_forward s sp = if ltb 1 sp.sc_len then insert_pending s sp else pure true

  -- The end of `dysco_insert_cb_input`, where all blocks are there: they are connected and inserted.
  unfoldable pub connect : Skb → SynView → ℕ → ℕ → M (Option ℕ)
  connect s sp q p = do
    modify_in q (λ i. record i { dcb_out = some p })
    modify_out p (λ d. record d { dcb_in = some q })
    insert_in (session_of s) q
    insert_out (rev_session sp.ss) p
    pure (some q)

  -- `dysco_insert_cb_input`.
  unfoldable pub insert_cb_input : Skb → SynView → M (Option ℕ)
  unfolding insert_cb_in_reverse insert_forward connect
  insert_cb_input s sp = do
    dcb_in ← alloc_in (record zero_in {
      sub = session_of s;
      super = sp.ss;
      two_paths = false;
      skb_iif = s.skb_iif;
    })
    maybe dcb_in (pure none) λ q. do
      dcb_out ← insert_cb_in_reverse s sp.ss
      maybe dcb_out (do free_in q; pure none)
          λ p. do
            forward ← insert_forward s sp
            if forward then connect s sp q p else (do free_in q; free_out p; pure none)
