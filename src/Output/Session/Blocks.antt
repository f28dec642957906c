-- ===== src/Output/Session/Blocks.antt =====
-- The control block of the reverse direction.
use dysco.Base.{ℕ, Bool, false, Option, none, some}
use dysco.Types.{CbOut, CbIn, TcpSession, rev_session, one_path}
use dysco.Kernel.{Kernel}
use dysco.Heap.{maybe, M, pure, ◌>>=◌, ◌>>◌, load_out, modify_out, alloc_in, insert_out, insert_in}

abbrev pub zero_session : TcpSession
zero_session = record { sip = 0; dip = 0; sport = 0; dport = 0 }

-- A block as `kzalloc` returns it.
abbrev pub zero_out : CbOut
zero_out = record {
  dcb_in = none;
  super = zero_session;
  sub = zero_session;
  in_iseq = 0;
  in_iack = 0;
  out_iseq = 0;
  out_iack = 0;
  ack_delta = 0;
  seq_delta = 0;
  seq_cutoff = 0;
  ack_cutoff = 0;
  my_tp = none;
  other_tp = none;
  sc = none;
  other_path = none;
  ts_in = 0;
  ts_out = 0;
  ts_delta = 0;
  tsr_in = 0;
  tsr_out = 0;
  tsr_delta = 0;
  dysco_tag = 0;
  ws_in = 0;
  ws_out = 0;
  ws_delta = 0;
  nh_mac = 0;
  state = one_path;
  old_path = false;
  valid_ack_cut = false;
  use_np_seq = false;
  use_np_ack = false;
  state_t = false;
  free_sc = false;
  ack_add = false;
  seq_add = false;
  sack_ok = false;
  ts_ok = false;
  ts_add = false;
  ws_ok = false;
  tsr_add = false;
  tag_ok = false;
  ack_ctr = 0;
}

abbrev pub zero_in : CbIn
zero_in = record {
  dcb_out = none;
  sub = zero_session;
  super = zero_session;
  in_iseq = 0;
  in_iack = 0;
  out_iseq = 0;
  out_iack = 0;
  ack_delta = 0;
  seq_delta = 0;
  ts_in = 0;
  ts_out = 0;
  ts_delta = 0;
  tsr_in = 0;
  tsr_out = 0;
  tsr_delta = 0;
  ws_in = 0;
  ws_out = 0;
  ws_delta = 0;
  two_paths = false;
  ack_add = false;
  seq_add = false;
  sack_ok = false;
  ts_ok = false;
  ts_add = false;
  tsr_add = false;
  ws_ok = false;
  skb_iif = 0;
}

-- The input block for the packets that answer those of the output block `d`, which is `p`.
unfoldable pub reverse_of : ℕ → CbOut → Bool → CbIn
reverse_of p d two_paths = record zero_in {
  sub = rev_session d.sub;
  super = rev_session d.super;
  in_iack = d.out_iseq;
  out_iack = d.out_iseq;
  in_iseq = d.out_iack;
  out_iseq = d.out_iack;
  ts_ok = d.ts_ok;
  ts_in = d.tsr_in;
  ts_out = d.tsr_in;
  tsr_in = d.ts_in;
  tsr_out = d.ts_in;
  ws_ok = d.ws_ok;
  ws_in = d.ws_in;
  ws_out = d.ws_in;
  sack_ok = d.sack_ok;
  two_paths = two_paths;
  dcb_out = some p;
}

module _ ⦃k : Kernel⦄ where
  -- `dysco_insert_cb_out_reverse`.
  unfoldable pub insert_cb_out_reverse : ℕ → Bool → M (Option ℕ)
  unfolding reverse_of
  insert_cb_out_reverse p two_paths = do
    d ← load_out p
    dcb_in ← alloc_in (reverse_of p d two_paths)
    maybe dcb_in (pure none) λ q. do
      modify_out p (λ b. record b { dcb_in = some q })
      insert_in (rev_session d.sub) q
      pure (some q)

  -- `dysco_insert_cb_out`.
  unfoldable pub insert_cb_out : ℕ → Bool → M (Unit {0})
  unfolding insert_cb_out_reverse
  insert_cb_out p two_paths = do
    d ← load_out p
    insert_out d.super p
    q ← insert_cb_out_reverse p two_paths
    modify_out p (λ b. record b { dcb_in = q })
