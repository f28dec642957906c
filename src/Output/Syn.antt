-- ===== src/Output/Syn.antt =====
-- kernel/common/dysco_output.c: `dysco_out_syn` and the handler `dysco_output`.
use dysco.Base.{
  ℕ, ◌%◌, true, false, not, ◌&&◌, Option, none, some, ◌==◌, if◌then◌else◌, and_then, ntohl, sub32,
  is_some,
}
use dysco.Types.{Skb, CbOut, CbIn, ServiceChain, rev_session, tcp, udp, other}
use dysco.Kernel.{Kernel}
use dysco.Heap.{
  maybe, M, pure, ◌>>=◌, ◌>>◌, get, modify, get_skb, put_skb, lift, load_out, modify_out,
  update_out, modify_in, lookup_out, lookup_in, lookup_pen,
}
use dysco.TcpOptions.{parse_tcp_syn_opt_s}
use dysco.Chain.{add_sc}
use dysco.Rewrite.Output.{out_hdr_rewrite, out_hdr_rewrite_csum, fix_tcp_ip_csum}
use dysco.Output.Session.{
  match_policy, session_of, arp, create_cb_out, lookup_pen_by_tag, update_five_tuple, out_handle_mb,
  insert_cb_out,
}
use dysco.Output.Path.{out_translate}
use dysco.Output.Window.{fix_rcv_window}

-- `dysco_out_tx_init`: `none` is a packet that is dropped because the chain does not fit.
unfoldable pub out_tx_init : ⦃k : Kernel⦄ → CbOut → ServiceChain → Skb → Option Skb
out_tx_init ⦃k⦄ d sc s = and_then (add_sc d.super sc s) λ t. some (fix_tcp_ip_csum t)

-- The input block that a SYN+ACK going out brings up to date; `d` is its output block.
unfoldable pub syn_ack_in : CbOut → CbIn → CbIn
syn_ack_in d i =
    let i1 = record i {
      in_iseq = d.out_iack;
      out_iseq = d.out_iack;
      in_iack = d.out_iseq;
      out_iack = d.out_iseq;
      seq_delta = 0;
      ack_delta = 0;
      sack_ok = d.sack_ok && i.sack_ok;
    } in
    if d.ts_ok
    then record i1 {
      ts_ok = true;
      ts_in = d.tsr_out;
      ts_out = d.tsr_out;
      tsr_in = d.ts_out;
      tsr_out = d.ts_out;
      ts_delta = 0;
      tsr_delta = 0;
    }
    else record i1 { ts_ok = false }

module _ ⦃k : Kernel⦄ where
  -- The block of a SYN: the one that was found, or a new one if a policy matches.
  unfoldable pub syn_block : Skb → Option ℕ → M (Option ℕ)
  syn_block s (some p) = pure (some p)
  syn_block s none = do
    w ← get
    maybe (match_policy w.dh.policies s) (pure none) λ sc. do
      dcb ← create_cb_out s sc
      maybe dcb (pure none) λ p. do
        insert_cb_out p false
        modify (λ v.
            if is_some v.dev_measurement then v else record v { dev_measurement = some s.dev })
        pure (some p)

  -- A SYN+ACK of the block `p`.
  unfoldable pub out_syn_ack : Skb → ℕ → M ℕ
  unfolding syn_ack_in
  out_syn_ack s p = do
    d ← load_out p
    aux ← lookup_in (rev_session d.sub)
    maybe aux (pure 1) λ q. do
      let seq = ntohl s.th.seq
      let ack = sub32 (ntohl s.th.ack_seq) 1
      modify_out p (λ b. record b { in_iseq = seq; out_iseq = seq; in_iack = ack; out_iack = ack })
      d1 ← load_out p
      modify_in q (syn_ack_in d1)
      put_skb (out_hdr_rewrite_csum d1 s)
      pure 1

  -- A SYN of the block `p`: 0 if it is dropped. If the first four bytes of the next hop's
  -- address are 0, it is looked up again.
  unfoldable pub out_syn_first : Skb → ℕ → M ℕ
  unfolding out_tx_init
  out_syn_first s p = do
    modify_out p (λ d. if d.nh_mac % 4294967296 == 0 then arp s d else d)
    d ← load_out p
    sc ← lift d.sc
    let s1 = out_hdr_rewrite d s
    maybe (out_tx_init d sc s1) (do put_skb s1; pure 0) λ t. do put_skb t; pure 1

  unfoldable pub out_syn : Option ℕ → M ℕ
  unfolding syn_block out_syn_ack out_syn_first
  out_syn dcb = do
    s ← get_skb
    block ← syn_block s dcb
    maybe block (pure 1) λ p. do
      modify_out p (λ d. record d { seq_cutoff = ntohl s.th.seq })
      update_out p (parse_tcp_syn_opt_s s)
      if s.th.ack then out_syn_ack s p else out_syn_first s p

  -- A packet of a session that is neither a SYN nor the first one behind a middlebox.
  unfoldable pub out_segment : ℕ → M ℕ
  out_segment p = do
    s ← get_skb
    d ← load_out p
    maybe d.my_tp (pure tt) λ my_tp.
        if s.th.ack && not d.state_t
        then (do
          other_tp ← lift d.other_tp
          put_skb (fix_rcv_window (k.sockets my_tp) (k.sockets other_tp) s))
        else pure tt
    out_translate p
    pure 1

  -- The block of a TCP packet in the tables, or the end of its treatment as a packet that has
  -- left a middlebox.
  unfoldable pub out_tcp : M ℕ
  unfolding out_syn out_segment
  out_tcp = do
    s ← get_skb
    dcb ← lookup_out (session_of s)
    maybe dcb
        (do
          pending ← lookup_pen (session_of s)
          maybe pending
              (do
                tagged ← lookup_pen_by_tag s
                maybe tagged (if s.th.syn then out_syn none else pure 1)
                    λ p. do update_five_tuple s p; out_handle_mb s p)
              λ p. out_handle_mb s p)
        λ p. if s.th.syn then out_syn (some p) else out_segment p

  -- `dysco_output`, with the handler of control messages given. 1 means that the packet goes on.
  unfoldable pub output : M ℕ → M ℕ
  unfolding out_tcp
  output control_output = do
    s ← get_skb
    if not s.eth.is_ip
        then pure 1
        else elim s.ip.protocol [ udp ↦ control_output | tcp ↦ out_tcp | other ↦ pure 1 ]
