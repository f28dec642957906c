-- ===== src/Input/Handler.antt =====
-- kernel/common/dysco_input.c: the first SYN, the SYN+ACK, and the handlers `dysco_input` and
-- `dysco_handle_frame`.
use dysco.Base.{
  ℕ, ◌-◌, ◌*◌, true, false, not, Option, some, List, [], ◌∷◌, ltb, ◌==◌, if◌then◌else◌, and_then,
  ntohl, ntohs, sub32,
}
use dysco.Types.{Skb, CbOut, CbIn, rev_session, tcp, udp, other}
use dysco.Kernel.{Kernel}
use dysco.Heap.{
  maybe, M, pure, ◌>>=◌, ◌>>◌, get, modify_dh, get_skb, put_skb, on_ctx, lift, modify_out, load_in,
  modify_in, lookup_in, lookup_out,
}
use dysco.TcpOptions.{parse_tcp_syn_opt_r, insert_tag}
use dysco.Chain.{read_session, read_sc_len, remove_sc, payload_ptr}
use dysco.Rewrite.Input.{in_hdr_rewrite, in_hdr_rewrite_csum}
use dysco.Output.Session.{session_of}
use dysco.Output.Path.{segment_size}
use dysco.Input.Blocks.{SynView, insert_cb_input}
use dysco.Input.Paths.{in_two_paths_ack, in_two_paths_data_seg}

pub data RxResult : Type 0 where
  rx_pass rx_consumed : RxResult

-- The payload of a SYN read as a `struct syn_packet`.
unfoldable pub read_syn_view : Skb → Option SynView
read_syn_view s = and_then (read_session s.body (payload_ptr s)) λ ss.
    and_then (read_sc_len s.body (payload_ptr s))
      λ len. some (record { ss = ss; sc_len = len; ptr = payload_ptr s })

-- The output block of a SYN+ACK that comes in, from its sequence and ack numbers.
unfoldable pub syn_ack_iseq : ℕ → ℕ → CbOut → CbOut
syn_ack_iseq seq ack d = record d { out_iack = seq; in_iack = seq; out_iseq = ack; in_iseq = ack }

-- What the options of the SYN+ACK, in the input block `i`, mean for the output block.
unfoldable pub syn_ack_options : CbIn → CbOut → CbOut
syn_ack_options i d =
    let d1 : CbOut =
      if i.ts_ok
      then record d {
        ts_ok = true;
        tsr_out = i.ts_in;
        tsr_in = i.ts_in;
        ts_out = i.tsr_in;
        ts_in = i.tsr_in;
        ts_delta = 0;
        tsr_delta = 0;
      }
      else d in
    if i.sack_ok then d1 else record d1 { sack_ok = false }

module _ ⦃k : Kernel⦄ where
  -- `dysco_insert_tag` with the namespace's counter.
  unfoldable pub insert_tag_m : Skb → M Skb
  insert_tag_m s = do
    w ← get
    let (t, next) = insert_tag w.dh.dysco_tag s
    modify_dh (λ h. record h { dysco_tag = next })
    pure t

  -- `dysco_rx_initiation_new`, for a SYN of an unknown subsession.
  unfoldable pub rx_initiation_new : Skb → M RxResult
  unfolding read_syn_view insert_tag_m
  rx_initiation_new s =
      if ltb (s.th.doff * 4) (ntohs s.ip.tot_len - s.ip.ihl * 4)
      then (do
        sp ← lift (read_syn_view s)
        dcb_in ← insert_cb_input s sp
        maybe dcb_in (pure rx_consumed) λ q. do
          s1 ← lift (remove_sc s)
          i ← load_in q
          parsed ← lift (parse_tcp_syn_opt_r s1 i)
          modify_in q (λ _. parsed)
          s2 ← insert_tag_m s1
          put_skb (in_hdr_rewrite parsed s2)
          pure rx_pass)
      else pure rx_pass

  -- `dysco_set_ack_number_out`.
  unfoldable pub set_ack_number_out : Skb → ℕ → M (Unit {0})
  unfolding syn_ack_iseq syn_ack_options
  set_ack_number_out s q = do
    let seq = ntohl s.th.seq
    let ack = sub32 (ntohl s.th.ack_seq) 1
    modify_in q (λ i. record i {
      in_iseq = seq;
      out_iseq = seq;
      in_iack = ack;
      out_iack = ack;
      seq_delta = 0;
      ack_delta = 0;
    })
    i ← load_in q
    dcb ← lookup_out (rev_session i.super)
    maybe dcb (pure tt) λ p. do
      modify_out p (syn_ack_iseq seq ack)
      parsed ← lift (parse_tcp_syn_opt_r s i)
      modify_in q (λ _. parsed)
      modify_out p (syn_ack_options parsed)

  unfoldable pub rewrite_in : ℕ → M (Unit {0})
  rewrite_in q = do i ← load_in q; on_ctx (in_hdr_rewrite_csum i)

  -- A SYN+ACK of a known subsession.
  unfoldable pub in_syn_ack : Skb → ℕ → M RxResult
  unfolding set_ack_number_out rewrite_in
  in_syn_ack s q = do
    modify_in q (λ i. record i { skb_iif = s.skb_iif })
    set_ack_number_out s q
    rewrite_in q
    pure rx_pass

  -- A SYN that comes again.
  unfoldable pub in_syn_again : Skb → ℕ → M RxResult
  unfolding insert_tag_m
  in_syn_again s q = do
    s1 ← lift (remove_sc s)
    s2 ← insert_tag_m s1
    i ← load_in q
    put_skb (in_hdr_rewrite i s2)
    pure rx_pass

  -- Any other packet of a known subsession.
  unfoldable pub in_segment : Skb → ℕ → M RxResult
  unfolding rewrite_in
  in_segment s q = do
    i ← load_in q
    if i.two_paths
        then (if ltb 0 (segment_size s)
            then (do known ← in_two_paths_data_seg s q; if known then rewrite_in q else pure tt)
            else (do in_two_paths_ack s q; rewrite_in q))
        else rewrite_in q
    pure rx_pass

  -- A TCP packet, by its subsession in the table.
  unfoldable pub input_tcp : M RxResult
  unfolding rx_initiation_new in_syn_ack in_syn_again in_segment
  input_tcp = do
    s ← get_skb
    dcb ← lookup_in (session_of s)
    maybe dcb (if s.th.syn then rx_initiation_new s else pure rx_pass) λ q.
        if s.th.syn then (if s.th.ack then in_syn_ack s q else in_syn_again s q) else in_segment s q

  -- `dysco_input`, with the handler of control messages given.
  unfoldable pub input : M ℕ → M RxResult
  unfolding input_tcp
  input control_input = do
    s ← get_skb
    if not s.eth.is_ip then pure rx_pass else elim s.ip.protocol [
      | udp ↦ do r ← control_input; pure rx_pass
      | tcp ↦ input_tcp
      | other ↦ pure rx_pass
    ]

  -- The addresses of the device: the packet is handled once for each that it is sent to.
  unfoldable pub for_addresses : M RxResult → List ℕ → M RxResult
  for_addresses handler [] = pure rx_pass
  for_addresses handler (a ∷ rest) = do
    s ← get_skb
    if s.ip.daddr == a
        then (do
          r ← handler
          elim r [ rx_consumed ↦ pure rx_consumed | rx_pass ↦ for_addresses handler rest ])
        else for_addresses handler rest

  unfoldable pub receive_frame : M ℕ → List ℕ → Skb → M RxResult
  unfolding input for_addresses
  receive_frame control_input addresses s =
      if s.loopback
      then pure rx_pass
      else if not (k.is_valid_ether_addr s.eth.h_source)
      then pure rx_consumed
      else maybe (k.skb_share_check s) (pure rx_consumed)
          λ t. do put_skb t; for_addresses (input control_input) addresses

  -- `dysco_handle_frame`.
  unfoldable pub handle_frame : M ℕ → List ℕ → M RxResult
  unfolding receive_frame
  handle_frame control_input addresses = do s ← get_skb; receive_frame control_input addresses s
