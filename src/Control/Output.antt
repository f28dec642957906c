-- ===== src/Control/Output.antt =====
-- kernel/common/dysco_control_output.c.
use dysco.Base.{
  ℕ, ◌%◌, Bool, true, false, not, ◌||◌, Option, none, some, List, [], ◌∷◌, ◌==◌, ltb, if◌then◌else◌,
  ntohl, ntohs, htonl, htons,
}
use dysco.Types.{Skb, CbOut, CbIn, CbReconfig, ControlMessage, syn_sent, MsgType, syn, syn_ack, ack}
use dysco.Kernel.{Kernel}
use dysco.Heap.{
  maybe, M, pure, ◌>>=◌, ◌>>◌, get, get_skb, modify_skb, deref, load_out, modify_out, load_in,
  modify_in, load_rcb, modify_rcb, alloc_rcb, alloc_out, lookup_out, lookup_reconfig,
  insert_reconfig,
}
use dysco.Output.Session.{zero_out, arp, allocate_ports_m, insert_cb_out, insert_cb_out_reverse}
use dysco.Control.Anchors.{
  control_port, mgm_port, min_message_len, is_state_transfer, fix_udp_checksum, replace_cb_right_a,
  replace_cb_left_a,
}
use dysco.Control.Splice.{ctl_save_rcv_window}

-- `x = flag`, as the message holds it.
abbrev pub flag_bit : Bool → ℕ
flag_bit true = 1
flag_bit false = 0

-- A retransmitted `DYSCO_SYN` gets the numbers of the first one.
unfoldable pub cmsg_of_rcb : CbReconfig → ControlMessage → ControlMessage
cmsg_of_rcb rcb m = record m {
  left_iseq = htonl rcb.left_iseq;
  left_iack = htonl rcb.left_iack;
  left_its = htonl rcb.left_its;
  left_itsr = htonl rcb.left_itsr;
  left_iws = htons rcb.left_iws;
  left_iwsr = htons rcb.left_iwsr;
  sack_ok = htons rcb.sack_ok;
  sport = rcb.sub_out.sport;
  dport = rcb.sub_out.dport;
}

-- The first `DYSCO_SYN` gets those of the session's blocks.
unfoldable pub cmsg_of_session : CbOut → CbIn → ControlMessage → ControlMessage
cmsg_of_session d i m = record m {
  left_iseq = htonl d.in_iseq;
  left_iack = htonl d.in_iack;
  left_its = htonl d.ts_in;
  left_itsr = htonl d.tsr_in;
  left_iws = htons d.ws_in;
  left_iwsr = htons i.ws_in;
  sack_ok = htons (flag_bit d.sack_ok);
}

-- The output block of the new path at the left anchor, before its next hop is looked up.
unfoldable pub new_path_block : CbReconfig → CbOut
new_path_block rcb = record zero_out {
  super = rcb.super;
  sub = rcb.sub_out;
  out_iseq = rcb.left_iseq;
  in_iseq = rcb.left_iseq;
  out_iack = rcb.left_iack;
  in_iack = rcb.left_iack;
  ts_out = rcb.left_its;
  ts_in = rcb.left_its;
  tsr_out = rcb.left_itsr;
  tsr_in = rcb.left_itsr;
  ws_out = rcb.left_iws;
  ws_in = rcb.left_iws;
  ts_ok = not (rcb.left_its == 0);
  ws_ok = not (rcb.left_iws == 0);
  sack_ok = rcb.sack_ok % 2 == 1;
  nh_mac = rcb.nh_mac;
}

module _ ⦃k : Kernel⦄ where
  -- `dysco_insert_cb_control`.
  unfoldable pub insert_cb_control : M (Option ℕ)
  insert_cb_control = do
    s ← get_skb
    w ← get
    rcb ← alloc_rcb (k.stale_rcb)
    maybe rcb (pure none) λ r. do
      (sport, dport) ← allocate_ports_m
      modify_rcb r (λ b. record b {
        rec_begin = w.now;
        rec_done = false;
        super = s.cmsg.left_ss;
        sub_out = record { sip = s.ip.saddr; dip = s.ip.daddr; sport = sport; dport = dport };
        left_iseq = ntohl s.cmsg.left_iseq;
        left_iack = ntohl s.cmsg.left_iack;
        left_its = ntohl s.cmsg.left_its;
        left_itsr = ntohl s.cmsg.left_itsr;
        left_iws = ntohs s.cmsg.left_iws;
        left_iwsr = ntohs s.cmsg.left_iwsr;
        sack_ok = ntohs s.cmsg.sack_ok % 256;
        nh_mac = s.eth.h_dest;
      })
      modify_skb (λ t.
          fix_udp_checksum (record t { cmsg = record (t.cmsg) { sport = sport; dport = dport } }))
      insert_reconfig s.cmsg.left_ss r
      pure (some r)

  -- The block of a host between the anchors, before its next hop is looked up.
  unfoldable pub middle_block : CbReconfig → CbOut
  middle_block rcb = record zero_out {
    super = rcb.super;
    sub = rcb.sub_out;
    out_iseq = rcb.left_iseq;
    in_iseq = rcb.left_iseq;
    out_iack = rcb.left_iack;
    in_iack = rcb.left_iack;
    ts_out = rcb.left_its;
    ts_in = rcb.left_its;
    tsr_out = rcb.left_itsr;
    tsr_in = rcb.left_itsr;
    ws_out = rcb.left_iws;
    ws_in = rcb.left_iws;
    sack_ok = rcb.sack_ok % 2 == 1;
    nh_mac = rcb.nh_mac;
  }

  -- `dysco_control_insert_out`.
  unfoldable pub control_insert_out : ℕ → M (Unit {0})
  unfolding middle_block
  control_insert_out r = do
    s ← get_skb
    rcb ← load_rcb r
    dcb ← alloc_out (middle_block rcb)
    maybe dcb (pure tt) λ p. do
      modify_out p (arp s)
      insert_cb_out p false
      d ← load_out p
      q ← deref d.dcb_in
      modify_in q (λ i. record i {
        ts_in = d.tsr_out;
        ts_out = d.tsr_out;
        tsr_in = d.ts_out;
        tsr_out = d.ts_out;
      })

  -- The old block at the left anchor, when the `DYSCO_SYN` leaves.
  abbrev pub start_old_path : Bool → ℕ → CbOut → CbOut
  start_old_path transfer p d = record d {
    old_path = true;
    state_t = if transfer then true else d.state_t;
    state = syn_sent;
    other_path = some p;
  }

  -- The left anchor has its reconfiguration block `r`: the block of the new path, and the old
  -- block `old` in the state of a sent `DYSCO_SYN`.
  unfoldable pub open_new_path : ℕ → ℕ → M ℕ
  unfolding new_path_block
  open_new_path r old = do
    s ← get_skb
    rcb ← load_rcb r
    dcb ← alloc_out (new_path_block rcb)
    maybe dcb (pure 0) λ p. do
      modify_rcb r (λ b. record b { old_dcb = some old })
      modify_out p (λ d. record (arp s d) { other_path = some old })
      q ← insert_cb_out_reverse p true
      modify_out p (λ d. record d { dcb_in = q })
      o ← load_out old
      old_in ← deref o.dcb_in
      modify_in old_in (λ i. record i { two_paths = true })
      modify_out old (start_old_path (is_state_transfer s.cmsg) p)
      pure 1

  -- A `DYSCO_SYN` that leaves the left anchor for the first time.
  unfoldable pub output_syn_left : M ℕ
  unfolding cmsg_of_session insert_cb_control open_new_path
  output_syn_left = do
    s ← get_skb
    found ← lookup_out s.cmsg.left_ss
    maybe found (pure 0) λ old. do
      d ← load_out old
      q ← deref d.dcb_in
      i ← load_in q
      modify_skb (λ t. record t { cmsg = cmsg_of_session d i t.cmsg })
      rcb ← insert_cb_control
      maybe rcb (pure 0) λ r. open_new_path r old

  -- A `DYSCO_SYN` that leaves a host between the anchors.
  unfoldable pub output_syn_middle : Bool → M ℕ
  unfolding insert_cb_control control_insert_out
  output_syn_middle again =
      if again
      then pure 1
      else do rcb ← insert_cb_control; maybe rcb (pure 0) λ r. do control_insert_out r; pure 1

  -- `dysco_control_output_syn`.
  unfoldable pub control_output_syn : M ℕ
  unfolding output_syn_left output_syn_middle cmsg_of_rcb
  control_output_syn = do
    s ← get_skb
    known ← lookup_reconfig s.cmsg.super
    if s.ip.saddr == s.cmsg.left_a
        then (maybe known output_syn_left λ r. do
          rcb ← load_rcb r
          modify_skb (λ t. fix_udp_checksum (record t { cmsg = cmsg_of_rcb rcb t.cmsg }))
          pure 1)
        else maybe known (output_syn_middle false)
            λ r. do rcb ← load_rcb r; output_syn_middle (not (rcb.sub_out.sip == 0))

  unfoldable pub control_output_ack : M ℕ
  control_output_ack = do
    s ← get_skb
    known ← lookup_reconfig s.cmsg.super
    maybe known (pure 1) λ r.
        if is_state_transfer s.cmsg || not (s.ip.saddr == s.cmsg.left_a) then pure 1 else do
          rcb ← load_rcb r
          old ← deref rcb.old_dcb
          o ← load_out old
          if o.state_t then pure tt else replace_cb_left_a r
          pure 1

  -- The switch of `dysco_control_output`.
  unfoldable pub output_message : Skb → MsgType → M ℕ
  unfolding control_output_syn control_output_ack
  output_message s syn = control_output_syn
  output_message s syn_ack =
      if s.ip.saddr == s.cmsg.right_a then (do replace_cb_right_a; pure 1) else pure 1
  output_message s ack = control_output_ack
  output_message s _ = pure 1

  abbrev pub mem : ℕ → List ℕ → Bool
  mem a [] = false
  mem a (x ∷ xs) = (a == x) || mem a xs

  -- `dysco_control_output`; the list holds the addresses of the device.
  unfoldable pub control_output : List ℕ → M ℕ
  unfolding output_message
  control_output addresses = do
    s ← get_skb
    if not ((s.uh.dest == control_port) || (s.uh.source == control_port) || (s.uh.dest == mgm_port))
        then pure 1
        else if ltb (ntohs s.uh.len) min_message_len || not (mem s.ip.saddr addresses)
        then pure 1
        else if s.uh.dest == mgm_port
        then ctl_save_rcv_window s.cmsg
        else output_message s s.cmsg.mtype
