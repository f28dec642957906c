-- ===== src/Control/Input.antt =====
-- kernel/common/dysco_control_input.c.
use dysco.Base.{
  ℕ, ◌%◌, true, false, not, ◌||◌, Option, none, some, ◌==◌, ltb, if◌then◌else◌, ntohl, ntohs,
}
use dysco.Types.{
  Skb, CbOut, CbIn, CbReconfig, ControlMessage, checksum_unnecessary, established, is_established,
  rev_session, MsgType, syn, syn_ack, ack, state_transferred,
}
use dysco.Kernel.{Kernel}
use dysco.Heap.{
  maybe, M, pure, ◌>>=◌, ◌>>◌, get_skb, modify_skb, deref, load_out, modify_out, load_in, modify_in,
  load_rcb, modify_rcb, alloc_rcb, alloc_in, alloc_out, free_in, lookup_out, lookup_reconfig,
  insert_out, insert_in, insert_reconfig, remove_reconfig,
}
use dysco.Output.Session.{zero_out, zero_in}
use dysco.Input.Paths.{to_old_ack}
use dysco.Control.Deltas.{compute_deltas_in, compute_deltas_out}
use dysco.Control.Anchors.{control_port, min_message_len, is_state_transfer, replace_cb_left_a}

module _ ⦃k : Kernel⦄ where
  -- The block that `dysco_insert_rcb_control_input` fills; its memory is not cleared.
  unfoldable pub rcb_of_message : Skb → CbReconfig
  rcb_of_message s = record (k.stale_rcb) {
    super = s.cmsg.super;
    left_ss = s.cmsg.left_ss;
    right_ss = s.cmsg.right_ss;
    sub_in = record {
      sip = s.ip.saddr;
      dip = s.ip.daddr;
      sport = s.cmsg.sport;
      dport = s.cmsg.dport;
    };
    sub_out = record (k.stale_rcb.sub_out) { sip = 0 };
    left_iseq = ntohl s.cmsg.left_iseq;
    left_iack = ntohl s.cmsg.left_iack;
    left_its = ntohl s.cmsg.left_its;
    left_itsr = ntohl s.cmsg.left_itsr;
    left_iws = ntohs s.cmsg.left_iws;
    left_iwsr = ntohs s.cmsg.left_iwsr;
    sack_ok = ntohs s.cmsg.sack_ok % 256;
  }

  unfoldable pub insert_rcb_control_input : Skb → M (Option ℕ)
  unfolding rcb_of_message
  insert_rcb_control_input s = do
    rcb ← alloc_rcb (rcb_of_message s)
    maybe rcb (pure none) λ r. do insert_reconfig s.cmsg.super r; pure (some r)

  -- The output block that `dysco_build_cb_in_reverse` fills.
  unfoldable pub build_cb_in_reverse : Skb → CbReconfig → CbOut
  build_cb_in_reverse s rcb = record zero_out {
    super = rev_session rcb.super;
    sub = record {
      sip = s.ip.daddr;
      dip = s.ip.saddr;
      sport = rcb.sub_in.dport;
      dport = rcb.sub_in.sport;
    };
    out_iseq = rcb.left_iack;
    in_iseq = rcb.left_iack;
    out_iack = rcb.left_iseq;
    in_iack = rcb.left_iseq;
    nh_mac = s.eth.h_source;
  }

  -- `dysco_control_config_rightA`, for the blocks `r`, `q` and `p`; 0 if the session is unknown.
  -- The input block of the old path is read only for its timestamps.
  unfoldable pub control_config_right_a : ControlMessage → ℕ → ℕ → ℕ → M ℕ
  control_config_right_a cmsg r q p = do
    old_out ← lookup_out (rev_session cmsg.right_ss)
    maybe old_out (do free_in q; rcb ← load_rcb r; remove_reconfig rcb.super r; pure 0)
        λ old. do
          modify_in q (λ i. record i { super = cmsg.right_ss })
          rcb ← load_rcb r
          o ← load_out old
          oi ←
              (if rcb.left_its == 0
                then pure zero_in
                else do old_in ← deref o.dcb_in; load_in old_in)
          modify_in q (λ i. compute_deltas_in i o oi rcb)
          modify_out p (λ d. compute_deltas_out d o rcb)
          modify_in q (λ i. record i { two_paths = true })
          modify_rcb r (λ b. record b { old_dcb = some old; new_dcb = some p })
          modify_out p (λ d. record d { other_path = some old })
          modify_out old (λ d. if is_state_transfer cmsg then record d { state_t = true } else d)
          pure 1

  -- The input block of a host that is not the right anchor.
  unfoldable pub pass_through_in : CbReconfig → CbIn → CbIn
  pass_through_in rcb i =
      let i1 : CbIn = record i {
        super = rcb.super;
        out_iseq = rcb.left_iseq;
        out_iack = rcb.left_iack;
        seq_delta = 0;
        ack_delta = 0;
      } in
      let i2 : CbIn = if rcb.left_its == 0 then record i1 { ts_ok = false } else record i1 {
        ts_in = rcb.left_its;
        ts_out = rcb.left_its;
        ts_delta = 0;
        ts_ok = true;
      } in
      let i3 : CbIn = if rcb.left_iws == 0 then record i2 { ws_ok = false } else record i2 {
        ws_in = rcb.left_iws;
        ws_out = rcb.left_iws;
        ws_delta = 0;
        ws_ok = true;
      } in
      record i3 { sack_ok = rcb.sack_ok % 2 == 1 }

  -- `dysco_control_reconfig_in`.
  unfoldable pub control_reconfig_in : Skb → ℕ → M ℕ
  unfolding build_cb_in_reverse control_config_right_a pass_through_in
  control_reconfig_in s r = do
    rcb ← load_rcb r
    dcb_in ← alloc_in (record (k.stale_in) {
      sub = rcb.sub_in;
      in_iseq = rcb.left_iseq;
      in_iack = rcb.left_iack;
      two_paths = false;
      skb_iif = s.skb_iif;
    })
    maybe dcb_in (do remove_reconfig rcb.super r; pure 0)
        λ q. do
          dcb_out ← alloc_out (build_cb_in_reverse s rcb)
          maybe dcb_out (do free_in q; remove_reconfig rcb.super r; pure 0)
              λ p. do
                modify_out p (λ d. record d { dcb_in = some q })
                modify_in q (λ i. record i { dcb_out = some p })
                done ←
                    (if s.ip.daddr == s.cmsg.right_a
                      then control_config_right_a s.cmsg r q p
                      else do
                        modify_in q (pass_through_in rcb)
                        modify_out p (λ d. record d { sack_ok = rcb.sack_ok % 2 == 1 })
                        insert_out (rev_session rcb.super) p
                        pure 1)
                if done == 0 then pure 0 else (do insert_in rcb.sub_in q; pure 1)

  -- Each message is handled by a function that gives `some r` to return `r` at once, and `none`
  -- to leave the switch.
  unfoldable pub input_syn : Skb → M (Option ℕ)
  unfolding insert_rcb_control_input control_reconfig_in
  input_syn s = do
    known ← lookup_reconfig s.cmsg.super
    maybe known
        (do
          rcb ← insert_rcb_control_input s
          maybe rcb (pure (some 0)) λ r. do v ← control_reconfig_in s r; pure (some v))
        λ r. pure (some 1)

  -- The cutoff of the acks is known at the left anchor.
  abbrev pub learn_ack_cutoff : ℕ → CbOut → CbOut
  learn_ack_cutoff cutoff d =
      if is_established d.state then d else record d { ack_cutoff = cutoff; valid_ack_cut = true }

  unfoldable pub input_syn_ack : Skb → M (Option ℕ)
  input_syn_ack s =
      if s.ip.daddr == s.cmsg.left_a
      then (do
        dcb ← lookup_out s.cmsg.left_ss
        maybe dcb (pure (some 1))
            λ p. do modify_out p (learn_ack_cutoff (ntohl s.cmsg.seq_cutoff)); pure none)
      else pure none

  -- At the right anchor a `DYSCO_ACK` switches to the new path, unless a state is transferred.
  abbrev pub establish : ℕ → CbOut → CbOut
  establish cutoff d =
      if d.state_t
      then d
      else record d { ack_cutoff = cutoff; valid_ack_cut = true; state = established }

  unfoldable pub input_ack : Skb → M (Option ℕ)
  input_ack s = do
    known ← lookup_reconfig s.cmsg.super
    maybe known (pure none) λ r. if not (s.cmsg.right_a == s.ip.daddr) then pure none else do
      rcb ← load_rcb r
      maybe rcb.old_dcb (pure none) λ old. do
        o ← load_out old
        maybe o.other_path (pure none) λ new_. do
          n ← load_out new_
          if is_established o.state then pure (some 1) else (do
            modify_out old (establish (to_old_ack n (ntohl s.cmsg.seq_cutoff)))
            pure none)

  unfoldable pub input_state_transferred : Skb → M (Option ℕ)
  input_state_transferred s = do
    known ← lookup_reconfig s.cmsg.super
    maybe known (pure (some 1)) λ r.
        if s.ip.daddr == s.cmsg.left_a
        then (do replace_cb_left_a r; pure none)
        else if s.ip.daddr == s.cmsg.right_a
        then (do
          rcb ← load_rcb r
          old ← deref rcb.old_dcb
          modify_out old (λ d. record d { state = established })
          pure none)
        else pure none

  -- The switch of `dysco_control_input`.
  unfoldable pub input_message : Skb → MsgType → M (Option ℕ)
  unfolding input_syn input_syn_ack input_ack input_state_transferred
  input_message s syn = input_syn s
  input_message s syn_ack = input_syn_ack s
  input_message s ack = input_ack s
  input_message s state_transferred = input_state_transferred s
  input_message s _ = pure none

  unfoldable pub control_input : M ℕ
  unfolding input_message
  control_input = do
    s ← get_skb
    if not ((s.uh.dest == control_port) || (s.uh.source == control_port))
        then pure 1
        else if ltb (ntohs s.uh.len) min_message_len
        then pure 1
        else do
          r ← input_message s s.cmsg.mtype
          maybe r
              (do
                modify_skb (λ t. record t {
                  csum = 0;
                  csum_valid = true;
                  ip_summed = checksum_unnecessary;
                })
                pure 1)
              λ v. pure v
