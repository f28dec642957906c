-- ===== src/Control/Anchors.antt =====
-- kernel/common/dysco_control_output.c: the switch of the anchors to the new path, and the UDP
-- packets that carry the messages.
use dysco.Base.{ℕ, ◌+◌, Bool, true, ◌==◌, if◌then◌else◌, htonl, ntohs}
use dysco.Types.{Skb, ControlMessage, checksum_unnecessary, established, syn_received, is_syn_sent}
use dysco.Kernel.{Kernel}
use dysco.Heap.{
  maybe, M, pure, ◌>>=◌, ◌>>◌, get, get_skb, modify_skb, deref, load_out, modify_out, load_rcb,
  modify_rcb, lookup_reconfig,
}
use dysco.Rewrite.Fields.{shift}

-- `dysco_control_port` and `dysco_mgm_port`, in network byte order.
abbrev pub control_port : ℕ
control_port = 0xe007

abbrev pub mgm_port : ℕ
mgm_port = 0xe107

-- `UDP_HDR_LEN + RUDP_HDR_LEN + sizeof(struct control_message)`.
abbrev pub min_message_len : ℕ
min_message_len = 8 + 9 + 94

-- `ntohs(cmsg->semantic) == STATE_TRANSFER`.
abbrev pub is_state_transfer : ControlMessage → Bool
is_state_transfer cmsg = ntohs cmsg.semantic == 1

abbrev pub set_cutoff : ℕ → Skb → Skb
set_cutoff v s = record s { cmsg = record (s.cmsg) { seq_cutoff = v } }

module _ ⦃k : Kernel⦄ where
  unfoldable pub fix_udp_checksum : Skb → Skb
  fix_udp_checksum s =
      let udp_len = ntohs s.uh.len in
      let s0 = record s { udp_check = 0 } in
      record s0 {
        udp_check =
            k.csum_fold
              (k.csum_segment s0 udp_len (k.csum_tcpudp_nofold s.ip.saddr s.ip.daddr udp_len 17));
        ip_summed = checksum_unnecessary;
      }

  -- `dysco_replace_cb_rightA`: a `DYSCO_SYN_ACK` leaves the right anchor.
  unfoldable pub replace_cb_right_a : M (Unit {0})
  unfolding fix_udp_checksum
  replace_cb_right_a = do
    s ← get_skb
    rcb ← lookup_reconfig s.cmsg.super
    maybe rcb (pure tt) λ r. do
      c ← load_rcb r
      old ← deref c.old_dcb
      o ← load_out old
      modify_out old
          (λ b. record b { old_path = true; state = syn_received; other_path = c.new_dcb })
      new_ ← deref c.new_dcb
      n ← load_out new_
      modify_skb
          (λ t. fix_udp_checksum (set_cutoff (htonl (shift n.seq_add o.seq_cutoff n.seq_delta)) t))

  -- `dysco_replace_cb_leftA`: a `DYSCO_ACK` leaves the left anchor, or the state has arrived.
  unfoldable pub replace_cb_left_a : ℕ → M (Unit {0})
  unfolding fix_udp_checksum
  replace_cb_left_a r = do
    c ← load_rcb r
    old ← deref c.old_dcb
    modify_out old (λ b. if is_syn_sent b.state then record b { state = established } else b)
    o ← load_out old
    modify_skb (λ t. fix_udp_checksum (set_cutoff (htonl o.seq_cutoff) t))
    w ← get
    modify_rcb r (λ b. if b.rec_done then b else record b { rec_end = w.now; rec_done = true })
