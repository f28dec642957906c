-- ===== src/Control/Splice.antt =====
-- kernel/common/dysco_control_output.c, `dysco_ctl_save_rcv_window`: the two sockets of a
-- middlebox that is about to be removed are recorded in the blocks of its two sessions.
use dysco.Base.{ℕ, some, ntohs, is_some, if◌then◌else◌}
use dysco.Types.{CbOut, ControlMessage, rev_session}
use dysco.Kernel.{Kernel}
use dysco.Heap.{maybe, M, pure, ◌>>=◌, ◌>>◌, deref, load_out, modify_out, load_in, lookup_out}

module _ ⦃k : Kernel⦄ where
  -- The device on which the packets of a block's session arrive.
  unfoldable pub iif_of : CbOut → M ℕ
  iif_of d = do q ← deref d.dcb_in; i ← load_in q; pure i.skb_iif

  abbrev pub splice : ℕ → ℕ → CbOut → CbOut
  splice my_tp other_tp d = record d { my_tp = some my_tp; other_tp = some other_tp }

  -- `__inet_lookup_established` takes the four-tuple from the peer's side, with the last port in
  -- host byte order.
  unfoldable pub ctl_save_rcv_window : ControlMessage → M ℕ
  unfolding iif_of
  ctl_save_rcv_window cmsg = do
    left ← lookup_out (rev_session cmsg.left_ss)
    maybe left (pure 0) λ l. do
      ld ← load_out l
      if is_some ld.my_tp then pure 1 else (do
        right ← lookup_out cmsg.right_ss
        maybe right (pure 0) λ r. do
          rd ← load_out r
          left_iif ← iif_of ld
          let lss = record (cmsg.left_ss) { dport = ntohs cmsg.left_ss.dport }
          maybe (k.inet_lookup_established lss left_iif) (pure 0) λ my_sk. do
            right_iif ← iif_of rd
            let rrev = rev_session cmsg.right_ss
            let rss = record rrev { dport = ntohs cmsg.right_ss.sport }
            maybe (k.inet_lookup_established rss right_iif) (pure 0) λ other_sk. do
              modify_out l (splice my_sk other_sk)
              modify_out r (splice other_sk my_sk)
              pure 1)
