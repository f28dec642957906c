-- ===== src/Input/Paths.antt =====
-- kernel/common/dysco_input.c: packets that arrive while a session has two paths.
use dysco.Base.{ℕ, ◌-◌, Bool, true, false, not, ◌&&◌, ◌||◌, ltb, if◌then◌else◌, ntohl, add32, sub32}
use dysco.Types.{Skb, CbOut, is_established, is_syn_sent, is_syn_received}
use dysco.Kernel.{Kernel}
use dysco.Heap.{maybe, M, pure, ◌>>=◌, ◌>>◌, load_out, modify_out, load_in, modify_in}

-- Where an ack number of the new path lies in the old numbering, from the initial ack numbers of
-- the new path's output block. Also in `DYSCO_ACK` of kernel/common/dysco_control_input.c.
unfoldable pub to_old_ack : CbOut → ℕ → ℕ
to_old_ack d seq =
    if ltb d.in_iack d.out_iack
    then sub32 seq (d.out_iack - d.in_iack)
    else add32 seq (d.in_iack - d.out_iack)

module _ ⦃k : Kernel⦄ where
  -- `two_paths = FALSE`.
  unfoldable pub end_two_paths : ℕ → M (Unit {0})
  end_two_paths q = modify_in q (λ i. record i { two_paths = false })

  -- An ack that covers all that was sent on the old path ends the use of the old path.
  unfoldable pub ack_past_cutoff : ℕ → ℕ → ℕ → M (Unit {0})
  unfolding end_two_paths
  ack_past_cutoff q old ack_seq = do
    d ← load_out old
    if not (k.after d.seq_cutoff ack_seq)
        then (do modify_out old (λ b. record b { use_np_seq = true }); end_two_paths q)
        else pure tt

  -- `dysco_in_two_paths_ack`, for the input block `q`.
  unfoldable pub in_two_paths_ack : Skb → ℕ → M (Unit {0})
  unfolding ack_past_cutoff
  in_two_paths_ack s q = do
    i ← load_in q
    maybe i.dcb_out (pure tt) λ p. do
      d ← load_out p
      if d.old_path
          then (if d.state_t
              then (if is_established d.state then end_two_paths q else pure tt)
              else ack_past_cutoff q p (ntohl s.th.ack_seq))
          else maybe d.other_path (pure tt) λ old. do
            o ← load_out old
            if o.state_t && is_established o.state
                then end_two_paths q
                else ack_past_cutoff q old (ntohl s.th.ack_seq)

  -- The provisional cutoff of the acks: the lowest number that has come in on the new path.
  unfoldable pub lower_ack_cutoff : ℕ → CbOut → CbOut
  lower_ack_cutoff seq d =
      if d.valid_ack_cut
      then (if k.before seq d.ack_cutoff then record d { ack_cutoff = seq } else d)
      else record d { ack_cutoff = seq; valid_ack_cut = true }

  -- `dysco_in_two_paths_data_seg`: `false` if a block is missing.
  unfoldable pub in_two_paths_data_seg : Skb → ℕ → M Bool
  unfolding lower_ack_cutoff to_old_ack
  in_two_paths_data_seg s q = do
    i ← load_in q
    maybe i.dcb_out (pure false) λ p. do
      d ← load_out p
      if d.old_path
          then pure true
          else maybe d.other_path (pure false) λ old. do
            o ← load_out old
            if is_syn_sent o.state || is_syn_received o.state
                then modify_out old (lower_ack_cutoff (to_old_ack d (ntohl s.th.seq)))
                else pure tt
            pure true
