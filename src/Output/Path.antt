-- ===== src/Output/Path.antt =====
-- kernel/common/dysco_output.c: the choice between the old and the new path, and
-- `dysco_out_translate`.
use dysco.Base.{
  ℕ, ◌+◌, ◌-◌, ◌*◌, ◌%◌, true, false, not, Option, some, ltb, if◌then◌else◌, and_then, htonl, ntohl,
  ntohs, u32,
}
use dysco.Types.{Skb, Ctx, CbOut, CbState, syn_sent, syn_received, established, is_established}
use dysco.Kernel.{Kernel}
use dysco.Heap.{maybe, M, pure, ◌>>=◌, ◌>>◌, load_out, modify_out, deref, get_skb, put_skb, on_ctx}
use dysco.Rewrite.Fields.{set_ack_seq}
use dysco.Rewrite.Output.{
  out_rewrite_seq, out_rewrite_ack, out_rewrite_ts, out_rewrite_rcv_wnd, out_hdr_rewrite_csum,
}

-- `ntohs(tot_len) - ihl * 4 - doff * 4`, in 16 bits.
abbrev pub segment_size : Skb → ℕ
segment_size s = (ntohs s.ip.tot_len + 65536 - (s.ip.ihl * 4 + s.th.doff * 4)) % 65536

-- What `dysco_pick_path_ack` leaves: the block that is used, the old block and the packet.
pub record Picked : Type 0 where
  pub path : Option ℕ
  pub cb : CbOut
  pub pkt : Skb

module _ ⦃k : Kernel⦄ where
  -- The block that a data segment which ends at `seq` is sent by; `p` is the block `d`.
  unfoldable pub pick_path_seq : ℕ → CbOut → ℕ → Option ℕ
  pick_path_seq p d seq =
      if d.state_t
      then (if is_established d.state then d.other_path else some p)
      else if d.use_np_seq
      then d.other_path
      else if not (k.before seq d.seq_cutoff)
      then d.other_path
      else some p

  -- The last ack numbers of the old path: the number is replaced by the cutoff, and the second
  -- time the old path is given up.
  unfoldable pub clamp_ack : ℕ → CbOut → Skb → Picked
  clamp_ack p d s =
      let ack_cutoff = htonl d.ack_cutoff in
      let ctr = u32 (d.ack_ctr + 1) in
      record {
        path = some p;
        cb = record d { ack_ctr = ctr; use_np_ack = if ltb 1 ctr then true else d.use_np_ack };
        pkt = set_ack_seq ack_cutoff (k.inet_csum_replace4 s s.th.ack_seq ack_cutoff false);
      }

  unfoldable pub pick_path_ack : ℕ → CbOut → Skb → Picked
  unfolding clamp_ack
  pick_path_ack p d s =
      let old : Picked = record { path = some p; cb = d; pkt = s } in
      let new_ : Picked = record { path = d.other_path; cb = d; pkt = s } in
      if d.state_t
      then (if is_established d.state then new_ else old)
      else if d.valid_ack_cut
      then (if d.use_np_ack
          then new_
          else if not (k.after d.ack_cutoff (ntohl s.th.ack_seq))
          then (if s.th.fin then new_ else clamp_ack p d s)
          else old)
      else old

  -- `if (after(seq, seq_cutoff)) seq_cutoff = seq;`
  abbrev pub raise_cutoff : ℕ → CbOut → CbOut
  raise_cutoff seq d = if k.after seq d.seq_cutoff then record d { seq_cutoff = seq } else d

  unfoldable pub pick_ack_m : ℕ → M (Option ℕ)
  unfolding pick_path_ack
  pick_ack_m p = do
    d ← load_out p
    s ← get_skb
    let r = pick_path_ack p d s
    modify_out p (λ b. (pick_path_ack p b s).cb)
    put_skb r.pkt
    pure r.path

  -- The choice while two paths are known.
  unfoldable pub choose_path : ℕ → CbState → ℕ → ℕ → M (Option ℕ)
  unfolding pick_path_seq pick_ack_m
  choose_path p established seg_sz seq =
      if ltb 0 seg_sz then (do d ← load_out p; pure (pick_path_seq p d seq)) else pick_ack_m p
  choose_path p syn_sent seg_sz seq =
      if ltb 0 seg_sz then (do modify_out p (raise_cutoff seq); pure (some p)) else pick_ack_m p
  choose_path p syn_received seg_sz seq =
      if ltb 0 seg_sz then (do d ← load_out p; pure (pick_path_seq p d seq)) else pick_ack_m p
  choose_path p _ seg_sz seq = pure (some p)

  -- The packet translated by the block that was chosen.
  unfoldable pub rewrite_by : CbOut → Ctx → Option Ctx
  rewrite_by d c = and_then (out_rewrite_ack d (record c { skb = out_rewrite_seq d c.skb })) λ c1.
      and_then (if d.ts_ok then out_rewrite_ts d c1 else some c1)
        λ c2. some (if d.ws_ok then record c2 { skb = out_rewrite_rcv_wnd d c2.skb } else c2)

  unfoldable pub out_translate : ℕ → M (Unit {0})
  unfolding choose_path rewrite_by
  out_translate p = do
    s ← get_skb
    let seg_sz = segment_size s
    let seq = u32 (ntohl s.th.seq + seg_sz)
    d ← load_out p
    maybe d.other_path
        (do
          modify_out p (λ b. if ltb 0 seg_sz then raise_cutoff seq b else b)
          put_skb (out_hdr_rewrite_csum d s))
        λ _. do
          chosen ← choose_path p d.state seg_sz seq
          q ← deref chosen
          b ← load_out q
          on_ctx (rewrite_by b)
          t ← get_skb
          put_skb (out_hdr_rewrite_csum b t)
