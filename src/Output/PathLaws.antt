-- ===== src/Output/PathLaws.antt =====
-- What the choice of a path guarantees during a reconfiguration.
use dysco.Base.{
  ℕ, ◌<◌, ◌≡◌, ◌≢◌, ◌∙◌, ap, inl, inr, ltb, lt→ltb, if◌then◌else◌, arith, true, false, none, some,
  ◌⊎◌, ntohl, swap32-swap32,
}
use dysco.Types.{Skb, CbOut, established, syn_received}
use dysco.Kernel.{Kernel, KernelLaws}
use dysco.Heap.{World, pure, ◌>>=◌, load_out}
use dysco.Heap.Laws.{HasOut, load_out-HasOut}
use dysco.Output.Path.{pick_path_seq, pick_path_ack, pick_ack_m, choose_path}

module _ ⦃k : Kernel⦄ (laws : KernelLaws k) where
  open laws use {before_lem, after_lem}

  -- Once the cutoff of the acks is known and no state is transferred, an ack number that is
  -- sent on the old path lies before the cutoff or is the cutoff.
  pub pick_path_ack-bounded :
      (p q : ℕ) (d : CbOut) (s : Skb)
      → d.state_t ≡ false
      → d.valid_ack_cut ≡ true
      → d.other_path ≡ some q
      → q ≢ p
      → d.ack_cutoff < 4294967296
      → (pick_path_ack p d s).path ≡ some p
      → let ack = ntohl (pick_path_ack p d s).pkt.th.ack_seq in
        (k.before ack d.ack_cutoff ≡ true) ⊎ (ack ≡ d.ack_cutoff)
  unfolding pick_path_ack
  pick_path_ack-bounded p q d s st v o ne lt e =
      ground (arith, after_lem d.ack_cutoff (ntohl s.th.ack_seq), swap32-swap32 d.ack_cutoff lt)

  pick_path_seq-last :
      (p : ℕ) (d : CbOut) → d.state_t ≡ false → pick_path_seq p d d.seq_cutoff ≡ d.other_path
  unfolding pick_path_seq
  pick_path_seq-last p d st = ground (arith, before_lem d.seq_cutoff d.seq_cutoff)

  divided :
      (p seg_sz : ℕ) (w : World) (d : CbOut)
      → HasOut w p d
      → d.state_t ≡ false
      → 0 < seg_sz
      → (if ltb 0 seg_sz
            then (do b ← load_out p; pure (pick_path_seq p b d.seq_cutoff))
            else pick_ack_m p)
          w
        ≡ some (d.other_path, w)
  divided p seg_sz w d at st size =
      ap
        (λ b.
          (if b then (do c ← load_out p; pure (pick_path_seq p c d.seq_cutoff)) else pick_ack_m p)
            w)
        (lt→ltb 0 seg_sz size)
      ∙ ap (λ r. elim r [ none ↦ none | some (c, v) ↦ some (pick_path_seq p c d.seq_cutoff, v) ])
          (load_out-HasOut w p d at)
      ∙ ap (λ o. some (o, w)) (pick_path_seq-last p d st)

  -- Without a state transfer, in the states in which data is divided between the two paths
  -- (`DYSCO_ESTABLISHED` and `DYSCO_SYN_RECEIVED`): a data segment that ends where the highest
  -- segment sent so far ends, such as its retransmission, is sent on the new path. Nothing is
  -- changed by the choice.
  pub choose_path-last :
      (p seg_sz : ℕ) (w : World) (d : CbOut)
      → HasOut w p d
      → d.state_t ≡ false
      → (d.state ≡ established) ⊎ (d.state ≡ syn_received)
      → 0 < seg_sz
      → choose_path p d.state seg_sz d.seq_cutoff w ≡ some (d.other_path, w)
  unfolding choose_path
  choose_path-last p seg_sz w d at st (inl e) size =
      ap (λ c. choose_path p c seg_sz d.seq_cutoff w) e ∙ divided p seg_sz w d at st size
  choose_path-last p seg_sz w d at st (inr e) size =
      ap (λ c. choose_path p c seg_sz d.seq_cutoff w) e ∙ divided p seg_sz w d at st size

module _ ⦃k : Kernel⦄ where
  -- Without a state transfer, once the cutoff of the acks is known, the old path not yet given up
  -- and no ack counted: the first two acks that are not FINs and lie at or past the cutoff are sent
  -- on the old path, and the next ack is sent on the new path, whatever it acknowledges.
  pub pick_path_ack-third :
      (p : ℕ) (d : CbOut) (s1 s2 s3 : Skb)
      → d.state_t ≡ false
      → d.valid_ack_cut ≡ true
      → d.use_np_ack ≡ false
      → d.ack_ctr ≡ 0
      → s1.th.fin ≡ false
      → s2.th.fin ≡ false
      → k.after d.ack_cutoff (ntohl s1.th.ack_seq) ≡ false
      → k.after d.ack_cutoff (ntohl s2.th.ack_seq) ≡ false
      → let d1 = (pick_path_ack p d s1).cb in
        let d2 = (pick_path_ack p d1 s2).cb in
        ((pick_path_ack p d s1).path ≡ some p)
        × ((pick_path_ack p d1 s2).path ≡ some p)
        × ((pick_path_ack p d2 s3).path ≡ d.other_path)
  unfolding pick_path_ack
  pick_path_ack-third p d s1 s2 s3 st v n c f1 f2 a1 a2 = ground arith
