-- ===== src/Control/Retransmission/SynAck.antt =====
-- A `DYSCO_SYN_ACK` that comes after the `DYSCO_ACK` has left.
use dysco.Base.{
  ℕ, ◌≡◌, refl, ap, ◌∙◌, true, false, Option, none, some, inl, inr, Bool-cases, ntohl, ◌==◌,
}
use dysco.Types.{Skb, CbState, CbOut, CbReconfig, established, syn_sent}
use dysco.Kernel.{Kernel}
use dysco.Heap.{◌>>=◌, World, modify_out}
use dysco.Heap.Laws.{HasOut, HasRcb, modify_out-HasOut, store_out-same}
use dysco.Control.Settled.{Quiet}
use dysco.Control.Anchors.{is_state_transfer}
use dysco.Control.Switch.{next_state, control_output_ack-left}
use dysco.Control.Input.{learn_ack_cutoff, input_syn_ack}
use dysco.Control.Output.{control_output_ack}

module _ ⦃k : Kernel⦄ where
  module _ (s : Skb) (w : World) (p : ℕ) (left : (s.ip.daddr == s.cmsg.left_a) ≡ true)
      (known : k.sessions.lookup w.dh.hash_out s.cmsg.left_ss ≡ some p) where
    -- At the left anchor.
    input_syn_ack-store :
        (w1 : World)
        → modify_out p (learn_ack_cutoff (ntohl s.cmsg.seq_cutoff)) w ≡ some (tt, w1)
        → input_syn_ack s w ≡ some (none, w1)
    unfolding input_syn_ack
    input_syn_ack-store w1 e = rw (left, known, ◌>>=◌, e) refl

  input_syn_ack-elsewhere :
      (s : Skb) (w : World)
      → (s.ip.daddr == s.cmsg.left_a) ≡ false
      → input_syn_ack s w ≡ some (none, w)
  unfolding input_syn_ack
  input_syn_ack-elsewhere s w e = rw e refl

  input_syn_ack-established :
      (s : Skb) (w : World) (p : ℕ) (b : CbOut)
      → k.sessions.lookup w.dh.hash_out s.cmsg.left_ss ≡ some p
      → HasOut w p (record b { state = established })
      → Quiet (input_syn_ack s) w
  input_syn_ack-established s w p b known at = elim (Bool-cases (s.ip.daddr == s.cmsg.left_a)) [
    | inr elsewhere ↦ (none, input_syn_ack-elsewhere s w elsewhere)
    | inl left ↦
        let done : CbOut = record b { state = established } in
        (
          none,
          input_syn_ack-store s w p left known w (
              modify_out-HasOut w p done at (learn_ack_cutoff (ntohl s.cmsg.seq_cutoff))
              ∙ ap (λ x. some (tt, x)) (store_out-same w p done at)),
        )
  ]

  module _ (s : Skb) (r p : ℕ) (w : World) (c : CbReconfig) (b : CbOut) where
    -- The left anchor has sent its `DYSCO_SYN` and expects no state. When a `DYSCO_ACK` without a
    -- state transfer leaves, the handler lets it go and the old block is established, with nothing
    -- else in the block changed. A `DYSCO_SYN_ACK` for the block that comes next, whatever
    -- cutoff it brings, is handled without a fault and changes nothing.
    pub input_syn_ack-control_output_ack :
        HasRcb w r c
        → c.old_dcb ≡ some p
        → HasOut w p b
        → b.state ≡ syn_sent
        → b.state_t ≡ false
        → k.sessions.lookup w.dh.hash_reconfig w.ctx.skb.cmsg.super ≡ some r
        → is_state_transfer w.ctx.skb.cmsg ≡ false
        → (w.ctx.skb.ip.saddr == w.ctx.skb.cmsg.left_a) ≡ true
        → k.sessions.lookup w.dh.hash_out s.cmsg.left_ss ≡ some p
        → (u : World) × (control_output_ack w ≡ some (1, u))
          × HasOut u p (record b { state = established })
          × Quiet (input_syn_ack s) u
    input_syn_ack-control_output_ack at_rcb old at_old sent no_state known no_transfer left out =
        let (u, (leaves, at, at_rcb_u, same)) =
          control_output_ack-left r p w c b at_rcb old at_old known no_transfer left in
        let at_u : HasOut u p (record b { state = established }) =
          at
          ∙ ap (λ x. as_left (next_state x b.state)) no_state
          ∙ ap (λ x. as_left (next_state false x)) sent in
        (
          u,
          leaves,
          at_u,
          input_syn_ack-established s u p b
              (ap (λ h. k.sessions.lookup h.hash_out s.cmsg.left_ss) same ∙ out) at_u,
        )
      where
        as_left : CbState → Option (Option CbOut)
        as_left x = some (some (record b { state = x }))
