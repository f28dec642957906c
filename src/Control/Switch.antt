-- ===== src/Control/Switch.antt =====
-- The switch of the left anchor to the new path: `dysco_replace_cb_leftA` of
-- kernel/common/dysco_control_output.c and its two callers.
use dysco.Base.{
  ℕ, ◌≡◌, refl, ap, sym, ◌∙◌, Bool, true, false, not, ◌||◌, Option, none, some, htonl, ◌==◌,
  if◌then◌else◌, set, and_then, inl, inr, Bool-cases,
}
use dysco.Types.{Skb, Ctx, CbState, CbOut, CbReconfig, established, syn_sent, is_syn_sent}
use dysco.Kernel.{Kernel}
use dysco.Heap.{
  M, pure, ◌>>=◌, ◌>>◌, maybe, get, modify_skb, deref, World, load_out, modify_out, load_rcb,
  modify_rcb,
}
use dysco.Heap.Laws.{
  HasOut, HasRcb, store_out, load_out-HasOut, modify_out-HasOut, HasOut-store_out, load_rcb-HasRcb,
  get_elem?-set_at,
}
use dysco.Control.Anchors.{set_cutoff, fix_udp_checksum, is_state_transfer, replace_cb_left_a}
use dysco.Control.Input.{input_state_transferred}
use dysco.Control.Output.{control_output_ack}

-- A block that waits for the answer to its `DYSCO_SYN` goes over to the new path, unless it still
-- has to be told that the state has arrived.
abbrev pub next_state : (waits_for_state : Bool) → CbState → CbState
next_state false syn_sent = established
next_state _ s = s

-- The time at which the reconfiguration has ended, which is taken once.
abbrev pub stop_clock : ℕ → CbReconfig → CbReconfig
stop_clock now c = if c.rec_done then c else record c { rec_end = now; rec_done = true }

finish : CbOut → CbOut
finish d = if is_syn_sent d.state then record d { state = established } else d

finish_lem : (b : CbOut) → finish b ≡ record b { state = next_state false b.state }
unfolding finish
finish_lem b = by_state b.state
  where
    by_state :
        (s : CbState)
        → (if is_syn_sent s then record b { state = established } else record b { state = s })
          ≡ record b { state = next_state false s }
    by_state syn_sent = refl
    by_state _ = refl

module _ ⦃k : Kernel⦄ where
  module _ (r p : ℕ) (w : World) (c : CbReconfig) (b : CbOut) (at_rcb : HasRcb w r c)
      (old : c.old_dcb ≡ some p) (at_old : HasOut w p b) where
    abbrev finished : CbOut
    finished = record b { state = next_state false b.state }

    -- What `dysco_replace_cb_leftA` leaves.
    abbrev pub acked : World
    acked =
        let s = fix_udp_checksum (set_cutoff (htonl b.seq_cutoff) w.ctx.skb) in
        record (store_out p finished w) {
          ctx = record (w.ctx) { skb = s };
          rcbs = set w.rcbs r (some (stop_clock w.now c));
        }

    pub replace_cb_left_a-acked : replace_cb_left_a r w ≡ some (tt, acked)
    unfolding replace_cb_left_a modify_rcb deref finish
    replace_cb_left_a-acked =
        ap (λ x. elim x [ none ↦ none | some (d, v) ↦ of_rcb d.old_dcb v ])
          (load_rcb-HasRcb w r c at_rcb)
        ∙ ap (λ o. of_rcb o w) old
        ∙ ap (λ x. elim x [ none ↦ none | some (a, v) ↦ behind v ])
            (modify_out-HasOut w p b at_old finish)
        ∙ ap (λ d. behind (store_out p d w)) (finish_lem b)
        ∙ ap (λ x. elim x [ none ↦ none | some (d, v) ↦ with_block d v ])
            (load_out-HasOut (store_out p finished w) p finished
              (HasOut-store_out w p b at_old finished))
        ∙ ap
            (λ o. and_then o λ x.
              and_then x
                λ d. some (tt, record acked { rcbs = set w.rcbs r (some (stop_clock w.now d)) }))
            at_rcb
      where
        with_block : CbOut → M (Unit {0})
        with_block o = do
          modify_skb (λ t. fix_udp_checksum (set_cutoff (htonl o.seq_cutoff) t))
          v ← get
          modify_rcb r (stop_clock v.now)

        behind : M (Unit {0})
        behind = do o ← load_out p; with_block o

        of_rcb : Option ℕ → M (Unit {0})
        of_rcb o = do q ← deref o; modify_out q finish; x ← load_out q; with_block x

    pub input_state_transferred-left :
        (s : Skb)
        → k.sessions.lookup w.dh.hash_reconfig s.cmsg.super ≡ some r
        → (s.ip.daddr == s.cmsg.left_a) ≡ true
        → input_state_transferred s w ≡ some (none, acked)
    unfolding input_state_transferred
    input_state_transferred-left s known left =
        rw (known, left, ◌>>=◌, replace_cb_left_a-acked) refl

stop_clock-old_dcb : (now : ℕ) (c : CbReconfig) → (stop_clock now c).old_dcb ≡ c.old_dcb
stop_clock-old_dcb now c = by_flag c.rec_done
  where
    by_flag :
        (done : Bool)
        → (if done then c else record c { rec_end = now; rec_done = true }).old_dcb ≡ c.old_dcb
    by_flag true = refl
    by_flag false = refl

next_state-next_state :
    (waits : Bool) (s : CbState) → next_state false (next_state waits s) ≡ next_state false s
next_state-next_state true s = refl
next_state-next_state false syn_sent = refl
next_state-next_state false _ = refl

module _ ⦃k : Kernel⦄ where
  module _ (r p : ℕ) (w : World) (c : CbReconfig) (b : CbOut) (at_rcb : HasRcb w r c)
      (old : c.old_dcb ≡ some p) (at_old : HasOut w p b) where
    -- `control_output_ack` at the left anchor.
    abbrev pub Leaves : World → Type 0
    Leaves u =
        (control_output_ack w ≡ some (1, u))
        × HasOut u p (record b { state = next_state b.state_t b.state })
        × HasRcb u r (if b.state_t then c else stop_clock w.now c)
        × (u.dh ≡ w.dh)

    pub control_output_ack-left :
        k.sessions.lookup w.dh.hash_reconfig w.ctx.skb.cmsg.super ≡ some r
        → is_state_transfer w.ctx.skb.cmsg ≡ false
        → (w.ctx.skb.ip.saddr == w.ctx.skb.cmsg.left_a) ≡ true
        → (u : World) × Leaves u
    unfolding control_output_ack deref
    control_output_ack-left known no_transfer left = elim (Bool-cases b.state_t) [
      | inl waits ↦ (
        w,
        (
          loaded ∙ ap (λ x. with_block r x w) waits,
          at_old ∙ ap left_block (sym waits),
          at_rcb ∙ ap left_rcb (sym waits),
          refl,
        ),
      )
      | inr now ↦ (
        acked r p w c b at_rcb old at_old,
        (
          loaded
              ∙ ap (λ x. with_block r x w) now
              ∙ ap (λ x. elim x [ none ↦ none | some (a, v) ↦ some (1, v) ])
                  (replace_cb_left_a-acked r p w c b at_rcb old at_old),
          HasOut-store_out w p b at_old (record b { state = next_state false b.state })
              ∙ ap left_block (sym now),
          get_elem?-set_at w.rcbs r (some c) (some (stop_clock w.now c)) at_rcb
              ∙ ap left_rcb (sym now),
          refl,
        ),
      )
    ]
      where
        is_left : Bool
        is_left = w.ctx.skb.ip.saddr == w.ctx.skb.cmsg.left_a

        with_block : ℕ → Bool → M ℕ
        with_block q waits = do if waits then pure tt else replace_cb_left_a q; pure 1

        of_rcb : ℕ → Option ℕ → M ℕ
        of_rcb q o = do x ← deref o; d ← load_out x; with_block q d.state_t

        act : ℕ → M ℕ
        act q = do d ← load_rcb q; of_rcb q d.old_dcb

        known_rcb : ℕ → M ℕ
        known_rcb q = if is_state_transfer w.ctx.skb.cmsg || not is_left then pure 1 else act q

        left_block : Bool → Option (Option CbOut)
        left_block waits = some (some (record b { state = next_state waits b.state }))

        left_rcb : Bool → Option (Option CbReconfig)
        left_rcb waits = some (some (if waits then c else stop_clock w.now c))

        loaded : control_output_ack w ≡ with_block r b.state_t w
        loaded =
            ap (λ o. maybe o (pure 1) known_rcb w) known
            ∙ ap (λ x. (if x || not is_left then pure 1 else act r) w) no_transfer
            ∙ ap (λ x. (if not x then pure 1 else act r) w) left
            ∙ ap (λ x. elim x [ none ↦ none | some (d, v) ↦ of_rcb r d.old_dcb v ])
                (load_rcb-HasRcb w r c at_rcb)
            ∙ ap (λ o. of_rcb r o w) old
            ∙ ap (λ x. elim x [ none ↦ none | some (d, v) ↦ with_block r d.state_t v ])
                (load_out-HasOut w p b at_old)

    -- The left anchor has a reconfiguration under way. When a `DYSCO_ACK` without a state transfer
    -- leaves, the handler lets it go, and the old block is established if it was in the state of a
    -- sent `DYSCO_SYN` and expects no state; otherwise it stays as it is. Whatever message arrives
    -- next, if it says that the state of this session has been transferred and is for this host,
    -- the handler ends without a fault, and then the old block is established if it was in the
    -- state of a sent `DYSCO_SYN`, whether it expected a state or not. Nothing else in the block is
    -- changed.
    pub input_state_transferred-control_output_ack :
        k.sessions.lookup w.dh.hash_reconfig w.ctx.skb.cmsg.super ≡ some r
        → is_state_transfer w.ctx.skb.cmsg ≡ false
        → (w.ctx.skb.ip.saddr == w.ctx.skb.cmsg.left_a) ≡ true
        → (x : Ctx) → k.sessions.lookup w.dh.hash_reconfig x.skb.cmsg.super ≡ some r
        → (x.skb.ip.daddr == x.skb.cmsg.left_a) ≡ true
        → (u : World) × (v : World) × (control_output_ack w ≡ some (1, u))
          × HasOut u p (record b { state = next_state b.state_t b.state })
          × (input_state_transferred x.skb (record u { ctx = x }) ≡ some (none, v))
          × HasOut v p (record b { state = next_state false b.state })
    input_state_transferred-control_output_ack known no_transfer left x known' to_left =
        let (u, (leaves, at_u, at_rcb_u, same)) = control_output_ack-left known no_transfer left in
        let u' : World = record u { ctx = x } in
        let c' : CbReconfig = if b.state_t then c else stop_clock w.now c in
        let b' : CbOut = record b { state = next_state b.state_t b.state } in
        let old' : c'.old_dcb ≡ some p = by_flag b.state_t ∙ old in
        (
          u,
          acked r p u' c' b' at_rcb_u old' at_u,
          leaves,
          at_u,
          input_state_transferred-left r p u' c' b' at_rcb_u old' at_u x.skb
              (ap (λ h. k.sessions.lookup h.hash_reconfig x.skb.cmsg.super) same ∙ known') to_left,
          HasOut-store_out u' p b' at_u (record b' { state = next_state false b'.state })
              ∙ ap (λ s. some (some (record b { state = s })))
                  (next_state-next_state b.state_t b.state),
        )
      where
        by_flag : (waits : Bool) → (if waits then c else stop_clock w.now c).old_dcb ≡ c.old_dcb
        by_flag true = refl
        by_flag false = stop_clock-old_dcb w.now c
