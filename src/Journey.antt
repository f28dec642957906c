-- ===== src/Journey.antt =====
-- The SYN of a session from the host that adds the service chain to the next host:
-- `dysco_out_syn` of kernel/common/dysco_output.c there, `dysco_rx_initiation_new` of
-- kernel/common/dysco_input.c here. The two hosts may have different kernels.
pub mod Bears
mod Sent
pub mod Received
pub mod Segment
use dysco.Base.{
  ℕ, zero, suc, ◌+◌, ◌-◌, ◌%◌, ◌≡◌, refl, sym, ap, subst, ◌∙◌, arith, false, Option, none, some,
  List, ◌∷◌, length, drop, and_then, if◌then◌else◌, inl, inr, ◌==◌,
}
use dysco.Types.{Skb, CbOut, TcpSession, ServiceChain, rev_session}
use dysco.Kernel.{Kernel, KernelLaws}
use dysco.Heap.{World, M, pure, ◌>>=◌, ◌>>◌, maybe, load_out, lift, put_skb}
use dysco.Heap.Laws.{
  HasOut, HasOut-cases, modify_out-fault, modify_out-HasOut, load_out-HasOut, HasOut-store_out,
  store_out,
}
use dysco.Heap.Refused.{refuses}
use dysco.TcpOptions.Step.{load32, options_length}
use dysco.Chain.{read_hops, payload_ptr, add_sc}
use dysco.Chain.RoundTrip.{IsSessionWords, IsChain, AllWords}
use dysco.Chain.Carry.{add_sc-read}
use dysco.Rewrite.Output.{out_hdr_rewrite, fix_tcp_ip_csum}
use dysco.Output.Session.{session_of, arp}
use dysco.Output.Syn.{out_tx_init, out_syn_first}
use dysco.Input.Blocks.{SynView, insert_cb_input}
use dysco.Input.Handler.{read_syn_view}
use dysco.Input.Refused.{demands}
use dysco.Input.Linked.{Linked, insert_cb_input-Linked}

-- The view of the SYN of a session and its chain.
abbrev pub view_of : CbOut → ServiceChain → Skb → SynView
view_of d sc t = record { ss = d.super; sc_len = sc.len; ptr = payload_ptr t }

-- What a SYN carries for the block that it was sent by.
record Carries (d : CbOut) (sc : ServiceChain) (t : Skb) : Type 0 where
  sub : session_of t ≡ d.sub
  view : read_syn_view t ≡ some (view_of d sc t)
  hops : read_hops (sc.len - 1) t.body (payload_ptr t + 16 + 4) ≡ some (drop 1 sc.hops)

read_hops-rest :
    (n : ℕ) (body hs : List ℕ) (ptr : ℕ)
    → read_hops n body ptr ≡ some hs
    → read_hops (n - 1) body (ptr + 4) ≡ some (drop 1 hs)
unfolding read_hops
read_hops-rest zero body hs ptr e = ap (λ o. and_then o λ xs. some (drop 1 xs)) e
read_hops-rest (suc n) body hs ptr e =
    let m : suc n - 1 ≡ n = omega arith in
    rw m (go (load32 body ptr) (read_hops n body (ptr + 4)) e)
  where
    go :
        (o : Option ℕ) (q : Option (List ℕ))
        → and_then o (λ h. and_then q λ xs. some (h ∷ xs)) ≡ some hs
        → q ≡ some (drop 1 hs)
    go none q f = absurd cc
    go (some h) none f = absurd cc
    go (some h) (some xs) f = ap (λ o'. and_then o' λ ys. some (drop 1 ys)) f

module _ ⦃k : Kernel⦄ where
  -- A packet that was sent as the SYN of the block `d`.
  abbrev IsSentBy : CbOut → ServiceChain → Skb → Skb → Type 0
  IsSentBy d sc s t = (d.sc ≡ some sc) × (out_tx_init d sc (out_hdr_rewrite d s) ≡ some t)

  Sent : Skb → ℕ → Option (ℕ × World) → Type 0
  Sent s p none = Unit {0}
  Sent s p (some (n, u)) =
      n ≡ 1 → (d : CbOut) × (sc : ServiceChain) × HasOut u p d × IsSentBy d sc s u.ctx.skb

  out_syn_first-Sent : (s : Skb) (p : ℕ) (w : World) → Sent s p (out_syn_first s p w)
  unfolding out_syn_first Sent
  out_syn_first-Sent s p w = elim (HasOut-cases w p) [
    | inl e ↦
        subst (λ r. Sent s p (elim r [ none ↦ none | some (a, v) ↦ rest v ]))
          (sym (modify_out-fault w p turn e)) tt
    | inr (b, h) ↦
        subst (λ r. Sent s p (elim r [ none ↦ none | some (a, v) ↦ rest v ]))
          (sym (modify_out-HasOut w p b h turn))
          (subst (λ r. Sent s p (elim r [ none ↦ none | some (d, v) ↦ send d v ]))
            (sym (
              load_out-HasOut (store_out p (turn b) w) p (turn b)
                (HasOut-store_out w p b h (turn b))))
            (sent (turn b) (store_out p (turn b) w) (HasOut-store_out w p b h (turn b))))
  ]
    where
      turn : CbOut → CbOut
      turn d = if d.nh_mac % 4294967296 == 0 then arp s d else d

      sent_by : CbOut → ServiceChain → Option Skb → M ℕ
      sent_by d sc o = maybe o (do put_skb (out_hdr_rewrite d s); pure 0) λ t. do put_skb t; pure 1

      send : CbOut → M ℕ
      send d = do sc ← lift d.sc; sent_by d sc (out_tx_init d sc (out_hdr_rewrite d s))

      rest : M ℕ
      rest = do d ← load_out p; send d

      with_packet :
          (d : CbOut) (v : World) (sc : ServiceChain)
          → HasOut v p d
          → d.sc ≡ some sc
          → (o : Option Skb) → out_tx_init d sc (out_hdr_rewrite d s) ≡ o
          → Sent s p (sent_by d sc o v)
      with_packet d v sc h c none f = λ e. absurd (omega (arith, e))
      with_packet d v sc h c (some t) f = λ e. (d, sc, h, (c, f))

      with_chain :
          (d : CbOut) (v : World)
          → HasOut v p d
          → (o : Option ServiceChain) → d.sc ≡ o
          → Sent s p ((lift o >>= λ sc. sent_by d sc (out_tx_init d sc (out_hdr_rewrite d s))) v)
      with_chain d v h none c = tt
      with_chain d v h (some sc) c = with_packet d v sc h c _ refl

      sent : (d : CbOut) (v : World) → HasOut v p d → Sent s p (send d v)
      sent d v h = with_chain d v h d.sc refl

  -- The packet in which only checksums change.
  record SameSyn (s t : Skb) : Type 0 where
    session : session_of t ≡ session_of s
    body : t.body ≡ s.body
    doff : t.th.doff ≡ s.th.doff

  fix_tcp_ip_csum-SameSyn : (s : Skb) → SameSyn s (fix_tcp_ip_csum s)
  unfolding fix_tcp_ip_csum
  fix_tcp_ip_csum-SameSyn s = ground arith

  session_of-add_sc :
      (super : TcpSession) (sc : ServiceChain) (s t : Skb)
      → add_sc super sc s ≡ some t
      → session_of t ≡ session_of s
  unfolding add_sc
  session_of-add_sc super sc s t e = ground arith

  session_of-out_hdr_rewrite : (d : CbOut) (s : Skb) → session_of (out_hdr_rewrite d s) ≡ d.sub
  unfolding out_hdr_rewrite
  session_of-out_hdr_rewrite d s = refl

  some-inj : {x y : Skb} → some x ≡ some y → x ≡ y
  some-inj {x} e = ap (λ o. elim o [ none ↦ x | some z ↦ z ]) e

  module _ (d : CbOut) (sc : ServiceChain) (s : Skb) (bare : length s.body ≡ options_length s)
      (words : IsSessionWords d.super) (chain : IsChain sc) where
    fixed-Carries :
        (t : Skb)
        → add_sc d.super sc (out_hdr_rewrite d s) ≡ some t
        → AllWords (fix_tcp_ip_csum t).body sc.hops
        → Carries d sc (fix_tcp_ip_csum t)
    unfolding out_hdr_rewrite read_syn_view
    fixed-Carries t f hw =
        let h = fix_tcp_ip_csum-SameSyn t in
        let r =
          add_sc-read d.super sc (out_hdr_rewrite d s) t f bare words chain
            (subst (λ b. AllWords b sc.hops) h.body hw) in
        record {
          sub =
              h.session
              ∙ session_of-add_sc d.super sc (out_hdr_rewrite d s) t f
              ∙ session_of-out_hdr_rewrite d s;
          view = rw (h.body, h.doff, r.0, r.1) refl;
          hops =
              rw (h.body, h.doff) (read_hops-rest sc.len t.body sc.hops (payload_ptr t + 16) r.2);
        }

    sent-Carries :
        (t : Skb)
        → out_tx_init d sc (out_hdr_rewrite d s) ≡ some t
        → AllWords t.body sc.hops
        → Carries d sc t
    unfolding out_tx_init
    sent-Carries t e hw = go (add_sc d.super sc (out_hdr_rewrite d s)) refl e
      where
        go :
            (o : Option Skb)
            → add_sc d.super sc (out_hdr_rewrite d s) ≡ o
            → and_then o (λ x. some (fix_tcp_ip_csum x)) ≡ some t
            → Carries d sc t
        go none f g = absurd cc
        go (some x) f g =
            subst (Carries d sc) (some-inj g)
              (fixed-Carries x f (subst (λ y. AllWords y.body sc.hops) (sym (some-inj g)) hw))

block-inj : {x y : CbOut} → some (some x) ≡ some (some y) → x ≡ y
block-inj {x} e = ap (λ o. elim o [ none ↦ x | some n ↦ elim n [ none ↦ x | some z ↦ z ] ]) e

chain-inj : {x y : ServiceChain} → some x ≡ some y → x ≡ y
chain-inj {x} e = ap (λ o. elim o [ none ↦ x | some z ↦ z ]) e

module _ (k : Kernel) (s : Skb) (p : ℕ) (w u : World ⦃k = k⦄) (d : CbOut) (sc : ServiceChain) where
  out_syn_first-Carries :
      out_syn_first ⦃k = k⦄ s p w ≡ some (1, u)
      → HasOut ⦃k = k⦄ u p d
      → d.sc ≡ some sc
      → length s.body ≡ options_length s
      → IsSessionWords d.super
      → IsChain sc
      → AllWords u.ctx.skb.body sc.hops
      → Carries d sc u.ctx.skb
  unfolding Sent
  out_syn_first-Carries e h c bare words chain hw =
      let (d', sc', h', (c', f)) =
        subst (Sent ⦃k = k⦄ s p) e (out_syn_first-Sent ⦃k = k⦄ s p w) refl in
      let same_d : d' ≡ d = block-inj (sym h' ∙ h) in
      let same_sc : sc' ≡ sc = chain-inj (sym c' ∙ ap (λ b. b.sc) same_d ∙ c) in
      sent-Carries ⦃k = k⦄ d sc s bare words chain u.ctx.skb
        (subst (λ b. out_tx_init ⦃k = k⦄ b sc (out_hdr_rewrite ⦃k = k⦄ b s) ≡ some u.ctx.skb) same_d
          (subst (λ x. out_tx_init ⦃k = k⦄ d' x (out_hdr_rewrite ⦃k = k⦄ d' s) ≡ some u.ctx.skb)
            same_sc f))
        hw

  -- `dysco_out_syn` has sent a SYN without data for the block `d` with the chain `sc`, whose fields
  -- fit their words. The next host reads from the packet the session of `d` and the length of its
  -- chain, and the packet's addresses are the subsession of `d`. Where memory is granted there and
  -- neither session is known, `dysco_insert_cb_input` returns a block of that session and that
  -- subsession, and the block for the way back, both found by the tables and connected.
  pub insert_cb_input-out_syn_first :
      (k' : Kernel) (laws : KernelLaws k') (v : World ⦃k = k'⦄)
      → out_syn_first ⦃k = k⦄ s p w ≡ some (1, u)
      → HasOut ⦃k = k⦄ u p d
      → d.sc ≡ some sc
      → length s.body ≡ options_length s
      → IsSessionWords d.super
      → IsChain sc
      → AllWords u.ctx.skb.body sc.hops
      → refuses (demands ⦃k = k'⦄ (view_of d sc u.ctx.skb)) v.grants ≡ false
      → k'.sessions.lookup v.dh.hash_in d.sub ≡ none
      → k'.sessions.lookup v.dh.hash_out (rev_session d.super) ≡ none
      → (read_syn_view u.ctx.skb ≡ some (view_of d sc u.ctx.skb))
        × (session_of u.ctx.skb ≡ d.sub)
        × ((u' : World ⦃k = k'⦄) × (insert_cb_input ⦃k = k'⦄ u.ctx.skb (view_of d sc u.ctx.skb) v
              ≡ some (some (length v.ins), u'))
            × Linked ⦃k = k'⦄ u.ctx.skb (view_of d sc u.ctx.skb) u' (length v.ins) (length v.outs))
  insert_cb_input-out_syn_first k' laws v e h c bare words chain hw room fresh_in fresh_out =
      let y = out_syn_first-Carries e h c bare words chain hw in
      (
        y.view,
        y.sub,
        insert_cb_input-Linked ⦃k = k'⦄ laws u.ctx.skb (view_of d sc u.ctx.skb) v (drop 1 sc.hops)
            room y.hops (ap (k'.sessions.lookup v.dh.hash_in) y.sub ∙ fresh_in) fresh_out,
      )
