-- ===== src/Journey/Sent.antt =====
-- kernel/common/dysco_output.c: `dysco_output` on a segment of a session without a second path.
use dysco.Base.{ℕ, ◌+◌, ◌≡◌, ap, ◌∙◌, not, ◌&&◌, Option, none, some, ltb, if◌then◌else◌, ntohl, u32}
use dysco.Types.{Skb, CbOut, Protocol, tcp, udp, other}
use dysco.Kernel.{Kernel}
use dysco.Heap.{
  World, M, pure, ◌>>=◌, ◌>>◌, maybe, lift, get_skb, put_skb, deref, lookup_pen, on_ctx, load_out,
  modify_out,
}
use dysco.Heap.Laws.{HasOut, load_out-HasOut, modify_out-HasOut, store_out}
use dysco.Rewrite.Output.{out_hdr_rewrite_csum}
use dysco.Output.Session.{session_of, lookup_pen_by_tag, update_five_tuple, out_handle_mb}
use dysco.Output.Path.{segment_size, raise_cutoff, choose_path, rewrite_by, out_translate}
use dysco.Output.Window.{fix_rcv_window}
use dysco.Output.Syn.{out_segment, out_tcp, out_syn, output}
use dysco.Journey.Bears.{IsSegment}

module _ ⦃k : Kernel⦄ (p : ℕ) (w : World) (d : CbOut) (at : HasOut w p d) where
  -- What a block without a second path leaves of the segment in hand.
  abbrev pub sent : World
  sent =
      let seg_sz = segment_size w.ctx.skb in
      let seq = u32 (ntohl w.ctx.skb.th.seq + seg_sz) in
      let v = store_out p (if ltb 0 seg_sz then raise_cutoff seq d else d) w in
      record v { ctx = record (v.ctx) { skb = out_hdr_rewrite_csum d w.ctx.skb } }

  out_translate-sent : d.other_path ≡ none → out_translate p w ≡ some (tt, sent)
  unfolding out_translate
  out_translate-sent path =
      ap (λ r. elim r [ none ↦ none | some (b, x) ↦ by b.other_path b x ])
        (load_out-HasOut w p d at)
      ∙ ap (λ o. by o d w) path
      ∙ ap (λ r. elim r [ none ↦ none | some (t, x) ↦ put_skb (out_hdr_rewrite_csum d s) x ])
          (modify_out-HasOut w p d at raise)
    where
      s : Skb
      s = w.ctx.skb

      raise : CbOut → CbOut
      raise b =
          if ltb 0 (segment_size s)
          then raise_cutoff (u32 (ntohl s.th.seq + segment_size s)) b
          else b

      by_chosen : Option ℕ → M (Unit {0})
      by_chosen chosen = do
        q ← deref chosen
        b ← load_out q
        on_ctx (rewrite_by b)
        t ← get_skb
        put_skb (out_hdr_rewrite_csum b t)

      by : Option ℕ → CbOut → M (Unit {0})
      by o b =
          maybe o (do modify_out p raise; put_skb (out_hdr_rewrite_csum b s))
            λ _. do
              chosen ←
                  choose_path p b.state (segment_size s) (u32 (ntohl s.th.seq + segment_size s))
              by_chosen chosen

  out_segment-sent : d.my_tp ≡ none → d.other_path ≡ none → out_segment p w ≡ some (1, sent)
  unfolding out_segment
  out_segment-sent tp path =
      ap (λ r. elim r [ none ↦ none | some (b, x) ↦ by b.my_tp b x ]) (load_out-HasOut w p d at)
      ∙ ap (λ o. by o d w) tp
      ∙ ap (λ r. elim r [ none ↦ none | some (t, x) ↦ some (1, x) ]) (out_translate-sent path)
    where
      by : Option ℕ → CbOut → M ℕ
      by o b = do
        maybe o (pure tt) λ my_tp.
            if w.ctx.skb.th.ack && not b.state_t
            then (do
              other_tp ← lift b.other_tp
              put_skb (fix_rcv_window (k.sockets my_tp) (k.sockets other_tp) w.ctx.skb))
            else pure tt
        out_translate p
        pure 1

module _ ⦃k : Kernel⦄ (control_output : M ℕ) (p : ℕ) (w : World) (d : CbOut)
    (at : HasOut w p d) where
  pub output-sent :
      IsSegment w.ctx.skb
      → k.sessions.lookup w.dh.hash_out (session_of w.ctx.skb) ≡ some p
      → d.my_tp ≡ none
      → d.other_path ≡ none
      → output control_output w ≡ some (1, sent p w d at)
  unfolding output out_tcp
  output-sent is found tp path =
      ap (λ b. (if not b then pure 1 else by_protocol s.ip.protocol) w) is.is_ip
      ∙ ap (λ x. by_protocol x w) is.protocol
      ∙ ap (λ o. by_block o w) found
      ∙ ap (λ b. (if b then out_syn (some p) else out_segment p) w) is.not_syn
      ∙ out_segment-sent p w d at tp path
    where
      s : Skb
      s = w.ctx.skb

      by_protocol : Protocol → M ℕ
      by_protocol x = elim x [ udp ↦ control_output | tcp ↦ out_tcp | other ↦ pure 1 ]

      by_block : Option ℕ → M ℕ
      by_block o =
          maybe o
            (do
              pending ← lookup_pen (session_of s)
              maybe pending
                  (do
                    tagged ← lookup_pen_by_tag s
                    maybe tagged (if s.th.syn then out_syn none else pure 1)
                        λ x. do update_five_tuple s x; out_handle_mb s x)
                  λ x. out_handle_mb s x)
            λ x. if s.th.syn then out_syn (some x) else out_segment x
