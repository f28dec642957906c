-- ===== src/Journey/Received.antt =====
-- kernel/common/dysco_input.c: `dysco_input` on a segment of a session without a reconfiguration.
use dysco.Base.{
  ℕ, ◌≡◌, ◌≢◌, refl, ap, ◌∙◌, Bool, true, false, not, Option, none, some, get_elem?, ltb,
  if◌then◌else◌, and_then,
}
use dysco.Types.{Skb, Ctx, CbIn, Protocol, tcp, udp, other}
use dysco.Kernel.{Kernel}
use dysco.Input.Paths.{in_two_paths_ack, in_two_paths_data_seg}
use dysco.Heap.{World, M, pure, ◌>>=◌, ◌>>◌, maybe, on_ctx, load_in}
use dysco.TcpOptions.{get_ts_option}
use dysco.Rewrite.Input.{
  in_rewrite_addresses, in_rewrite_ports, in_rewrite_seq, in_rewrite_ack, in_rewrite_tsval,
  in_rewrite_tsecr, in_rewrite_ts, in_rewrite_rcv_wnd, in_hdr_rewrite_csum,
}
use dysco.Output.Session.{session_of}
use dysco.Output.Path.{segment_size}
use dysco.Input.Handler.{
  RxResult, rx_pass, rewrite_in, rx_initiation_new, in_syn_ack, in_syn_again, in_segment, input_tcp,
  input,
}
use dysco.Journey.Bears.{IsSegment}

-- An input block that translates no number: that of a session without a reconfiguration.
pub record IsPlain (i : CbIn) : Type 0 where
  pub one_path : i.two_paths ≡ false
  pub seq : i.seq_delta ≡ 0
  pub ack : i.ack_delta ≡ 0
  pub ts : i.ts_delta ≡ 0
  pub tsr : i.tsr_delta ≡ 0
  pub ws : i.ws_delta ≡ 0

module _ ⦃k : Kernel⦄ (i : CbIn) (plain : IsPlain i) where
  in_rewrite_ts-IsPlain : (c : Ctx) → get_ts_option c.skb ≢ none → in_rewrite_ts i c ≡ some c
  unfolding in_rewrite_ts in_rewrite_tsval in_rewrite_tsecr
  in_rewrite_ts-IsPlain c readable = go (get_ts_option c.skb) refl
    where
      go : (o : Option (Option ℕ)) → get_ts_option c.skb ≡ o → in_rewrite_ts i c ≡ some c
      go none e = absurd (readable e)
      go (some none) e = rw e refl
      go (some (some ptr)) e = rw (e, plain.ts, plain.tsr) refl

  in_rewrite_seq-IsPlain : (s : Skb) → in_rewrite_seq i s ≡ s
  unfolding in_rewrite_seq
  in_rewrite_seq-IsPlain s = rw plain.seq refl

  in_rewrite_ack-IsPlain : (c : Ctx) → in_rewrite_ack i c ≡ some c
  unfolding in_rewrite_ack
  in_rewrite_ack-IsPlain c = rw plain.ack refl

  in_rewrite_rcv_wnd-IsPlain : (s : Skb) → in_rewrite_rcv_wnd i s ≡ s
  unfolding in_rewrite_rcv_wnd
  in_rewrite_rcv_wnd-IsPlain s = rw plain.ws refl

  -- What `dysco_in_hdr_rewrite_csum` does behind the addresses and ports.
  abbrev numbers : Ctx → Option Ctx
  numbers c = and_then (in_rewrite_ack i (record c { skb = in_rewrite_seq i c.skb })) λ c1.
      and_then (if i.ts_ok then in_rewrite_ts i c1 else some c1)
        λ c2. some (if i.ws_ok then record c2 { skb = in_rewrite_rcv_wnd i c2.skb } else c2)

  numbers-IsPlain : (c : Ctx) → get_ts_option c.skb ≢ none → numbers c ≡ some c
  numbers-IsPlain c readable =
      rw (in_rewrite_seq-IsPlain c.skb, in_rewrite_ack-IsPlain c) (go i.ts_ok i.ws_ok)
    where
      go :
          (ts ws : Bool)
          → and_then
              (if ts then in_rewrite_ts i c else some c)
              (λ c2. some (if ws then record c2 { skb = in_rewrite_rcv_wnd i c2.skb } else c2))
            ≡ some c
      go false false = refl
      go false true = rw (in_rewrite_rcv_wnd-IsPlain c.skb) refl
      go true false = rw (in_rewrite_ts-IsPlain c readable) refl
      go true true = rw (in_rewrite_ts-IsPlain c readable, in_rewrite_rcv_wnd-IsPlain c.skb) refl

  in_hdr_rewrite_csum-IsPlain :
      (c : Ctx)
      → let s = in_rewrite_ports i (in_rewrite_addresses i c.skb) in
        get_ts_option s ≢ none → in_hdr_rewrite_csum i c ≡ some (record c { skb = s })
  unfolding in_hdr_rewrite_csum
  in_hdr_rewrite_csum-IsPlain c readable = numbers-IsPlain _ readable

  module _ (s : Skb) (q : ℕ) (v : World) (at : get_elem? v.ins q ≡ some (some i)) where
    load_in-at : load_in q v ≡ some (i, v)
    unfolding load_in
    load_in-at = rw at refl

    -- The packet with the session of the block.
    abbrev received : Skb
    received = in_rewrite_ports i (in_rewrite_addresses i v.ctx.skb)

    abbrev after : World
    after = record v { ctx = record (v.ctx) { skb = received } }

    module _ (readable : get_ts_option received ≢ none) where
      rewrite_in-IsPlain : rewrite_in q v ≡ some (tt, after)
      unfolding rewrite_in
      rewrite_in-IsPlain =
          ap (λ r. elim r [ none ↦ none | some (d, x) ↦ on_ctx (in_hdr_rewrite_csum d) x ])
            load_in-at
          ∙ ap (λ o. and_then o λ c. some (tt, record v { ctx = c }))
              (in_hdr_rewrite_csum-IsPlain v.ctx readable)

      in_segment-IsPlain : in_segment s q v ≡ some (rx_pass, after)
      unfolding in_segment
      in_segment-IsPlain =
          ap (λ r. elim r [ none ↦ none | some (d, x) ↦ (do branch d.two_paths; pure rx_pass) x ])
            load_in-at
          ∙ ap (λ b. (do branch b; pure rx_pass) v) plain.one_path
          ∙ ap (λ r. elim r [ none ↦ none | some (t, x) ↦ some (rx_pass, x) ]) rewrite_in-IsPlain
        where
          branch : Bool → M (Unit {0})
          branch b =
              if b
              then (if ltb 0 (segment_size s)
                  then (do
                    known ← in_two_paths_data_seg s q
                    if known then rewrite_in q else pure tt)
                  else (do in_two_paths_ack s q; rewrite_in q))
              else rewrite_in q

-- The world of a host that a packet has reached.
abbrev pub reached : ⦃k : Kernel⦄ → Skb → World → World
reached s v = record v { ctx = record (v.ctx) { skb = s } }

module _ ⦃k : Kernel⦄ (control_input : M ℕ) (q : ℕ) (v : World) (i : CbIn) (plain : IsPlain i)
    (at : get_elem? v.ins q ≡ some (some i)) where
  pub input-received :
      IsSegment v.ctx.skb
      → k.sessions.lookup v.dh.hash_in (session_of v.ctx.skb) ≡ some q
      → let r = in_rewrite_ports i (in_rewrite_addresses i v.ctx.skb) in
        get_ts_option r ≢ none → input control_input v ≡ some (rx_pass, reached r v)
  unfolding input input_tcp
  input-received is found readable =
      ap (λ b. (if not b then pure rx_pass else by_protocol s.ip.protocol) v) is.is_ip
      ∙ ap (λ x. by_protocol x v) is.protocol
      ∙ ap
          (λ o.
            maybe o (if s.th.syn then rx_initiation_new s else pure rx_pass)
              (λ x.
                if s.th.syn
                then (if s.th.ack then in_syn_ack s x else in_syn_again s x)
                else in_segment s x)
              v)
          found
      ∙ ap
          (λ b.
            (if b then (if s.th.ack then in_syn_ack s q else in_syn_again s q) else in_segment s q)
              v)
          is.not_syn
      ∙ in_segment-IsPlain i plain s q v at readable
    where
      s : Skb
      s = v.ctx.skb

      by_protocol : Protocol → M RxResult
      by_protocol x = elim x [
        | udp ↦ do r ← control_input; pure rx_pass
        | tcp ↦ input_tcp
        | other ↦ pure rx_pass
      ]
