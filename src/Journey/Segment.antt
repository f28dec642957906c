-- ===== src/Journey/Segment.antt =====
-- A segment of a session that has its blocks, from the stack of one host to the stack of the next:
-- `dysco_output` of kernel/common/dysco_output.c, then `dysco_input` of kernel/common/dysco_input.c.
use dysco.Base.{ℕ, ◌≡◌, ap, subst, ◌∙◌, none, some, get_elem?}
use dysco.Types.{Skb, CbOut, CbIn}
use dysco.Kernel.{Kernel, KernelLaws}
use dysco.Heap.{World, M}
use dysco.Heap.Laws.{HasOut}
use dysco.Rewrite.Output.{out_hdr_rewrite_csum}
use dysco.Rewrite.Input.{in_rewrite_addresses, in_rewrite_ports}
use dysco.Output.Session.{session_of}
use dysco.Output.Syn.{output}
use dysco.Input.Handler.{rx_pass, input}
use dysco.Journey.Bears.{
  IsSegment, Bears, Bears-session, Bears-trans, Bears-readable, Bears-IsSegment,
  out_hdr_rewrite_csum-Bears, in_rewrite_ports-Bears,
}
use dysco.Journey.Sent.{sent, output-sent}
use dysco.Journey.Received.{IsPlain, reached, input-received}

-- What a stack sees of a packet that another stack has sent: the same headers and the same bytes,
-- checksums aside.
pub record Arrives (s r : Skb) : Type 0 where
  pub th : record (r.th) { check = 0 } ≡ record (s.th) { check = 0 }
  pub ip : record (r.ip) { check = 0 } ≡ record (s.ip) { check = 0 }
  pub body : r.body ≡ s.body

module _ (k k' : Kernel) (laws : KernelLaws k) (laws' : KernelLaws k')
    (control_output : M ⦃k = k⦄ ℕ) (control_input : M ⦃k = k'⦄ ℕ) where
  -- A host sends a TCP segment that is no SYN, whose options can be read within the packet, and
  -- whose session finds a block `d` without a second path and without a socket of a splice. `dysco_output` lets it go, with the addresses and ports of the subsession of `d`.
  -- At a host whose input block `i` of that subsession has the same session, one path
  -- and no number to translate, `dysco_input` passes it on: the stack there gets what the stack here has sent, the same
  -- headers and bytes, checksums aside.
  pub input-output :
      (w : World ⦃k = k⦄) (v : World ⦃k = k'⦄) (p q : ℕ) (d : CbOut) (i : CbIn)
      → IsSegment w.ctx.skb
      → k.sessions.lookup w.dh.hash_out (session_of w.ctx.skb) ≡ some p
      → HasOut ⦃k = k⦄ w p d
      → d.my_tp ≡ none
      → d.other_path ≡ none
      → k'.sessions.lookup v.dh.hash_in d.sub ≡ some q
      → get_elem? v.ins q ≡ some (some i)
      → IsPlain i
      → i.super ≡ session_of w.ctx.skb
      → (u : World ⦃k = k⦄) × (u' : World ⦃k = k'⦄) × (output ⦃k = k⦄ control_output w
          ≡ some (1, u))
        × (session_of u.ctx.skb ≡ d.sub)
        × (input ⦃k = k'⦄ control_input (reached ⦃k = k'⦄ u.ctx.skb v) ≡ some (rx_pass, u'))
        × Arrives w.ctx.skb u'.ctx.skb
  input-output w v p q d i is found at tp path found' at' plain same =
      let s = w.ctx.skb in
      let t = out_hdr_rewrite_csum ⦃k = k⦄ d s in
      let r = in_rewrite_ports ⦃k = k'⦄ i (in_rewrite_addresses ⦃k = k'⦄ i t) in
      let a = out_hdr_rewrite_csum-Bears ⦃k = k⦄ laws d s in
      let b = in_rewrite_ports-Bears ⦃k = k'⦄ laws' i t in
      let c = subst (λ ss. Bears ss s r) same (Bears-trans d.sub i.super s t r a b) in
      (
        sent ⦃k = k⦄ p w d at,
        reached ⦃k = k'⦄ r v,
        output-sent ⦃k = k⦄ control_output p w d at is found tp path,
        Bears-session d.sub s t a,
        input-received ⦃k = k'⦄ control_input q (reached ⦃k = k'⦄ t v) i plain at'
            (Bears-IsSegment d.sub s t a is)
            (ap (k'.sessions.lookup v.dh.hash_in) (Bears-session d.sub s t a) ∙ found')
            (Bears-readable i.super t r b (Bears-readable d.sub s t a is.readable)),
        record { th = c.th; ip = c.ip; body = c.body },
      )
