-- ===== src/Rewrite/Input.antt =====
-- kernel/common/dysco_input.c: a packet from the network is rewritten from its subsession to
-- its session.
use dysco.Base.{
  ℕ, ◌+◌, ◌*◌, ◌/◌, ◌^◌, true, false, Option, none, some, ◌==◌, if◌then◌else◌, and_then, htonl,
  ntohl, htons, ntohs, u16, u32, ◌-◌,
}
use dysco.Types.{Skb, Ctx, CbIn, checksum_unnecessary, checksum_partial}
use dysco.Kernel.{Kernel}
use dysco.Csum.{inet_proto_csum_replace4, csum_replace4, add_carry}
use dysco.TcpOptions.{get_ts_option}
use dysco.TcpOptions.Step.{load32}
use dysco.Rewrite.Fields.{
  shift, store32, set_seq, set_ack_seq, set_window, set_source, set_dest, set_body, set_check,
}
use dysco.Rewrite.Sack.{tcp_sack}

module _ ⦃k : Kernel⦄ where
  unfoldable pub in_rewrite_seq : CbIn → Skb → Skb
  in_rewrite_seq d s =
      let new_seq = htonl (shift d.seq_add (ntohl s.th.seq) d.seq_delta) in
      if d.seq_delta == 0
      then s
      else set_seq new_seq (inet_proto_csum_replace4 s s.th.seq new_seq false)

  unfoldable pub in_rewrite_ack : CbIn → Ctx → Option Ctx
  in_rewrite_ack d c =
      let new_ack = htonl (shift d.ack_add (ntohl c.skb.th.ack_seq) d.ack_delta) in
      if d.ack_delta == 0
      then some c
      else and_then (if d.sack_ok then tcp_sack d.ack_delta d.ack_add c else some c) λ c'.
        let s = inet_proto_csum_replace4 c'.skb c'.skb.th.ack_seq new_ack false in
        some (record c' { skb = set_ack_seq new_ack s })

  -- The timestamp at the offset `ptr` of the options.
  unfoldable pub in_rewrite_tsval : CbIn → ℕ → Ctx → Option Ctx
  unfolding load32 store32
  in_rewrite_tsval d ptr c =
      if d.ts_delta == 0
      then some c
      else and_then (load32 c.skb.body ptr) λ ts.
        let new_ts = htonl (shift d.ts_add (ntohl ts) d.ts_delta) in
        let s = inet_proto_csum_replace4 c.skb ts new_ts false in
        some (record c {
          skb = set_body (store32 ptr new_ts s.body) s;
          tcp_ts_rewrites = c.tcp_ts_rewrites + 1;
        })

  -- The echoed timestamp, four bytes behind it.
  unfoldable pub in_rewrite_tsecr : CbIn → ℕ → Ctx → Option Ctx
  unfolding load32 store32
  in_rewrite_tsecr d ptr c =
      if d.tsr_delta == 0
      then some c
      else and_then (load32 c.skb.body (ptr + 4)) λ tsr.
        let new_tsr = htonl (shift d.tsr_add (ntohl tsr) d.tsr_delta) in
        let s = inet_proto_csum_replace4 c.skb tsr new_tsr false in
        some (record c {
          skb = set_body (store32 (ptr + 4) new_tsr s.body) s;
          tcp_tsr_rewrites = c.tcp_tsr_rewrites + 1;
        })

  unfoldable pub in_rewrite_ts : CbIn → Ctx → Option Ctx
  unfolding in_rewrite_tsval in_rewrite_tsecr
  in_rewrite_ts d c = and_then (get_ts_option c.skb) λ o. elim o [
    | none ↦ some c
    | some ptr ↦ and_then (in_rewrite_tsval d ptr c) (in_rewrite_tsecr d ptr)
  ]

  unfoldable pub in_rewrite_rcv_wnd : CbIn → Skb → Skb
  in_rewrite_rcv_wnd d s =
      let wnd = u32 (ntohs s.th.window * 2 ^ d.ws_in) / 2 ^ d.ws_out in
      let new_win = htons (u16 wnd) in
      if d.ws_delta == 0
      then s
      else set_window new_win (k.inet_csum_replace2 s s.th.window new_win false)

  -- The IP addresses with both checksums, by one 32-bit sum for the old pair and one for the new.
  -- The carry of the new sum is taken from a comparison with the subsession's address.
  unfoldable pub in_rewrite_addresses : CbIn → Skb → Skb
  in_rewrite_addresses d s =
      let from = add_carry s.ip.saddr s.ip.daddr s.ip.daddr in
      let to = add_carry d.super.sip d.super.dip d.sub.dip in
      let s1 = record s {
        ip = record (s.ip) {
          check = csum_replace4 s.ip.check from to;
          saddr = d.super.sip;
          daddr = d.super.dip;
        };
      } in
      k.inet_csum_replace4 s1 from to true

  unfoldable pub in_rewrite_ports : CbIn → Skb → Skb
  in_rewrite_ports d s =
      let s1 = set_source d.super.sport (k.inet_csum_replace2 s s.th.source d.super.sport false) in
      set_dest d.super.dport (k.inet_csum_replace2 s1 s1.th.dest d.super.dport false)

  unfoldable pub in_hdr_rewrite_csum : CbIn → Ctx → Option Ctx
  unfolding in_rewrite_addresses in_rewrite_ports in_rewrite_seq in_rewrite_ack in_rewrite_ts
      in_rewrite_rcv_wnd
  in_hdr_rewrite_csum d c =
      let s = in_rewrite_seq d (in_rewrite_ports d (in_rewrite_addresses d c.skb)) in
      and_then (in_rewrite_ack d (record c { skb = s })) λ c1.
        and_then (if d.ts_ok then in_rewrite_ts d c1 else some c1)
          λ c2. some (if d.ws_ok then record c2 { skb = in_rewrite_rcv_wnd d c2.skb } else c2)

  -- `dysco_in_hdr_rewrite`: addresses and ports, with the checksums computed from scratch.
  unfoldable pub in_hdr_rewrite : CbIn → Skb → Skb
  in_hdr_rewrite d s =
      let tcp_len = ntohs s.ip.tot_len - s.ip.ihl * 4 in
      let ip0 = record (s.ip) { check = 0; saddr = d.super.sip; daddr = d.super.dip } in
      let s1 = record s {
        ip = record ip0 { check = k.ip_fast_csum ip0 };
        th = record (s.th) { source = d.super.sport; dest = d.super.dport };
      } in
      elim s.ip_summed [
        | checksum_unnecessary ↦ s1
        | checksum_partial ↦ record s1 { ip_summed = checksum_unnecessary }
        | _ ↦
            let s2 = set_check 0 s1 in
            set_check
              (k.csum_fold (
                k.csum_segment s2 tcp_len (k.csum_tcpudp_nofold s2.ip.saddr s2.ip.daddr tcp_len 6)))
              s2
      ]

  -- `dysco_set_zero_window`.
  unfoldable pub set_zero_window : Skb → Skb
  set_zero_window s = set_window 0 (k.inet_csum_replace2 s s.th.window 0 false)
