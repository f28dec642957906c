-- ===== src/Rewrite/Output.antt =====
-- kernel/common/dysco_output.c: a packet from the host is rewritten from its session to its
-- subsession.
use dysco.Base.{
  ℕ, ◌+◌, ◌*◌, ◌/◌, ◌^◌, true, false, Option, none, some, ◌==◌, if◌then◌else◌, and_then, htonl,
  ntohl, htons, ntohs, u16, u32, ◌-◌, not16,
}
use dysco.Types.{Skb, Ctx, CbOut, checksum_unnecessary, checksum_partial}
use dysco.Kernel.{Kernel}
use dysco.Csum.{inet_proto_csum_replace4, csum_replace4, add_carry}
use dysco.TcpOptions.{get_ts_option}
use dysco.TcpOptions.Step.{load32}
use dysco.Rewrite.Fields.{
  shift, store32, set_seq, set_ack_seq, set_window, set_source, set_dest, set_body, set_check,
}
use dysco.Rewrite.Sack.{tcp_sack}

module _ ⦃k : Kernel⦄ where
  unfoldable pub out_rewrite_seq : CbOut → Skb → Skb
  out_rewrite_seq d s =
      let new_seq = htonl (shift d.seq_add (ntohl s.th.seq) d.seq_delta) in
      if d.seq_delta == 0
      then s
      else set_seq new_seq (inet_proto_csum_replace4 s s.th.seq new_seq false)

  unfoldable pub out_rewrite_ack : CbOut → Ctx → Option Ctx
  out_rewrite_ack d c =
      let new_ack = htonl (shift d.ack_add (ntohl c.skb.th.ack_seq) d.ack_delta) in
      if d.ack_delta == 0
      then some c
      else and_then (if d.sack_ok then tcp_sack d.ack_delta d.ack_add c else some c) λ c'.
        let s = inet_proto_csum_replace4 c'.skb c'.skb.th.ack_seq new_ack false in
        some (record c' { skb = set_ack_seq new_ack s })

  unfoldable pub out_rewrite_tsval : CbOut → ℕ → Ctx → Option Ctx
  unfolding load32 store32
  out_rewrite_tsval d ptr c =
      if d.ts_delta == 0
      then some c
      else and_then (load32 c.skb.body ptr) λ ts.
        let new_ts = htonl (shift d.ts_add (ntohl ts) d.ts_delta) in
        let s = inet_proto_csum_replace4 c.skb ts new_ts false in
        some (record c {
          skb = set_body (store32 ptr new_ts s.body) s;
          tcp_ts_rewrites = c.tcp_ts_rewrites + 1;
        })

  unfoldable pub out_rewrite_tsecr : CbOut → ℕ → Ctx → Option Ctx
  unfolding load32 store32
  out_rewrite_tsecr d ptr c =
      if d.tsr_delta == 0
      then some c
      else and_then (load32 c.skb.body (ptr + 4)) λ tsr.
        let new_tsr = htonl (shift d.tsr_add (ntohl tsr) d.tsr_delta) in
        let s = inet_proto_csum_replace4 c.skb tsr new_tsr false in
        some (record c {
          skb = set_body (store32 (ptr + 4) new_tsr s.body) s;
          tcp_tsr_rewrites = c.tcp_tsr_rewrites + 1;
        })

  unfoldable pub out_rewrite_ts : CbOut → Ctx → Option Ctx
  unfolding out_rewrite_tsval out_rewrite_tsecr
  out_rewrite_ts d c = and_then (get_ts_option c.skb) λ o. elim o [
    | none ↦ some c
    | some ptr ↦ and_then (out_rewrite_tsval d ptr c) (out_rewrite_tsecr d ptr)
  ]

  unfoldable pub out_rewrite_rcv_wnd : CbOut → Skb → Skb
  out_rewrite_rcv_wnd d s =
      let wnd = u32 (ntohs s.th.window * 2 ^ d.ws_in) / 2 ^ d.ws_out in
      let new_win = htons (u16 wnd) in
      if d.ws_delta == 0
      then s
      else set_window new_win (k.inet_csum_replace2 s s.th.window new_win false)

  unfoldable pub out_rewrite_addresses : CbOut → Skb → Skb
  out_rewrite_addresses d s =
      let from = add_carry s.ip.saddr s.ip.daddr s.ip.daddr in
      let to = add_carry d.sub.sip d.sub.dip d.sub.dip in
      let s1 = record s {
        ip = record (s.ip) {
          check = csum_replace4 s.ip.check from to;
          saddr = d.sub.sip;
          daddr = d.sub.dip;
        };
      } in
      k.inet_csum_replace4 s1 from to true

  unfoldable pub out_rewrite_ports : CbOut → Skb → Skb
  out_rewrite_ports d s =
      let s1 = set_source d.sub.sport (k.inet_csum_replace2 s s.th.source d.sub.sport false) in
      set_dest d.sub.dport (k.inet_csum_replace2 s1 s1.th.dest d.sub.dport false)

  -- The Ethernet header for the next hop.
  abbrev pub set_eth : CbOut → Skb → Skb
  set_eth d s = record s { eth = record (s.eth) { h_dest = d.nh_mac; h_source = s.dev_addr } }

  unfoldable pub out_hdr_rewrite_csum : CbOut → Skb → Skb
  unfolding out_rewrite_addresses out_rewrite_ports
  out_hdr_rewrite_csum d s = set_eth d (out_rewrite_ports d (out_rewrite_addresses d s))

  -- `dysco_out_hdr_rewrite`: no checksum is touched.
  unfoldable pub out_hdr_rewrite : CbOut → Skb → Skb
  out_hdr_rewrite d s = set_eth d (record s {
    ip = record (s.ip) { saddr = d.sub.sip; daddr = d.sub.dip };
    th = record (s.th) { source = d.sub.sport; dest = d.sub.dport };
  })

  -- `dysco_fix_tcp_ip_csum`.
  unfoldable pub fix_tcp_ip_csum : Skb → Skb
  fix_tcp_ip_csum s =
      let ip0 = record (s.ip) { check = 0 } in
      let s1 = record s { ip = record ip0 { check = k.ip_fast_csum ip0 } } in
      let tcp_len = ntohs s.ip.tot_len - s.ip.ihl * 4 in
      let s2 = set_check 0 s1 in
      let pseudo_hdr = k.csum_tcpudp_nofold s2.ip.saddr s2.ip.daddr tcp_len 6 in
      elim s.ip_summed [
        | checksum_partial ↦ set_check (not16 (k.tcp_v4_check tcp_len s1.ip.saddr s1.ip.daddr)) s1
        | _ ↦ record (set_check (k.csum_fold (k.csum_segment s2 tcp_len pseudo_hdr)) s2) {
          ip_summed = checksum_unnecessary;
        }
      ]
