-- ===== src/Journey/Bears.antt =====
-- The packet of a session with its headers rewritten: kernel/common/dysco_output.c there,
-- kernel/common/dysco_input.c here.
use dysco.Base.{ℕ, ◌≡◌, ◌≢◌, ap, ◌∙◌, true, false, none}
use dysco.Types.{Skb, EthHdr, IpHdr, TcpHdr, CbOut, CbIn, TcpSession, tcp}
use dysco.Kernel.{Kernel, KernelLaws}
use dysco.TcpOptions.{get_ts_option}
use dysco.Rewrite.Fields.{set_source, set_dest}
use dysco.Rewrite.Output.{out_rewrite_addresses, out_rewrite_ports, out_hdr_rewrite_csum}
use dysco.Rewrite.Input.{in_rewrite_addresses, in_rewrite_ports}
use dysco.Output.Session.{session_of}

-- The packet `t` is `s` with the addresses and ports of a session; checksums and hardware
-- addresses aside.
pub record Bears (ss : TcpSession) (s t : Skb) : Type 0 where
  pub th :
      record (t.th) { check = 0 } ≡ record (s.th) { check = 0; source = ss.sport; dest = ss.dport }
  pub ip : record (t.ip) { check = 0 } ≡ record (s.ip) { check = 0; saddr = ss.sip; daddr = ss.dip }
  pub body : t.body ≡ s.body
  pub is_ip : t.eth.is_ip ≡ s.eth.is_ip

pub Bears-session : (ss : TcpSession) (s t : Skb) → Bears ss s t → session_of t ≡ ss
Bears-session ss s t b =
    ap {A = IpHdr}
      (λ h. record { sip = h.saddr; dip = h.daddr; sport = t.th.source; dport = t.th.dest }) b.ip
    ∙ ap {A = TcpHdr} (λ h. record ss { sport = h.source; dport = h.dest }) b.th

pub Bears-trans : (ss uu : TcpSession) (s t r : Skb) → Bears ss s t → Bears uu t r → Bears uu s r
Bears-trans ss uu s t r a b = record {
  th = b.th ∙ ap {A = TcpHdr} (λ h. record h { source = uu.sport; dest = uu.dport }) a.th;
  ip = b.ip ∙ ap {A = IpHdr} (λ h. record h { saddr = uu.sip; daddr = uu.dip }) a.ip;
  body = b.body ∙ a.body;
  is_ip = b.is_ip ∙ a.is_ip;
}

module _ ⦃k : Kernel⦄ (laws : KernelLaws k) where
  -- The addresses with one update of the TCP checksum, then each port with its own.
  rewritten-Bears :
      (ss : TcpSession) (s : Skb) (check from to : ℕ)
      → let s1 = record s {
        ip = record (s.ip) { check = check; saddr = ss.sip; daddr = ss.dip };
      } in
        let s2 = k.inet_csum_replace4 s1 from to true in
        let s3 = set_source ss.sport (k.inet_csum_replace2 s2 s2.th.source ss.sport false) in
        Bears ss s (set_dest ss.dport (k.inet_csum_replace2 s3 s3.th.dest ss.dport false))
  rewritten-Bears ss s check from to =
      let s1 : Skb = record s {
        ip = record (s.ip) { check = check; saddr = ss.sip; daddr = ss.dip };
      } in
      let s2 = k.inet_csum_replace4 s1 from to true in
      let s3 = set_source ss.sport (k.inet_csum_replace2 s2 s2.th.source ss.sport false) in
      let a = laws.replace4_same s1 from to true in
      let b = laws.replace2_same s2 s2.th.source ss.sport false in
      let c = laws.replace2_same s3 s3.th.dest ss.dport false in
      record {
        th =
            ap {A = TcpHdr} (λ h. record h { dest = ss.dport }) c.th_same
            ∙ ap {A = TcpHdr} (λ h. record h { source = ss.sport; dest = ss.dport })
                (b.th_same ∙ a.th_same);
        ip = ap {A = IpHdr} (λ h. record h { check = 0 }) (c.ip_same ∙ b.ip_same ∙ a.ip_same);
        body = c.body_same ∙ b.body_same ∙ a.body_same;
        is_ip = ap {A = EthHdr} (λ e. e.is_ip) (c.eth_same ∙ b.eth_same ∙ a.eth_same);
      }

  pub out_hdr_rewrite_csum-Bears : (d : CbOut) (s : Skb) → Bears d.sub s (out_hdr_rewrite_csum d s)
  unfolding out_hdr_rewrite_csum out_rewrite_addresses out_rewrite_ports
  out_hdr_rewrite_csum-Bears d s =
      let b = rewritten-Bears d.sub s _ _ _ in
      record { th = b.th; ip = b.ip; body = b.body; is_ip = b.is_ip }

  pub in_rewrite_ports-Bears :
      (i : CbIn) (s : Skb) → Bears i.super s (in_rewrite_ports i (in_rewrite_addresses i s))
  unfolding in_rewrite_addresses in_rewrite_ports
  in_rewrite_ports-Bears i s = rewritten-Bears i.super s _ _ _

-- A segment of TCP over IP whose options can be read within the packet, as they can be when a
-- byte follows them (`get_ts_option-InBounds`) or they are well formed (`get_ts_option-find_ts`).
pub record IsSegment (s : Skb) : Type 0 where
  pub is_ip : s.eth.is_ip ≡ true
  pub protocol : s.ip.protocol ≡ tcp
  pub not_syn : s.th.syn ≡ false
  pub readable : get_ts_option s ≢ none

pub Bears-readable :
    (ss : TcpSession) (s t : Skb) → Bears ss s t → get_ts_option s ≢ none → get_ts_option t ≢ none
unfolding get_ts_option
Bears-readable ss s t b h = rw (b.body, ap {A = TcpHdr} (λ h. h.doff) b.th) h

pub Bears-IsSegment : (ss : TcpSession) (s t : Skb) → Bears ss s t → IsSegment s → IsSegment t
Bears-IsSegment ss s t b is = record {
  is_ip = b.is_ip ∙ is.is_ip;
  protocol = ap {A = IpHdr} (λ h. h.protocol) b.ip ∙ is.protocol;
  not_syn = ap {A = TcpHdr} (λ h. h.syn) b.th ∙ is.not_syn;
  readable = Bears-readable ss s t b is.readable;
}
