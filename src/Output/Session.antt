-- ===== src/Output/Session.antt =====
-- kernel/common/dysco_output.c: policies, the next hop, and the control blocks of a session.
mod Blocks
unfoldable pub use Blocks.*
use Prim.Native.Nat.{bit_and}
use dysco.Base.{
  ℕ, ◌+◌, ◌-◌, ◌%◌, Bool, true, false, Option, none, some, List, [], ◌∷◌, ◌==◌, if◌then◌else◌,
  length, take, and_then, htons, ntohs, ntohl, u16, leb, head?,
}
use dysco.Types.{Skb, CbOut, CbIn, TcpSession, ServiceChain, IpHdr, TcpHdr, rev_session, one_path}
use dysco.Kernel.{Kernel, Route}
use dysco.Heap.{
  maybe, World, Policy, M, pure, ◌>>=◌, ◌>>◌, get, modify, get_skb, put_skb, lift, load_out,
  modify_out, update_out, alloc_out, free_out, insert_out, lookup_out, lookup_pen, lookup_pen_tag,
  remove_pen,
}
use dysco.Ports.{allocate_ports}
use dysco.TcpOptions.{parse_tcp_syn_opt_s, dysco_tcp_option_len}
use dysco.Chain.{add_sc}
use dysco.Rewrite.Output.{out_hdr_rewrite, fix_tcp_ip_csum}

-- The chain of the first policy whose filter accepts the packet.
unfoldable pub match_policy : List Policy → Skb → Option ServiceChain
match_policy [] s = none
match_policy (dps ∷ rest) s = if dps.filter s then some dps.sc else match_policy rest s

unfoldable pub same_subnet : ℕ → ℕ → ℕ → Bool
same_subnet ip1 ip2 mask = bit_and ip1 mask == bit_and ip2 mask

-- The four-tuple of a packet.
abbrev pub session_of : Skb → TcpSession
session_of s = record { sip = s.ip.saddr; dip = s.ip.daddr; sport = s.th.source; dport = s.th.dest }

module _ ⦃k : Kernel⦄ where
  -- `dysco_arp`: the source address of the subsession, and the hardware address of its next hop
  -- if that is known.
  unfoldable pub arp : Skb → CbOut → CbOut
  arp s d =
      let rt = k.ip_route_output_key s d.sub.dip in
      let nh : ℕ = elim rt.nexthop [ none ↦ d.sub.dip | some n ↦ n ] in
      let d' = record d { sub = record (d.sub) { sip = rt.fl_saddr } } in
      elim (k.neigh_lookup s nh) [ none ↦ d' | some mac ↦ record d' { nh_mac = mac } ]

  -- The ports of a new subsession.
  unfoldable pub allocate_ports_m : M (ℕ × ℕ)
  allocate_ports_m w =
      let (ports, next) = allocate_ports w.alloc_ports in
      some (ports, record w { alloc_ports = next })

  -- `none` is NULL.
  unfoldable pub create_cb_out : Skb → ServiceChain → M (Option ℕ)
  unfolding allocate_ports_m
  create_cb_out s sc = do
    dcb ← alloc_out (record zero_out { sc = some sc; super = session_of s })
    maybe dcb (pure none) λ p. if sc.len == 0 then (do free_out p; pure none) else do
      hop ← lift (head? sc.hops)
      modify_out p (λ d. arp s (record d { sub = record (d.sub) { dip = hop } }))
      (sport, dport) ← allocate_ports_m
      modify_out p (λ d. record d { sub = record (d.sub) { sport = sport; dport = dport } })
      pure (some p)

  -- The block as found in the pending table by the tag of the packet, with the SYN's options.
  unfoldable pub lookup_pen_by_tag : Skb → M (Option ℕ)
  lookup_pen_by_tag s = do
    aux ← lift (
        parse_tcp_syn_opt_s s (record (k.stale_out) {
          tag_ok = false;
          sub = record (k.stale_out.sub) { sip = 0; sport = 0 };
        }))
    if aux.tag_ok
        then (do
          dcb ← lookup_pen_tag aux.dysco_tag
          maybe dcb (pure none) λ p. do
            modify_out p (λ d. record d {
              ws_ok = aux.ws_ok;
              ws_delta = 0;
              ws_in = aux.ws_in;
              ws_out = aux.ws_in;
              ts_ok = aux.ts_ok;
              ts_delta = 0;
              ts_in = aux.ts_in;
              ts_out = aux.ts_in;
              sack_ok = aux.sack_ok;
              tag_ok = true;
              dysco_tag = aux.dysco_tag;
            })
            pure (some p))
        else pure none

  unfoldable pub update_five_tuple : Skb → ℕ → M (Unit {0})
  update_five_tuple s p = modify_out p (λ d. record d { super = session_of s })

  -- The tag is taken off the packet's end. `doff` has four bits.
  unfoldable pub remove_tag : Skb → Skb
  remove_tag s = record s {
    th = record (s.th) { doff = (s.th.doff + 16 - 2) % 16 };
    ip = record (s.ip) {
      tot_len = htons (u16 (ntohs s.ip.tot_len + 65536 - dysco_tcp_option_len));
    };
    body = take (length s.body - dysco_tcp_option_len) s.body;
    len = s.len - dysco_tcp_option_len;
    tailroom = s.tailroom + dysco_tcp_option_len;
  }

  -- `dysco_out_handle_mb`: the first packet of a session that leaves a middlebox.
  unfoldable pub out_handle_mb : Skb → ℕ → M ℕ
  unfolding allocate_ports_m
  out_handle_mb s p = do
    old ← load_out p
    remove_pen old.super old.dysco_tag p
    sc ← lift old.sc
    if sc.len == 0 then pure tt else (do
      hop ← lift (head? sc.hops)
      modify_out p (λ d. arp s (record d { sub = record (d.sub) { dip = hop } })))
    (sport, dport) ← allocate_ports_m
    modify_out p (λ d. record d {
      sub = record (d.sub) { sport = sport; dport = dport };
      in_iseq = ntohl s.th.seq;
      out_iseq = ntohl s.th.seq;
    })
    update_out p (parse_tcp_syn_opt_s s)
    insert_cb_out p false
    d ← load_out p
    let s1 = out_hdr_rewrite d s
    let s2 = if d.tag_ok then remove_tag s1 else s1
    let s3 : Skb = elim (add_sc d.super sc s2) [ none ↦ s2 | some t ↦ t ]
    put_skb (fix_tcp_ip_csum s3)
    pure 1
