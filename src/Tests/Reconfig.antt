-- ===== src/Tests/Reconfig.antt =====
-- The theorems on the reconfiguration, the windows and the ports at concrete inputs.
use dysco.Base.{
  inl, ℕ, ◌+◌, ◌%◌, ◌≤◌, ◌≡◌, ◌≢◌, refl, arith, true, false, some, [], ◌∷◌, ◌⊎◌, ntohl, htonl,
  ntohs, swap32-swap32, sub32, add32,
}
use dysco.Types.{CbOut, CbIn, Skb, established}
use dysco.Rewrite.Fields.{shift}
use dysco.Rewrite.Output.{out_rewrite_seq, out_rewrite_addresses}
use dysco.Rewrite.Input.{in_rewrite_addresses}
use dysco.Rewrite.Translation.{anchors_transparent, rewrite_seq-compute_deltas_out}
use dysco.Rewrite.Addresses.{
  ip_sum, IsIpWords, out_rewrite_addresses-ip_sum, in_rewrite_addresses-ip_sum,
  in_rewrite_addresses-false_carry,
}
use dysco.Control.Deltas.{compute_deltas_out, compute_deltas_in}
use dysco.Heap.{World}
use dysco.Output.Path.{choose_path, clamp_ack, pick_path_ack}
use dysco.Output.PathLaws.{pick_path_ack-bounded, choose_path-last, pick_path_ack-third}
use dysco.Output.Cutoff.{send_all, highest, send_all-highest}
use dysco.Output.Window.{fix_rcv_window, fix_rcv_window-le}
use dysco.Input.TwoPaths.{receive_all, lowest, receive_all-lowest}
use dysco.Ports.{allocate_ports, ports_after}
use dysco.Ports.Unique.{allocate_ports-injective}
use dysco.Ports.Range.{local_port_range}
use dysco.Csum.{csum_replace4}
use dysco.Csum.Incremental.{csum_replace4-balance}
use dysco.Tests.Host.{world, host, host_laws, out_block, in_block, rcb, packet, socket}

-- The old path's numbers, the new path's, and the new input block.
abbrev old_out : CbOut
old_out = record out_block { in_iseq = 4294967000; in_iack = 77 }

abbrev new_out : CbOut
new_out = record out_block { out_iseq = 500; out_iack = 9000 }

abbrev new_in : CbIn
new_in = record in_block { in_iack = 500; in_iseq = 9000 }

anchors_transparent_example :
    let o = compute_deltas_out new_out old_out rcb in
    let r = compute_deltas_in new_in old_out in_block rcb in
    (shift r.ack_add (shift o.seq_add 4294967290 o.seq_delta) r.ack_delta ≡ 4294967290)
    × (shift o.ack_add (shift r.seq_add 9100 r.seq_delta) o.ack_delta ≡ 9100)
anchors_transparent_example =
    anchors_transparent new_out old_out new_in in_block rcb 4294967290 9100 refl refl (omega arith)
      (omega arith) (omega arith) (omega arith) (omega arith) (omega arith)

rewrite_seq-compute_deltas_out_example :
    ntohl (out_rewrite_seq (compute_deltas_out new_out old_out rcb) packet).th.seq
    ≡ add32 (sub32 (ntohl packet.th.seq) 4294967000) 500
rewrite_seq-compute_deltas_out_example =
    rewrite_seq-compute_deltas_out new_out old_out rcb packet (omega arith) (omega arith)

-- A block whose acks end at 5000, with the new path at 1.
abbrev cut_block : CbOut
cut_block = record out_block { valid_ack_cut = true; ack_cutoff = 5000; other_path = some 1 }

abbrev ack_of : ℕ → Skb
ack_of n = record packet { th = record (packet.th) { ack_seq = htonl n; syn = false; ack = true } }

past_cutoff :
    (host.after 5000 (ntohl (htonl 6000)) ≡ false) × (host.after 5000 (ntohl (htonl 6100)) ≡ false)
past_cutoff = rw (swap32-swap32 6000 (omega arith), swap32-swap32 6100 (omega arith)) (refl, refl)

clamped : (pick_path_ack 0 cut_block (ack_of 6000)).path ≡ some 0
unfolding pick_path_ack clamp_ack
clamped = ground (arith, past_cutoff.0)

pick_path_ack-bounded_example :
    (host.before (ntohl (pick_path_ack 0 cut_block (ack_of 6000)).pkt.th.ack_seq) 5000 ≡ true)
    ⊎ (ntohl (pick_path_ack 0 cut_block (ack_of 6000)).pkt.th.ack_seq ≡ 5000)
pick_path_ack-bounded_example =
    pick_path_ack-bounded host_laws 0 1 cut_block (ack_of 6000) refl refl refl (omega arith)
      (omega arith) clamped

abbrev divided_block : CbOut
divided_block = record cut_block { seq_cutoff = 900; state = established }

abbrev divided_world : World
divided_world = record world { outs = some divided_block ∷ [] }

choose_path-last_example :
    choose_path 0 established 100 900 divided_world ≡ some (some 1, divided_world)
choose_path-last_example =
    choose_path-last host_laws 0 100 divided_world divided_block refl refl (inl refl) (omega arith)

pick_path_ack-third_example :
    let d1 = (pick_path_ack 0 cut_block (ack_of 6000)).cb in
    let d2 = (pick_path_ack 0 d1 (ack_of 6100)).cb in
    ((pick_path_ack 0 cut_block (ack_of 6000)).path ≡ some 0)
    × ((pick_path_ack 0 d1 (ack_of 6100)).path ≡ some 0)
    × ((pick_path_ack 0 d2 (ack_of 6200)).path ≡ some 1)
pick_path_ack-third_example =
    pick_path_ack-third 0 cut_block (ack_of 6000) (ack_of 6100) (ack_of 6200) refl refl refl refl
      refl refl past_cutoff.0 past_cutoff.1

send_all-highest_example :
    (send_all 4294967000
      (10 ∷ 400 ∷ 20 ∷ [])
      (record out_block { seq_cutoff = 4294967000 })).seq_cutoff
    ≡ add32 4294967000 (highest 0 (10 ∷ 400 ∷ 20 ∷ []))
send_all-highest_example =
    send_all-highest host_laws 4294967000 0 (10 ∷ 400 ∷ 20 ∷ [])
      (record out_block { seq_cutoff = 4294967000 }) (omega arith) (omega arith)
      (omega arith, (omega arith, (omega arith, tt))) (omega arith)

receive_all-lowest_example :
    (receive_all 4294967000 (300 ∷ 400 ∷ 20 ∷ []) out_block).ack_cutoff
    ≡ add32 4294967000 (lowest 300 (400 ∷ 20 ∷ []))
receive_all-lowest_example =
    receive_all-lowest host_laws 4294967000 300 (400 ∷ 20 ∷ []) out_block (omega arith)
      (omega arith) (omega arith, (omega arith, tt)) refl

fix_rcv_window-le_example :
    ntohs (fix_rcv_window socket socket packet).th.window ≤ ntohs packet.th.window
fix_rcv_window-le_example = fix_rcv_window-le socket socket packet

allocate_ports-injective_example :
    (allocate_ports (ports_after 3)).0 ≢ (allocate_ports (ports_after 55538)).0
allocate_ports-injective_example =
    allocate_ports-injective 3 55538 (omega arith) (omega arith) (omega arith)

local_port_range_example :
    (10001 ≤ ntohs (allocate_ports (ports_after 2)).0.0)
    × (ntohs (allocate_ports (ports_after 2)).0.0 ≤ 65535)
local_port_range_example = local_port_range 2

csum_replace4-balance_example :
    (csum_replace4 48879 16777226 4294967295 + 4294967295) % 65535 ≡ (48879 + 16777226) % 65535
csum_replace4-balance_example =
    csum_replace4-balance host_laws 48879 16777226 4294967295 (omega arith) (omega arith)
      (omega arith)

packet_words : IsIpWords packet.ip
packet_words = record { check = omega arith; saddr = omega arith; daddr = omega arith }

out_rewrite_addresses-ip_sum_example :
    ip_sum (out_rewrite_addresses out_block packet).ip ≡ ip_sum packet.ip
out_rewrite_addresses-ip_sum_example =
    out_rewrite_addresses-ip_sum host_laws out_block packet packet_words (omega arith) (omega arith)

abbrev overflowing : CbIn
overflowing = record in_block { super = record (in_block.super) { sip = 4294967295 } }

in_rewrite_addresses-ip_sum_example :
    ip_sum (in_rewrite_addresses overflowing packet).ip ≡ ip_sum packet.ip
in_rewrite_addresses-ip_sum_example =
    in_rewrite_addresses-ip_sum host_laws overflowing packet packet_words (omega arith)
      (omega arith) (ground arith)

abbrev carried : CbIn
carried = record in_block { sub = record (in_block.sub) { dip = 4261412874 } }

in_rewrite_addresses-false_carry_example :
    (ip_sum (in_rewrite_addresses carried packet).ip + 1) % 65535 ≡ ip_sum packet.ip
in_rewrite_addresses-false_carry_example =
    in_rewrite_addresses-false_carry host_laws carried packet packet_words (omega arith)
      (omega arith)
