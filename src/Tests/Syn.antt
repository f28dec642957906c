-- ===== src/Tests/Syn.antt =====
-- The theorems on service chains, options and reports at concrete inputs.
use dysco.Base.{
  false, true, ℕ, ◌+◌, ◌-◌, ◌*◌, ◌≤◌, ◌<◌, ◌≡◌, ◌≢◌, refl, arith, Option, none, some, List, [], ◌∷◌,
  ◌++◌, length, ntohs, htons, swap16,
}
use dysco.Types.{Ctx, ServiceChain, Skb}
use dysco.TcpOptions.{parse_tcp_syn_opt_s, insert_tag, get_ts_option}
use dysco.TcpOptions.Bounds.{InBounds, get_ts_option-InBounds}
use dysco.TcpOptions.Encode.{TcpOpt, nop, opt, encode, find_ts}
use dysco.TcpOptions.Lookup.{get_ts_option-find_ts}
use dysco.Chain.{
  session_size, sc_mem_sz, syn_bytes, read_session, read_sc_len, read_hops, payload_ptr, add_sc,
  remove_sc,
}
use dysco.Chain.RoundTrip.{IsSessionWords, IsChain}
use dysco.Chain.Carry.{add_sc-read, remove_sc-add_sc}
use dysco.Output.Session.{remove_tag}
use dysco.Output.Tag.{parse_tcp_syn_opt_s-insert_tag, remove_tag-insert_tag}
use dysco.Rewrite.Sack.{tcp_sack}
use dysco.Rewrite.SackCsum.{tcp_sack_csum}
use dysco.Rewrite.SackCsum.Agrees.{Agree, tcp_sack_csum-tcp_sack}
use dysco.Rewrite.Sack.Bounds.{EndsWith, tcp_sack-EndsWith}
use dysco.Main.Report.{
  WalkItem, entry, again, broken, started, Mapping, mapping_of, walk_loop, walk_hash_table,
  walk_rec_table, walk_rec_loop, get_mapping_report, get_rec_time_report, report_room, mapping_size,
}
use dysco.Main.Room.{get_mapping_report-fits, get_rec_time_report-fits}
use dysco.Tests.Host.{host, client_session, packet, out_block}

-- Two fillers, then a timestamp.
abbrev opts : List TcpOpt
opts = nop ∷ nop ∷ opt 8 (1 ∷ 2 ∷ 3 ∷ 4 ∷ 5 ∷ 6 ∷ 7 ∷ 8 ∷ []) ∷ []

abbrev with_opts : Skb
with_opts = record packet { th = record (packet.th) { doff = 8 }; body = encode opts ++ (0 ∷ []) }

get_ts_option-find_ts_example : get_ts_option with_opts ≡ some (find_ts 0 opts)
get_ts_option-find_ts_example =
    get_ts_option-find_ts with_opts opts (0 ∷ []) (omega arith, tt) refl refl

get_ts_option-InBounds_example : InBounds 12 (get_ts_option with_opts)
get_ts_option-InBounds_example = get_ts_option-InBounds with_opts (omega arith)

abbrev chain : ServiceChain
chain = record { len = 2; pos = 0; hops = 50331658 ∷ 67108874 ∷ [] }

abbrev with_chain : Skb
with_chain = record packet {
  body = syn_bytes client_session chain;
  len = 64;
  tailroom = 176;
  ip = record (packet.ip) { tot_len = htons 50; check = 0 };
}

client_words : IsSessionWords client_session
client_words = record {
  sip = omega arith;
  dip = omega arith;
  sport = omega arith;
  dport = omega arith;
}

chain-IsChain : IsChain chain
chain-IsChain = record { same = refl; short = omega arith }

abbrev added_to : Option Skb → Skb
added_to none = packet
added_to (some t) = t

abbrev carried : Skb
carried = added_to (add_sc client_session chain packet)

added : add_sc client_session chain packet ≡ some carried
unfolding add_sc
added = refl

add_sc-read_example :
    (read_session carried.body (payload_ptr carried) ≡ some client_session)
    × (read_sc_len carried.body (payload_ptr carried) ≡ some 2)
    × (read_hops 2 carried.body (payload_ptr carried + 16) ≡ some (50331658 ∷ 67108874 ∷ []))
add_sc-read_example =
    add_sc-read client_session chain packet carried added refl client_words chain-IsChain
      (omega arith, (omega arith, tt))

-- The packet at the next host, without the Ethernet header.
abbrev arrived : Skb
arrived = record carried { len = 50 }

arrived_tot_len : (arrived.ip.tot_len < 65536) × (ntohs arrived.ip.tot_len ≡ 50)
unfolding add_sc swap16
arrived_tot_len = (omega arith, refl)

remove_sc-add_sc_example :
    (v : Skb) × (remove_sc arrived ≡ some v)
    × (v.body ≡ [])
    × (v.len ≡ 50 - (session_size + sc_mem_sz 2))
    × (ntohs v.ip.tot_len ≡ ntohs arrived.ip.tot_len - (session_size + sc_mem_sz 2))
remove_sc-add_sc_example =
    remove_sc-add_sc client_session chain packet carried added refl client_words chain-IsChain
      arrived refl refl (omega arith) arrived_tot_len.0 arrived_tot_len.1

abbrev walk : List (WalkItem ℕ)
walk = entry 1 ∷ again ∷ entry 2 ∷ broken ∷ entry 3 ∷ []

abbrev mapping : Mapping ℕ
mapping = record { len = 4; out = 2; entries = 1 ∷ 2 ∷ 1 ∷ 2 ∷ [] }

mapping_sent : get_mapping_report true (started walk) (started walk) ≡ some mapping
unfolding get_mapping_report walk_hash_table walk_loop mapping_of
mapping_sent = refl

get_mapping_report-fits_example :
    (true ≡ true)
    × (mapping_size * length mapping.entries ≤ report_room)
    × (length mapping.entries ≡ mapping.len)
get_mapping_report-fits_example =
    get_mapping_report-fits true (started walk) (started walk) mapping mapping_sent

times_sent : get_rec_time_report true (started walk) ≡ some (1 ∷ 2 ∷ [])
unfolding get_rec_time_report walk_rec_table walk_rec_loop
times_sent = refl

get_rec_time_report-fits_example : (true ≡ true) × (20 * length {A = ℕ} (1 ∷ 2 ∷ []) ≤ report_room)
get_rec_time_report-fits_example =
    get_rec_time_report-fits true (started walk) (1 ∷ 2 ∷ []) times_sent

parse_tcp_syn_opt_s-insert_tag_example :
    (read : ℕ) × (parse_tcp_syn_opt_s (insert_tag 7 packet).0 out_block
      ≡ some (record out_block { sack_ok = false; tag_ok = true; dysco_tag = read }))
    × (read ≡ 458752)
    × (read ≢ 7)
parse_tcp_syn_opt_s-insert_tag_example =
    parse_tcp_syn_opt_s-insert_tag 7 packet out_block refl refl (omega arith)

remove_tag-insert_tag_example : remove_tag (insert_tag 7 with_opts).0 ≡ with_opts
remove_tag-insert_tag_example =
    remove_tag-insert_tag 7 with_opts (omega arith) (omega arith) (omega arith)

-- Two fillers and one SACK block.
abbrev with_sack : Ctx
with_sack = record {
  skb = record packet {
    th = record (packet.th) { doff = 8 };
    body = encode (nop ∷ nop ∷ opt 5 (0 ∷ 0 ∷ 1 ∷ 0 ∷ 0 ∷ 0 ∷ 2 ∷ 0 ∷ []) ∷ []) ++ 65 ∷ [];
  };
  tcp_sack_rewrites = 0;
  tcp_ts_rewrites = 0;
  tcp_tsr_rewrites = 0;
}

tcp_sack-EndsWith_example : EndsWith 13 (tcp_sack 1000 true with_sack)
tcp_sack-EndsWith_example = tcp_sack-EndsWith 1000 true with_sack (omega arith)

tcp_sack_csum-tcp_sack_example :
    Agree (λ d. d) (tcp_sack 1000 true with_sack) (tcp_sack_csum 1000 true with_sack)
tcp_sack_csum-tcp_sack_example = tcp_sack_csum-tcp_sack 1000 true with_sack
