-- ===== src/Tests/Journey.antt =====
-- The packets of a session on their way to the next host, at a concrete input.
use dysco.Base.{ℕ, ◌≢◌, Option, ◌≡◌, refl, arith, true, false, none, some, [], ◌∷◌, length}
use dysco.Types.{Skb, CbOut, CbIn, ServiceChain}
use dysco.Heap.{World, pure, load_out, modify_out}
use dysco.Chain.{add_sc}
use dysco.Chain.RoundTrip.{IsSessionWords, IsChain}
use dysco.Rewrite.Output.{out_hdr_rewrite}
use dysco.Output.Session.{session_of}
use dysco.Output.Syn.{out_syn_first, out_tx_init}
use dysco.Input.Blocks.{insert_cb_input}
use dysco.Input.Handler.{read_syn_view}
use dysco.Input.Linked.{Linked}
use dysco.Journey.Bears.{IsSegment}
use dysco.Journey.Received.{IsPlain, reached}
use dysco.Journey.Segment.{Arrives, input-output}
use dysco.TcpOptions.{get_ts_option}
use dysco.TcpOptions.Step.{step}
use dysco.Output.Syn.{output}
use dysco.Input.Handler.{input, rx_pass}
use dysco.Journey.{view_of, insert_cb_input-out_syn_first}
use dysco.Tests.Host.{
  host, host_laws, client_session, sub_session, empty_hashes, in_block, out_block, packet, world,
}

abbrev chain : ServiceChain
chain = record { len = 2; pos = 0; hops = 50331658 ∷ 67108874 ∷ [] }

abbrev sender_block : CbOut
sender_block = record out_block { sc = some chain; nh_mac = 1 }

abbrev sender : World
sender = record world { outs = some sender_block ∷ [] }

abbrev sent : World
sent = elim (out_syn_first packet 0 sender) [ none ↦ sender | some (n, u) ↦ u ]

sent_run : out_syn_first packet 0 sender ≡ some (1, sent)
unfolding out_syn_first modify_out load_out out_tx_init add_sc out_hdr_rewrite
sent_run = refl

session_words : IsSessionWords client_session
session_words = record {
  sip = omega arith;
  dip = omega arith;
  sport = omega arith;
  dport = omega arith;
}

chain_words : IsChain chain
chain_words = record { same = refl; short = omega arith }

insert_cb_input-out_syn_first_example :
    (read_syn_view sent.ctx.skb ≡ some (view_of sender_block chain sent.ctx.skb))
    × (session_of sent.ctx.skb ≡ sender_block.sub)
    × ((u' : World) × (insert_cb_input sent.ctx.skb (view_of sender_block chain sent.ctx.skb) world
          ≡ some (some (length world.ins), u'))
        × Linked sent.ctx.skb
            (view_of sender_block chain sent.ctx.skb)
            u'
            (length world.ins)
            (length world.outs))
unfolding out_syn_first modify_out load_out out_tx_init add_sc out_hdr_rewrite
insert_cb_input-out_syn_first_example =
    insert_cb_input-out_syn_first host packet 0 sender sent sender_block chain host host_laws world
      sent_run refl refl refl session_words chain_words (omega arith, (omega arith, tt)) refl refl
      refl

-- An acknowledgement of the session with timestamps and without data, at a host that knows the
-- session.
abbrev segment : Skb
segment = record packet {
  ip = record (packet.ip) { tot_len = 13312 };
  th = record (packet.th) { syn = false; ack = true; doff = 8 };
  body = 1 ∷ 1 ∷ 8 ∷ 10 ∷ 0 ∷ 0 ∷ 0 ∷ 7 ∷ 0 ∷ 0 ∷ 0 ∷ 9 ∷ [];
}

abbrev from : World
from = record world {
  outs = some out_block ∷ [];
  dh = record empty_hashes { hash_out = (client_session, 0) ∷ [] };
  ctx = record (world.ctx) { skb = segment };
}

abbrev timed_block : CbIn
timed_block = record in_block { ts_ok = true }

abbrev to : World
to = record world {
  ins = some timed_block ∷ [];
  dh = record empty_hashes { hash_in = (sub_session, 0) ∷ [] };
}

timed_block-IsPlain : IsPlain timed_block
timed_block-IsPlain = record {
  one_path = refl;
  seq = refl;
  ack = refl;
  ts = refl;
  tsr = refl;
  ws = refl;
}

segment_ts : get_ts_option segment ≡ some (some 4)
unfolding get_ts_option step
segment_ts = refl

found_ne : {o : Option (Option ℕ)} → o ≡ some (some 4) → o ≢ none
found_ne e = cc

segment-IsSegment : IsSegment segment
segment-IsSegment = record {
  is_ip = refl;
  protocol = refl;
  not_syn = refl;
  readable = found_ne segment_ts;
}

input-output_example :
    (u u' : World) × (output (pure 1) from ≡ some (1, u))
    × (session_of u.ctx.skb ≡ sub_session)
    × (input (pure 1) (reached u.ctx.skb to) ≡ some (rx_pass, u'))
    × Arrives segment u'.ctx.skb
unfolding dysco.Types.session_eq
input-output_example =
    input-output host host host_laws host_laws (pure 1) (pure 1) from to 0 0 out_block timed_block
      segment-IsSegment refl refl refl refl refl refl timed_block-IsPlain refl
