-- ===== src/Tests/Control.antt =====
-- The theorems on the control messages at concrete inputs.
use dysco.Base.{swap16, ℕ, ◌≡◌, refl, Bool, true, false, Option, none, some, [], ◌∷◌, get_elem?}
use dysco.Types.{CbOut, Skb, Ctx, is_established, syn_received, syn_sent, established, session_eq}
use dysco.Heap.{World, load_out, load_rcb, modify_out}
use dysco.Control.Input.{input_ack, input_syn_ack, input_state_transferred}
use dysco.Control.Switch.{input_state_transferred-control_output_ack}
use dysco.Control.Retransmission.{input_ack-input_ack}
use dysco.Control.Retransmission.SynAck.{input_syn_ack-control_output_ack}
use dysco.Control.Settled.{Quiet}
use dysco.Control.Output.{control_output_ack}
use dysco.Heap.Laws.{HasOut}
use dysco.Tests.Host.{client_session, host, out_block, rcb, packet, world}

-- The right anchor with a reconfiguration under way: block 0 is the old path's, 1 the new path's.
abbrev at_right : World
at_right = record world {
  outs =
      some (record out_block { other_path = some 1; state = syn_received })
      ∷ some (record out_block { in_iack = 100; out_iack = 300 })
      ∷ [];
  rcbs = some (record rcb { old_dcb = some 0; new_dcb = some 1 }) ∷ [];
  dh = record (world.dh) { hash_reconfig = (client_session, 0) ∷ [] };
}

abbrev ack_message : Skb
ack_message = record packet { cmsg = record (packet.cmsg) { right_a = 33554442 } }

abbrev world_after : Option (Option ℕ × World) → World
world_after none = world
world_after (some p) = p.1

abbrev after_ack : World
after_ack = world_after (input_ack ack_message at_right)

first_ack : input_ack ack_message at_right ≡ some (none, after_ack)
unfolding input_ack load_out load_rcb modify_out session_eq
first_ack = refl

abbrev is_switched : Option (Option CbOut) → Bool
is_switched (some (some b)) = is_established b.state
is_switched _ = false

-- The first message does switch the old block to the new path.
switched :
    (is_switched (get_elem? at_right.outs 0) ≡ false)
    × (is_switched (get_elem? after_ack.outs 0) ≡ true)
unfolding input_ack load_out load_rcb modify_out session_eq
switched = (refl, refl)

-- The same with another cutoff.
abbrev other_ack : Skb
other_ack = record ack_message { cmsg = record (ack_message.cmsg) { seq_cutoff = 7 } }

input_ack-input_ack_example : Quiet (input_ack other_ack) after_ack
input_ack-input_ack_example =
    input_ack-input_ack ack_message other_ack refl refl at_right after_ack none first_ack

-- The left anchor: block 0 is the old path's, and a `DYSCO_ACK` leaves.
abbrev sent_block : CbOut
sent_block = record out_block { other_path = some 1; state = syn_sent }

abbrev at_left : World
at_left = record world {
  outs = some sent_block ∷ some out_block ∷ [];
  rcbs = some (record rcb { old_dcb = some 0; new_dcb = some 1 }) ∷ [];
  dh = record (world.dh) {
    hash_out = (client_session, 0) ∷ [];
    hash_reconfig = (client_session, 0) ∷ [];
  };
  ctx = record (world.ctx) {
    skb = record packet { cmsg = record (packet.cmsg) { left_a = 16777226 } };
  };
}

abbrev syn_ack_message : Skb
syn_ack_message = record packet {
  cmsg = record (packet.cmsg) { left_a = 33554442; seq_cutoff = 7 };
}

input_syn_ack-control_output_ack_example :
    (u : World) × (control_output_ack at_left ≡ some (1, u))
    × HasOut u 0 (record sent_block { state = established })
    × Quiet (input_syn_ack syn_ack_message) u
unfolding session_eq swap16
input_syn_ack-control_output_ack_example =
    input_syn_ack-control_output_ack syn_ack_message 0 0 at_left
      (record rcb { old_dcb = some 0; new_dcb = some 1 }) sent_block refl refl refl refl refl refl
      refl refl refl

-- The same host, whose old block expects a state.
abbrev waiting_block : CbOut
waiting_block = record sent_block { state_t = true }

abbrev at_waiting : World
at_waiting = record at_left { outs = some waiting_block ∷ some out_block ∷ [] }

abbrev transferred : Ctx
transferred = record (at_left.ctx) { skb = syn_ack_message }

input_state_transferred-control_output_ack_example :
    (u : World) × (v : World) × (control_output_ack at_waiting ≡ some (1, u))
    × HasOut u 0 waiting_block
    × (input_state_transferred transferred.skb (record u { ctx = transferred }) ≡ some (none, v))
    × HasOut v 0 (record waiting_block { state = established })
unfolding session_eq swap16
input_state_transferred-control_output_ack_example =
    input_state_transferred-control_output_ack 0 0 at_waiting
      (record rcb { old_dcb = some 0; new_dcb = some 1 }) waiting_block refl refl refl refl refl
      refl transferred refl refl
