-- ===== src/Anchor.antt =====
-- An abstract specification of one output block: how far it has got in a reconfiguration. It
-- forgets numbers, addresses and pointers, and names the events of the protocol.
pub mod Laws
use dysco.Base.{Bool, true, false, ◌≡◌, if◌then◌else◌}
use dysco.Types.{CbOut, CbState, one_path, syn_sent, syn_received, established}

pub record Anchor : Type 0 where
  pub state : CbState
  pub old_path : Bool
  pub state_t : Bool
  pub valid_ack_cut : Bool
  pub use_np_seq : Bool
  pub use_np_ack : Bool

-- What the specification sees of a block.
abbrev pub view : CbOut → Anchor
view b = record {
  state = b.state;
  old_path = b.old_path;
  state_t = b.state_t;
  valid_ack_cut = b.valid_ack_cut;
  use_np_seq = b.use_np_seq;
  use_np_ack = b.use_np_ack;
}

-- A block of a session that has not been reconfigured.
abbrev pub start : Anchor
start = record {
  state = one_path;
  old_path = false;
  state_t = false;
  valid_ack_cut = false;
  use_np_seq = false;
  use_np_ack = false;
}

pub data Step (v : Anchor) : Anchor → Type 0 where
  -- Anything that does not concern the reconfiguration.
  quiet : Step v v
  -- The left anchor sends `DYSCO_SYN`, with or without a state transfer.
  send_syn :
      (transfer : Bool)
      → Step v (record v {
        state = syn_sent;
        old_path = true;
        state_t = if transfer then true else v.state_t;
      })
  -- The right anchor receives a `DYSCO_SYN` that asks for a state transfer.
  expect_state : Step v (record v { state_t = true })
  -- The right anchor sends `DYSCO_SYN_ACK`.
  send_syn_ack : Step v (record v { state = syn_received; old_path = true })
  -- The left anchor sends `DYSCO_ACK`, or receives word of the state.
  leave_syn_sent : v.state ≡ syn_sent → Step v (record v { state = established })
  -- The right anchor receives word of the state.
  state_arrived : Step v (record v { state = established })
  -- The right anchor receives `DYSCO_ACK` without a state transfer.
  receive_ack : v.state_t ≡ false → Step v (record v { state = established; valid_ack_cut = true })
  -- The left anchor receives `DYSCO_SYN_ACK`, or data has come in on the new path.
  learn_cutoff : Step v (record v { valid_ack_cut = true })
  -- All that was sent on the old path has been acknowledged.
  finish_seq : Step v (record v { use_np_seq = true })
  -- The acks have passed their cutoff.
  finish_ack : v.state_t ≡ false → v.valid_ack_cut ≡ true → Step v (record v { use_np_ack = true })

pub data Steps (v : Anchor) : Anchor → Type 0 where
  here : Steps v v
  next : {u t : Anchor} → Steps v u → Step u t → Steps v t
