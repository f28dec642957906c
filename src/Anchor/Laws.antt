-- ===== src/Anchor/Laws.antt =====
-- What the abstract specification promises of a block's course.
use dysco.Base.{true, ◌≡◌, ◌≢◌, ◌⊎◌, arith}
use dysco.Types.{one_path, syn_sent, syn_received, established}
use dysco.Anchor.{
  Anchor, Step, quiet, send_syn, expect_state, send_syn_ack, leave_syn_sent, state_arrived,
  receive_ack, learn_cutoff, finish_seq, finish_ack, Steps, here, next, start,
}

-- The states that the program uses, and what goes with them.
pub record IsSound (v : Anchor) : Type 0 where
  pub named :
      (v.state ≡ one_path)
      ⊎ (v.state ≡ syn_sent)
      ⊎ (v.state ≡ syn_received)
      ⊎ (v.state ≡ established)
  pub old_busy : v.old_path ≡ true → v.state ≢ one_path
  pub ack_known : v.use_np_ack ≡ true → v.valid_ack_cut ≡ true

start-IsSound : IsSound start
start-IsSound = ground arith

Step-IsSound : {v t : Anchor} → Step v t → IsSound v → IsSound t
Step-IsSound quiet h = h
Step-IsSound (send_syn transfer) h = ground arith
Step-IsSound expect_state h = ground arith
Step-IsSound send_syn_ack h = ground arith
Step-IsSound (leave_syn_sent e) h = ground arith
Step-IsSound state_arrived h = ground arith
Step-IsSound (receive_ack e) h = ground arith
Step-IsSound learn_cutoff h = ground arith
Step-IsSound finish_seq h = ground arith
Step-IsSound (finish_ack e f) h = ground arith

pub Steps-IsSound : {v t : Anchor} → Steps v t → IsSound v → IsSound t
Steps-IsSound here h = h
Steps-IsSound (next r s) h = Step-IsSound s (Steps-IsSound r h)

pub Steps-start-IsSound : {v : Anchor} → Steps start v → IsSound v
Steps-start-IsSound r = Steps-IsSound r start-IsSound

-- What is never taken back.
pub record Grows (v t : Anchor) : Type 0 where
  pub old_path : v.old_path ≡ true → t.old_path ≡ true
  pub state_t : v.state_t ≡ true → t.state_t ≡ true
  pub valid_ack_cut : v.valid_ack_cut ≡ true → t.valid_ack_cut ≡ true
  pub use_np_seq : v.use_np_seq ≡ true → t.use_np_seq ≡ true
  pub use_np_ack : v.use_np_ack ≡ true → t.use_np_ack ≡ true

Step-Grows : {v t : Anchor} → Step v t → Grows v t
Step-Grows quiet = ground arith
Step-Grows (send_syn transfer) = ground arith
Step-Grows expect_state = ground arith
Step-Grows send_syn_ack = ground arith
Step-Grows (leave_syn_sent e) = ground arith
Step-Grows state_arrived = ground arith
Step-Grows (receive_ack e) = ground arith
Step-Grows learn_cutoff = ground arith
Step-Grows finish_seq = ground arith
Step-Grows (finish_ack e f) = ground arith

Grows-trans : {u v t : Anchor} → Grows u v → Grows v t → Grows u t
Grows-trans g h = ground arith

pub Steps-Grows : {v t : Anchor} → Steps v t → Grows v t
Steps-Grows here = ground arith
Steps-Grows (next r s) = Grows-trans (Steps-Grows r) (Step-Grows s)

pub Steps-trans : {u v t : Anchor} → Steps u v → Steps v t → Steps u t
Steps-trans r here = r
Steps-trans r (next q s) = next (Steps-trans r q) s
