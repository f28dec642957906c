-- ===== src/System/Control.antt =====
-- kernel/common/dysco_control_input.c and dysco_control_output.c: the handlers keep what the
-- abstract specification says.
use dysco.Base.{ℕ, ◌≡◌, refl, ◌∙◌, Bool, true, false, none, some, List, if◌then◌else◌, ◌==◌}
use dysco.Types.{
  Skb, CbOut, CbState, CbReconfig, ControlMessage, MsgType, syn, syn_ack, ack, state_transferred,
  established, syn_sent, is_syn_sent,
}
use dysco.Kernel.{Kernel}
use dysco.Anchor.{
  Anchor, Step, quiet, send_syn, expect_state, send_syn_ack, leave_syn_sent, state_arrived,
  receive_ack, learn_cutoff, view,
}
use dysco.Heap.{alloc_out}
use dysco.Heap.Keeps.{BlockSpec, Keeps, Keeps-pure}
use dysco.Heap.Keeps.Blocks.{Keeps-alloc_out}
use dysco.System.Blocks.{
  handler_rules, Step-if, arp-Step, allocate_ports_m-Keeps, insert_cb_out-Keeps,
  insert_cb_out_reverse-Keeps,
}
use dysco.Output.Session.{arp}
use dysco.Control.Deltas.{compute_deltas_out, deltas_out_ts, deltas_out_ws, deltas_out_seq}
use dysco.Control.Anchors.{replace_cb_right_a, replace_cb_left_a}
use dysco.Control.Splice.{iif_of, ctl_save_rcv_window}
use dysco.Control.Input.{
  insert_rcb_control_input, build_cb_in_reverse, control_config_right_a, control_reconfig_in,
  input_syn, learn_ack_cutoff, input_syn_ack, establish, input_ack, input_state_transferred,
  input_message, control_input,
}
use dysco.Control.Output.{
  new_path_block, insert_cb_control, middle_block, control_insert_out, start_old_path,
  open_new_path, output_syn_left, output_syn_middle, control_output_syn, control_output_ack,
  output_message, control_output,
}

-- The numbers, timestamps and window factors of the two paths.
view-if :
    (b : Bool) (x y : CbOut) (v : Anchor) → view x ≡ v → view y ≡ v → view (if b then x else y) ≡ v
view-if true x y v h i = h
view-if false x y v h i = i

module _ (o : CbOut) (rcb : CbReconfig) where
  view-deltas_out_ts : (d : CbOut) → view (deltas_out_ts d o rcb) ≡ view d
  view-deltas_out_ts d = view-if (rcb.left_its == 0) _ _ (view d) refl refl

  view-deltas_out_ws : (d : CbOut) → view (deltas_out_ws d o rcb) ≡ view d
  view-deltas_out_ws d = view-if (rcb.left_iwsr == 0) _ _ (view d) refl refl

  view-compute_deltas_out : (d : CbOut) → view (compute_deltas_out d o rcb) ≡ view d
  unfolding compute_deltas_out
  view-compute_deltas_out d =
      view-deltas_out_ws (deltas_out_ts (deltas_out_seq d o) o rcb)
      ∙ view-deltas_out_ts (deltas_out_seq d o)

  compute_deltas_out-Step : (d : CbOut) → Step (view d) (view (compute_deltas_out d o rcb))
  compute_deltas_out-Step d = rw (view-compute_deltas_out d) quiet

is_syn_sent_eq : (s : CbState) → is_syn_sent s ≡ true → s ≡ syn_sent
is_syn_sent_eq syn_sent e = refl
is_syn_sent_eq _ e = absurd cc

finish_syn_sent-Step :
    (d : CbOut)
    → Step (view d) (view (if is_syn_sent d.state then record d { state = established } else d))
finish_syn_sent-Step d =
    Step-if (is_syn_sent d.state) (record d { state = established }) d
      (λ e. leave_syn_sent (is_syn_sent_eq d.state e)) λ _. quiet

expect_state-Step :
    (b : Bool) (d : CbOut) → Step (view d) (view (if b then record d { state_t = true } else d))
expect_state-Step true d = expect_state
expect_state-Step false d = quiet

module _ ⦃k : Kernel⦄ where
  learn_ack_cutoff-Step :
      (cutoff : ℕ) (d : CbOut) → Step (view d) (view (learn_ack_cutoff cutoff d))
  learn_ack_cutoff-Step cutoff d = search (Step-if, quiet, learn_cutoff)

  establish-Step : (cutoff : ℕ) (d : CbOut) → Step (view d) (view (establish cutoff d))
  establish-Step cutoff d = Step-if d.state_t _ _ (λ _. quiet) receive_ack

  start_old_path-Step : (b : Bool) (p : ℕ) (d : CbOut) → Step (view d) (view (start_old_path b p d))
  start_old_path-Step b p d = send_syn b

  other_path-Step :
      (s : Skb) (p : ℕ) (d : CbOut)
      → Step (view d) (view (record (arp s d) { other_path = some p }))
  other_path-Step s p d = arp-Step s d

module _ ⦃k : Kernel⦄ {spec : BlockSpec} where
  replace_cb_right_a-Keeps : Keeps spec replace_cb_right_a
  unfolding replace_cb_right_a
  replace_cb_right_a-Keeps = search (handler_rules, send_syn_ack) depth 20

  replace_cb_left_a-Keeps : (r : ℕ) → Keeps spec (replace_cb_left_a r)
  unfolding replace_cb_left_a
  replace_cb_left_a-Keeps r = search (handler_rules, finish_syn_sent-Step) depth 20

  insert_rcb_control_input-Keeps : (s : Skb) → Keeps spec (insert_rcb_control_input s)
  unfolding insert_rcb_control_input
  insert_rcb_control_input-Keeps s = search handler_rules depth 20

  control_config_right_a-Keeps :
      (m : ControlMessage) (r q p : ℕ) → Keeps spec (control_config_right_a m r q p)
  unfolding control_config_right_a
  control_config_right_a-Keeps m r q p =
      search (handler_rules, compute_deltas_out-Step, expect_state-Step) depth 30

  reverse_block-Keeps :
      (s : Skb) (rcb : CbReconfig) → Keeps spec (alloc_out (build_cb_in_reverse s rcb))
  unfolding build_cb_in_reverse
  reverse_block-Keeps s rcb = Keeps-alloc_out _ refl

  control_reconfig_in-Keeps : (s : Skb) (r : ℕ) → Keeps spec (control_reconfig_in s r)
  unfolding control_reconfig_in
  control_reconfig_in-Keeps s r =
      search (handler_rules, reverse_block-Keeps, control_config_right_a-Keeps) depth 30

  input_syn-Keeps : (s : Skb) → Keeps spec (input_syn s)
  unfolding input_syn
  input_syn-Keeps s =
      search (handler_rules, insert_rcb_control_input-Keeps, control_reconfig_in-Keeps) depth 20

  input_syn_ack-Keeps : (s : Skb) → Keeps spec (input_syn_ack s)
  unfolding input_syn_ack
  input_syn_ack-Keeps s = search (handler_rules, learn_ack_cutoff-Step) depth 20

  input_ack-Keeps : (s : Skb) → Keeps spec (input_ack s)
  unfolding input_ack
  input_ack-Keeps s = search (handler_rules, establish-Step) depth 20

  input_state_transferred-Keeps : (s : Skb) → Keeps spec (input_state_transferred s)
  unfolding input_state_transferred
  input_state_transferred-Keeps s =
      search (handler_rules, replace_cb_left_a-Keeps, state_arrived) depth 20

  input_message-Keeps : (s : Skb) (t : MsgType) → Keeps spec (input_message s t)
  unfolding input_message
  input_message-Keeps s syn = input_syn-Keeps s
  input_message-Keeps s syn_ack = input_syn_ack-Keeps s
  input_message-Keeps s ack = input_ack-Keeps s
  input_message-Keeps s state_transferred = input_state_transferred-Keeps s
  input_message-Keeps s _ = Keeps-pure none

  pub control_input-Keeps : Keeps spec control_input
  unfolding control_input
  control_input-Keeps = search (handler_rules, input_message-Keeps) depth 20

  insert_cb_control-Keeps : Keeps spec insert_cb_control
  unfolding insert_cb_control
  insert_cb_control-Keeps = search (handler_rules, allocate_ports_m-Keeps) depth 20

  middle_block-Keeps : (rcb : CbReconfig) → Keeps spec (alloc_out (middle_block rcb))
  unfolding middle_block
  middle_block-Keeps rcb = Keeps-alloc_out _ refl

  new_path_block-Keeps : (rcb : CbReconfig) → Keeps spec (alloc_out (new_path_block rcb))
  unfolding new_path_block
  new_path_block-Keeps rcb = Keeps-alloc_out _ refl

  control_insert_out-Keeps : (r : ℕ) → Keeps spec (control_insert_out r)
  unfolding control_insert_out
  control_insert_out-Keeps r =
      search (handler_rules, middle_block-Keeps, arp-Step, insert_cb_out-Keeps) depth 30

  open_new_path-Keeps : (r old : ℕ) → Keeps spec (open_new_path r old)
  unfolding open_new_path
  open_new_path-Keeps r old =
      search
        (
          handler_rules, new_path_block-Keeps, other_path-Step, insert_cb_out_reverse-Keeps,
          start_old_path-Step,
        )
        depth 30

  output_syn_left-Keeps : Keeps spec output_syn_left
  unfolding output_syn_left
  output_syn_left-Keeps =
      search (handler_rules, insert_cb_control-Keeps, open_new_path-Keeps) depth 20

  output_syn_middle-Keeps : (again : Bool) → Keeps spec (output_syn_middle again)
  unfolding output_syn_middle
  output_syn_middle-Keeps again =
      search (handler_rules, insert_cb_control-Keeps, control_insert_out-Keeps) depth 20

  control_output_syn-Keeps : Keeps spec control_output_syn
  unfolding control_output_syn
  control_output_syn-Keeps =
      search (handler_rules, output_syn_left-Keeps, output_syn_middle-Keeps) depth 20

  control_output_ack-Keeps : Keeps spec control_output_ack
  unfolding control_output_ack
  control_output_ack-Keeps = search (handler_rules, replace_cb_left_a-Keeps) depth 20

  output_message-Keeps : (s : Skb) (t : MsgType) → Keeps spec (output_message s t)
  unfolding output_message
  output_message-Keeps s syn = control_output_syn-Keeps
  output_message-Keeps s syn_ack = search (handler_rules, replace_cb_right_a-Keeps) depth 20
  output_message-Keeps s ack = control_output_ack-Keeps
  output_message-Keeps s _ = Keeps-pure 1

  iif_of-Keeps : (d : CbOut) → Keeps spec (iif_of d)
  unfolding iif_of
  iif_of-Keeps d = search handler_rules depth 20

  ctl_save_rcv_window-Keeps : (m : ControlMessage) → Keeps spec (ctl_save_rcv_window m)
  unfolding ctl_save_rcv_window
  ctl_save_rcv_window-Keeps m = search (handler_rules, iif_of-Keeps) depth 40

  pub control_output-Keeps : (addresses : List ℕ) → Keeps spec (control_output addresses)
  unfolding control_output
  control_output-Keeps addresses =
      search (handler_rules, ctl_save_rcv_window-Keeps, output_message-Keeps) depth 20
