-- ===== src/System/Input.antt =====
-- kernel/common/dysco_input.c: the handlers keep what the abstract specification says.
use dysco.Base.{ℕ, refl, Bool, not, true, false, List, [], ◌∷◌}
use dysco.Types.{Skb, CbOut, CbIn, TcpSession}
use dysco.Kernel.{Kernel}
use dysco.Anchor.{Step, quiet, learn_cutoff, finish_seq, view}
use dysco.Heap.{M, pure}
use dysco.Heap.Keeps.{BlockSpec, Keeps, Keeps-pure, Keeps-if, Keeps-maybe, Keeps-bind}
use dysco.Heap.Keeps.Blocks.{Keeps-get_skb, Keeps-put_skb, Keeps-alloc_out}
use dysco.System.Blocks.{handler_rules, Keeps-protocol, Step-if}
use dysco.Input.Blocks.{
  SynView, fill_pending, connect, insert_pending, cb_in_reverse, insert_cb_in_reverse,
  insert_forward, insert_cb_input,
}
use dysco.Input.Handler.{
  insert_tag_m, rx_initiation_new, set_ack_number_out, syn_ack_iseq, syn_ack_options, rewrite_in,
  in_syn_ack, in_syn_again, in_segment, input, input_tcp, for_addresses, receive_frame,
  handle_frame, RxResult, rx_pass, rx_consumed,
}
use dysco.Input.Paths.{
  end_two_paths, ack_past_cutoff, in_two_paths_ack, lower_ack_cutoff, in_two_paths_data_seg,
}

syn_ack_iseq-Step : (seq ack : ℕ) (d : CbOut) → Step (view d) (view (syn_ack_iseq seq ack d))
unfolding syn_ack_iseq
syn_ack_iseq-Step seq ack d = quiet

syn_ack_options-Step : (i : CbIn) (d : CbOut) → Step (view d) (view (syn_ack_options i d))
unfolding syn_ack_options
syn_ack_options-Step i d = go i.ts_ok i.sack_ok
  where
    go :
        (b c : Bool)
        → Step (view d) (view (syn_ack_options (record i { ts_ok = b; sack_ok = c }) d))
    go true true = quiet
    go true false = quiet
    go false true = quiet
    go false false = quiet

module _ ⦃k : Kernel⦄ where
  lower_ack_cutoff-Step : (seq : ℕ) (d : CbOut) → Step (view d) (view (lower_ack_cutoff seq d))
  unfolding lower_ack_cutoff
  lower_ack_cutoff-Step seq d = search (Step-if, quiet, learn_cutoff)

module _ ⦃k : Kernel⦄ {spec : BlockSpec} where
  fill_pending-Keeps : (s : Skb) (sp : SynView) (p : ℕ) → Keeps spec (fill_pending s sp p)
  unfolding fill_pending
  fill_pending-Keeps s sp p = search handler_rules depth 20

  insert_pending-Keeps : (s : Skb) (sp : SynView) → Keeps spec (insert_pending s sp)
  unfolding insert_pending
  insert_pending-Keeps s sp = search (handler_rules, fill_pending-Keeps) depth 20

  insert_cb_in_reverse-Keeps : (s : Skb) (ss : TcpSession) → Keeps spec (insert_cb_in_reverse s ss)
  unfolding insert_cb_in_reverse cb_in_reverse
  insert_cb_in_reverse-Keeps s ss = Keeps-alloc_out _ refl

  insert_forward-Keeps : (s : Skb) (sp : SynView) → Keeps spec (insert_forward s sp)
  unfolding insert_forward
  insert_forward-Keeps s sp = search (handler_rules, insert_pending-Keeps)

  connect-Keeps : (s : Skb) (sp : SynView) (q p : ℕ) → Keeps spec (connect s sp q p)
  unfolding connect
  connect-Keeps s sp q p = search handler_rules depth 20

  insert_cb_input-Keeps : (s : Skb) (sp : SynView) → Keeps spec (insert_cb_input s sp)
  unfolding insert_cb_input
  insert_cb_input-Keeps s sp =
      search (handler_rules, insert_cb_in_reverse-Keeps, insert_forward-Keeps, connect-Keeps) depth
        20

  insert_tag_m-Keeps : (s : Skb) → Keeps spec (insert_tag_m s)
  unfolding insert_tag_m
  insert_tag_m-Keeps s = search handler_rules depth 20

  rx_initiation_new-Keeps : (s : Skb) → Keeps spec (rx_initiation_new s)
  unfolding rx_initiation_new
  rx_initiation_new-Keeps s =
      search (handler_rules, insert_cb_input-Keeps, insert_tag_m-Keeps) depth 20

  set_ack_number_out-Keeps : (s : Skb) (q : ℕ) → Keeps spec (set_ack_number_out s q)
  unfolding set_ack_number_out
  set_ack_number_out-Keeps s q =
      search (handler_rules, syn_ack_iseq-Step, syn_ack_options-Step) depth 20

  rewrite_in-Keeps : (q : ℕ) → Keeps spec (rewrite_in q)
  unfolding rewrite_in
  rewrite_in-Keeps q = search handler_rules depth 20

  in_syn_ack-Keeps : (s : Skb) (q : ℕ) → Keeps spec (in_syn_ack s q)
  unfolding in_syn_ack
  in_syn_ack-Keeps s q = search (handler_rules, set_ack_number_out-Keeps, rewrite_in-Keeps) depth 20

  in_syn_again-Keeps : (s : Skb) (q : ℕ) → Keeps spec (in_syn_again s q)
  unfolding in_syn_again
  in_syn_again-Keeps s q = search (handler_rules, insert_tag_m-Keeps) depth 20

  end_two_paths-Keeps : (q : ℕ) → Keeps spec (end_two_paths q)
  unfolding end_two_paths
  end_two_paths-Keeps q = search handler_rules

  ack_past_cutoff-Keeps : (q old ack_seq : ℕ) → Keeps spec (ack_past_cutoff q old ack_seq)
  unfolding ack_past_cutoff
  ack_past_cutoff-Keeps q old ack_seq = search (handler_rules, finish_seq) depth 20

  in_two_paths_ack-Keeps : (s : Skb) (q : ℕ) → Keeps spec (in_two_paths_ack s q)
  unfolding in_two_paths_ack
  in_two_paths_ack-Keeps s q = search (handler_rules, ack_past_cutoff-Keeps) depth 20

  in_two_paths_data_seg-Keeps : (s : Skb) (q : ℕ) → Keeps spec (in_two_paths_data_seg s q)
  unfolding in_two_paths_data_seg
  in_two_paths_data_seg-Keeps s q = search (handler_rules, lower_ack_cutoff-Step) depth 20

  in_segment-Keeps : (s : Skb) (q : ℕ) → Keeps spec (in_segment s q)
  unfolding in_segment
  in_segment-Keeps s q =
      search (handler_rules, in_two_paths_ack-Keeps, in_two_paths_data_seg-Keeps, rewrite_in-Keeps)
        depth 20

  input_tcp-Keeps : Keeps spec input_tcp
  unfolding input_tcp
  input_tcp-Keeps =
      search
        (
          handler_rules, rx_initiation_new-Keeps, in_syn_ack-Keeps, in_syn_again-Keeps,
          in_segment-Keeps,
        )
        depth 20

  pub input-Keeps :
      (control_input : M ℕ) → Keeps spec control_input → Keeps spec (input control_input)
  unfolding input
  input-Keeps control_input h = Keeps-bind Keeps-get_skb λ s. Keeps-if _ _ _ (Keeps-pure rx_pass) (
      Keeps-protocol s.ip.protocol _ _ _ (Keeps-bind h λ r. Keeps-pure rx_pass) input_tcp-Keeps
        (Keeps-pure rx_pass))

  Keeps-result :
      (r : RxResult) (m n : M RxResult)
      → Keeps spec m
      → Keeps spec n
      → Keeps spec (elim r [ rx_consumed ↦ m | rx_pass ↦ n ])
  Keeps-result rx_consumed m n km kn = km
  Keeps-result rx_pass m n km kn = kn

  pub for_addresses-Keeps :
      (handler : M RxResult) (addresses : List ℕ)
      → Keeps spec handler
      → Keeps spec (for_addresses handler addresses)
  unfolding for_addresses
  for_addresses-Keeps handler [] h = Keeps-pure rx_pass
  for_addresses-Keeps handler (a ∷ addresses) h =
      let rest = for_addresses-Keeps handler addresses h in
      Keeps-bind Keeps-get_skb λ s.
        Keeps-if _ _ _ (Keeps-bind h λ r. Keeps-result r _ _ (Keeps-pure rx_consumed) rest) rest

  receive_frame-Keeps :
      (control_input : M ℕ) (addresses : List ℕ) (s : Skb)
      → Keeps spec control_input
      → Keeps spec (receive_frame control_input addresses s)
  unfolding receive_frame
  receive_frame-Keeps control_input addresses s h =
      Keeps-if s.loopback (pure rx_pass) _ (Keeps-pure rx_pass) (
        Keeps-if (not (k.is_valid_ether_addr s.eth.h_source)) (pure rx_consumed) _
          (Keeps-pure rx_consumed)
          (Keeps-maybe (k.skb_share_check s) (pure rx_consumed) _ (Keeps-pure rx_consumed) λ t.
            Keeps-bind (Keeps-put_skb t) λ _.
              for_addresses-Keeps (input control_input) addresses (input-Keeps control_input h)))

  pub handle_frame-Keeps :
      (control_input : M ℕ) (addresses : List ℕ)
      → Keeps spec control_input
      → Keeps spec (handle_frame control_input addresses)
  unfolding handle_frame
  handle_frame-Keeps control_input addresses h =
      Keeps-bind Keeps-get_skb λ s. receive_frame-Keeps control_input addresses s h
