-- ===== src/System/Output.antt =====
-- kernel/common/dysco_output.c: the handlers keep what the abstract specification says.
use dysco.Base.{
  ℕ, ◌≡◌, ◌+◌, refl, Bool, true, false, ltb, if◌then◌else◌, Option, none, some, ◌==◌, ◌%◌, is_some,
  u32,
}
use dysco.Types.{Skb, CbOut, CbState, syn_sent, syn_received, established}
use dysco.Kernel.{Kernel}
use dysco.Anchor.{Step, quiet, finish_ack, view}
use dysco.Heap.{World, modify, M}
use dysco.Heap.Keeps.{BlockSpec, Keeps, Keeps-pure, Keeps-if, Keeps-bind, AllOuts}
use dysco.Heap.Keeps.Blocks.{Keeps-get_skb, AllOuts-same}
use dysco.System.Blocks.{
  handler_rules, Keeps-protocol, Step-if, Picked-if, arp-Step, create_cb_out-Keeps,
  lookup_pen_by_tag-Keeps, update_five_tuple-Keeps, insert_cb_out-Keeps, out_handle_mb-Keeps,
}
use dysco.System.Options.{parse_tcp_syn_opt_s-Step}
use dysco.Output.Session.{arp}
use dysco.Output.Path.{
  raise_cutoff, pick_ack_m, pick_path_ack, choose_path, out_translate, clamp_ack,
}
use dysco.Output.Syn.{syn_block, out_syn_ack, out_syn_first, out_syn, out_segment, out_tcp, output}

module _ ⦃k : Kernel⦄ where
  raise_cutoff-Step : (seq : ℕ) (d : CbOut) → Step (view d) (view (raise_cutoff seq d))
  raise_cutoff-Step seq d = search (Step-if, quiet)

  raise_some-Step :
      (c : Bool) (seq : ℕ) (d : CbOut) → Step (view d) (view (if c then raise_cutoff seq d else d))
  raise_some-Step true seq d = raise_cutoff-Step seq d
  raise_some-Step false seq d = quiet

  clamp_ack-Step :
      (p : ℕ) (s : Skb) (d : CbOut)
      → d.state_t ≡ false
      → d.valid_ack_cut ≡ true
      → Step (view d) (view (clamp_ack p d s).cb)
  unfolding clamp_ack
  clamp_ack-Step p s d t v = go (ltb 1 (u32 (d.ack_ctr + 1)))
    where
      go :
          (b : Bool)
          → Step (view d) (record (view d) { use_np_ack = if b then true else d.use_np_ack })
      go true = finish_ack t v
      go false = quiet

  -- The old path is given up only when the cutoff of the acks is known and no state is transferred.
  pick_path_ack-Step : (p : ℕ) (s : Skb) (d : CbOut) → Step (view d) (view (pick_path_ack p d s).cb)
  unfolding pick_path_ack
  pick_path_ack-Step p s d = search (Picked-if, quiet, clamp_ack-Step) depth 12

  renew_arp-Step :
      (s : Skb) (d : CbOut)
      → Step (view d) (view (if d.nh_mac % 4294967296 == 0 then arp s d else d))
  renew_arp-Step s d = search (Step-if, arp-Step, quiet)

module _ ⦃k : Kernel⦄ {spec : BlockSpec} where
  pick_ack_m-Keeps : (p : ℕ) → Keeps spec (pick_ack_m p)
  unfolding pick_ack_m
  pick_ack_m-Keeps p = search (handler_rules, pick_path_ack-Step)

  choose_path-Keeps : (p : ℕ) (st : CbState) (n seq : ℕ) → Keeps spec (choose_path p st n seq)
  unfolding choose_path
  choose_path-Keeps p established n seq = search (handler_rules, pick_ack_m-Keeps)
  choose_path-Keeps p syn_sent n seq = search (handler_rules, pick_ack_m-Keeps, raise_cutoff-Step)
  choose_path-Keeps p syn_received n seq = search (handler_rules, pick_ack_m-Keeps)
  choose_path-Keeps p _ n seq = search handler_rules

  out_translate-Keeps : (p : ℕ) → Keeps spec (out_translate p)
  unfolding out_translate
  out_translate-Keeps p = search (handler_rules, choose_path-Keeps, raise_some-Step) depth 20

  AllOuts-if :
      (b : Bool) (v w : World) → AllOuts spec v → AllOuts spec w → AllOuts spec (if b then v else w)
  AllOuts-if true v w h i = h
  AllOuts-if false v w h i = i

  measure-Keeps :
      (s : Skb)
      → Keeps spec (
          modify (λ v.
            if is_some v.dev_measurement then v else record v { dev_measurement = some s.dev }))
  measure-Keeps s = record { run = λ w h. AllOuts-if _ w _ h (AllOuts-same w _ refl h) }

  syn_block-Keeps : (s : Skb) (o : Option ℕ) → Keeps spec (syn_block s o)
  unfolding syn_block
  syn_block-Keeps s (some p) = Keeps-pure (some p)
  syn_block-Keeps s none =
      search (handler_rules, create_cb_out-Keeps, insert_cb_out-Keeps, measure-Keeps) depth 20

  out_syn_ack-Keeps : (s : Skb) (p : ℕ) → Keeps spec (out_syn_ack s p)
  unfolding out_syn_ack
  out_syn_ack-Keeps s p = search handler_rules depth 20

  out_syn_first-Keeps : (s : Skb) (p : ℕ) → Keeps spec (out_syn_first s p)
  unfolding out_syn_first
  out_syn_first-Keeps s p = search (handler_rules, renew_arp-Step) depth 20

  out_syn-Keeps : (o : Option ℕ) → Keeps spec (out_syn o)
  unfolding out_syn
  out_syn-Keeps o =
      search
        (
          handler_rules, syn_block-Keeps, out_syn_ack-Keeps, out_syn_first-Keeps,
          parse_tcp_syn_opt_s-Step,
        )
        depth 20

  out_segment-Keeps : (p : ℕ) → Keeps spec (out_segment p)
  unfolding out_segment
  out_segment-Keeps p = search (handler_rules, out_translate-Keeps) depth 20

  out_tcp-Keeps : Keeps spec out_tcp
  unfolding out_tcp
  out_tcp-Keeps =
      search
        (
          handler_rules, out_syn-Keeps, out_segment-Keeps, out_handle_mb-Keeps,
          lookup_pen_by_tag-Keeps, update_five_tuple-Keeps,
        )
        depth 20

  pub output-Keeps :
      (control_output : M ℕ) → Keeps spec control_output → Keeps spec (output control_output)
  unfolding output
  output-Keeps control_output h = Keeps-bind Keeps-get_skb λ s.
      Keeps-if _ _ _ (Keeps-pure 1)
        (Keeps-protocol s.ip.protocol _ _ _ h out_tcp-Keeps (Keeps-pure 1))
