-- ===== src/Tests/System.antt =====
-- The theorems on runs of the whole module at concrete inputs.
use dysco.Base.{
  ℕ, ◌≡◌, refl, Bool, true, Option, none, some, List, [], ◌∷◌, get_elem?, htons, swap16,
}
use dysco.Types.{CbOut, Skb, Ctx, is_established, is_syn_sent, udp, policy, ack, session_eq}
use dysco.Anchor.{view, Steps}
use dysco.Anchor.Laws.{IsSound, Grows}
use dysco.Heap.{
  World, load_out, load_in, load_rcb, modify_out, modify_in, modify_rcb, update_out, alloc_out,
  alloc_in, alloc_rcb, kmalloc_ok, deref, insert_out, insert_in, insert_reconfig,
}
use dysco.Heap.Laws.{HasOut}
use dysco.Chain.{load16, read_hops, add_sc}
use dysco.TcpOptions.{parse_tcp_syn_opt_s}
use dysco.TcpOptions.Step.{step}
use dysco.Rewrite.Output.{out_hdr_rewrite}
use dysco.Output.Session.{match_policy, arp, create_cb_out, lookup_pen_by_tag, insert_cb_out}
use dysco.Output.Syn.{output}
use dysco.Control.Output.{control_output}
use dysco.Control.Anchors.{control_port, replace_cb_left_a}
use dysco.Main.Policies.{user_kernel_com}
use dysco.System.{Action, message, packet_out, surroundings, perform_all}
use dysco.System.Course.{perform_all-IsSound, perform_all-Grows}
use dysco.Tests.Host.{host, out_block, packet, world}

abbrev accept_all : ℕ → List ℕ → Option (Skb → Bool)
accept_all len bytes = some (λ s. true)

abbrev with_skb : Skb → Ctx
with_skb s = record (world.ctx) { skb = s }

-- A `DYSCO_SYN` or `DYSCO_ACK` of the left anchor.
abbrev control_message : Skb
control_message = record packet {
  ip = record (packet.ip) { protocol = udp };
  uh = record { source = 0; dest = control_port; len = htons 200 };
  cmsg = record (packet.cmsg) { left_a = 16777226 };
}

-- A policy, the session's SYN, and a reconfiguration with this host as its left anchor.
abbrev first_part : List Action
first_part =
    message policy (1 ∷ 0 ∷ 0 ∷ 0 ∷ 10 ∷ 0 ∷ 0 ∷ 3 ∷ 0 ∷ 0 ∷ [])
    ∷ packet_out (with_skb packet) (16777226 ∷ [])
    ∷ packet_out (with_skb control_message) (16777226 ∷ [])
    ∷ []

abbrev outcome : Option (Unit {0} × World) → World
outcome none = world
outcome (some p) = p.1

abbrev opened : World
opened = outcome (perform_all accept_all first_part world)

abbrev block_at : World → ℕ → CbOut
block_at w p = elim (get_elem? w.outs p) [
  | none ↦ out_block
  | some o ↦ elim o [ none ↦ out_block | some b ↦ b ]
]

opened_run : perform_all accept_all first_part world ≡ some (tt, opened)
unfolding perform_all user_kernel_com kmalloc_ok load16 read_hops output match_policy create_cb_out
    alloc_out arp modify_out insert_cb_out load_out insert_out alloc_in insert_in update_out
    parse_tcp_syn_opt_s add_sc out_hdr_rewrite control_output deref load_in alloc_rcb modify_rcb
    insert_reconfig load_rcb modify_in lookup_pen_by_tag step swap16 session_eq
opened_run = refl

opened_block : HasOut opened 0 (block_at opened 0)
unfolding perform_all user_kernel_com kmalloc_ok load16 read_hops output match_policy create_cb_out
    alloc_out arp modify_out insert_cb_out load_out insert_out alloc_in insert_in update_out
    parse_tcp_syn_opt_s add_sc out_hdr_rewrite control_output deref load_in alloc_rcb modify_rcb
    insert_reconfig load_rcb modify_in lookup_pen_by_tag step swap16 session_eq
opened_block = refl

-- The block of the session has become that of the old path.
opened_state :
    (is_syn_sent (block_at opened 0).state ≡ true) × ((block_at opened 0).old_path ≡ true)
unfolding perform_all user_kernel_com kmalloc_ok load16 read_hops output match_policy create_cb_out
    alloc_out arp modify_out insert_cb_out load_out insert_out alloc_in insert_in update_out
    parse_tcp_syn_opt_s add_sc out_hdr_rewrite control_output deref load_in alloc_rcb modify_rcb
    insert_reconfig load_rcb modify_in lookup_pen_by_tag step swap16 session_eq
opened_state = (refl, refl)

perform_all-IsSound_example : IsSound (view (block_at opened 0))
perform_all-IsSound_example =
    perform_all-IsSound accept_all first_part world opened 0 (block_at opened 0) refl opened_run
      opened_block

-- Then the `DYSCO_ACK` leaves.
abbrev second_part : List Action
second_part =
    surroundings 5 []
    ∷ packet_out
        (with_skb (record control_message { cmsg = record (control_message.cmsg) { mtype = ack } }))
        (16777226 ∷ [])
    ∷ []

abbrev switched : World
switched = outcome (perform_all accept_all second_part opened)

switched_run : perform_all accept_all second_part opened ≡ some (tt, switched)
unfolding perform_all user_kernel_com kmalloc_ok load16 read_hops output match_policy create_cb_out
    alloc_out arp modify_out insert_cb_out load_out insert_out alloc_in insert_in update_out
    parse_tcp_syn_opt_s add_sc out_hdr_rewrite control_output deref load_in alloc_rcb modify_rcb
    insert_reconfig load_rcb modify_in lookup_pen_by_tag step swap16 session_eq replace_cb_left_a
switched_run = refl

switched_block : HasOut switched 0 (block_at switched 0)
unfolding perform_all user_kernel_com kmalloc_ok load16 read_hops output match_policy create_cb_out
    alloc_out arp modify_out insert_cb_out load_out insert_out alloc_in insert_in update_out
    parse_tcp_syn_opt_s add_sc out_hdr_rewrite control_output deref load_in alloc_rcb modify_rcb
    insert_reconfig load_rcb modify_in lookup_pen_by_tag step swap16 session_eq replace_cb_left_a
switched_block = refl

switched_state : is_established (block_at switched 0).state ≡ true
unfolding perform_all user_kernel_com kmalloc_ok load16 read_hops output match_policy create_cb_out
    alloc_out arp modify_out insert_cb_out load_out insert_out alloc_in insert_in update_out
    parse_tcp_syn_opt_s add_sc out_hdr_rewrite control_output deref load_in alloc_rcb modify_rcb
    insert_reconfig load_rcb modify_in lookup_pen_by_tag step swap16 session_eq replace_cb_left_a
switched_state = refl

perform_all-Grows_example :
    Steps (view (block_at opened 0)) (view (block_at switched 0))
    × Grows (view (block_at opened 0)) (view (block_at switched 0))
perform_all-Grows_example =
    perform_all-Grows accept_all second_part opened switched 0 (block_at switched 0)
      (block_at opened 0) opened_block switched_run switched_block
