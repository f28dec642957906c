-- ===== src/Tests/Refused.antt =====
-- The theorems on the blocks of the first SYN, with and without memory, at concrete inputs.
use dysco.Base.{arith, ◌≡◌, refl, true, false, none, some, [], ◌∷◌, length}
use dysco.Chain.{read_hops}
use dysco.Heap.{World, load_out, free_out, alloc_out, kmalloc_ok, modify_out, insert_pen}
use dysco.Heap.Refused.{at, Reverted}
use dysco.Input.Blocks.{SynView, fill_pending, insert_pending, insert_cb_input}
use dysco.Main.Removal.{free_hash_out, destroy_sessions, destroy_blocks}
use dysco.Main.Removal.Twice.{IsPending, destroy_blocks-insert_pending}
use dysco.Input.Refused.{insert_cb_input-Reverted}
use dysco.Input.Linked.{Linked, insert_cb_input-Linked}
use dysco.Types.{Skb}
use dysco.Tests.Host.{host, client_session, out_block, packet, world, host_laws}

abbrev two_hops : SynView
two_hops = record { ss = client_session; sc_len = 2; ptr = 0 }

-- The list of hops of the pending entry is refused.
abbrev short_of_memory : World
short_of_memory = record world {
  outs = some out_block ∷ [];
  grants = true ∷ true ∷ true ∷ false ∷ [];
}

insert_cb_input-Reverted_example :
    (u : World) × (insert_cb_input packet two_hops short_of_memory ≡ some (none, u))
    × Reverted short_of_memory u
insert_cb_input-Reverted_example = insert_cb_input-Reverted packet two_hops short_of_memory refl

-- The length of the chain, one hop of 4 bytes behind it.
abbrev carrier : Skb
carrier = record packet {
  body =
      0 ∷ 0 ∷ 0 ∷ 0 ∷ 0 ∷ 0 ∷ 0 ∷ 0 ∷ 0 ∷ 0 ∷ 0 ∷ 0 ∷ 0 ∷ 0 ∷ 0 ∷ 0 ∷ 2 ∷ 0 ∷ 0 ∷ 0 ∷ 10 ∷ 0 ∷ 0 ∷ 3
      ∷ [];
}

insert_cb_input-Linked_example :
    (u : World) × (insert_cb_input carrier two_hops world ≡ some (some (length world.ins), u))
    × Linked carrier two_hops u (length world.ins) (length world.outs)
unfolding read_hops
insert_cb_input-Linked_example =
    insert_cb_input-Linked host_laws carrier two_hops world (50331658 ∷ []) refl refl refl refl

abbrev pended : World
pended = elim (insert_pending carrier two_hops world) [ none ↦ world | some (b, u) ↦ u ]

pended_run : insert_pending carrier two_hops world ≡ some (true, pended)
unfolding insert_pending fill_pending alloc_out kmalloc_ok modify_out insert_pen read_hops
pended_run = refl

-- The first four tables of the namespace with the pending entry.
abbrev half_destroyed : World
half_destroyed = elim (destroy_sessions pended) [ none ↦ world | some (a, u) ↦ u ]

half_destroyed_run : destroy_sessions pended ≡ some (tt, half_destroyed)
unfolding destroy_sessions insert_pending alloc_out kmalloc_ok read_hops modify_out insert_pen
    load_out free_out
half_destroyed_run = refl

pended-IsPending : IsPending 0 pended
unfolding insert_pending fill_pending alloc_out kmalloc_ok modify_out insert_pen read_hops
pended-IsPending = record { pen = omega arith; tag = omega arith }

destroy_blocks-insert_pending_example :
    IsPending 0 pended
    × (at half_destroyed.outs 0 ≡ none)
    × (free_hash_out 0 half_destroyed ≡ none)
    × (destroy_blocks pended ≡ none)
destroy_blocks-insert_pending_example =
    destroy_blocks-insert_pending host_laws carrier two_hops world pended pended half_destroyed
      pended_run refl refl pended-IsPending half_destroyed_run
