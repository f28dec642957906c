-- ===== src/Rewrite/Sack.antt =====
-- kernel/common/dysco_output.c, `dysco_tcp_sack`: the edges of the selective acknowledgements
-- are translated as the acknowledgement number is.
pub mod Bounds
use dysco.Base.{
  ℕ, zero, suc, ◌+◌, ◌-◌, ◌%◌, Bool, true, false, ◌&&◌, Option, none, some, ◌==◌, leb,
  if◌then◌else◌, and_then, htonl, ntohl,
}
use dysco.Types.{Ctx}
use dysco.Kernel.{Kernel}
use dysco.Csum.{inet_proto_csum_replace4}
use dysco.TcpOptions.Step.{stop, skip, option, fault, step, kind_sack, load32, options_length}
use dysco.Rewrite.Fields.{shift, store32, set_body}

module _ ⦃k : Kernel⦄ where
  -- One block at `lptr`: both edges are read, the checksum is corrected for both, and both are
  -- written.
  unfoldable pub sack_block : ℕ → Bool → ℕ → Ctx → Option Ctx
  unfolding load32 store32
  sack_block delta add lptr c = and_then (load32 c.skb.body lptr) λ left_edge.
      and_then (load32 c.skb.body (lptr + 4)) λ right_edge.
        let new_ack_l = htonl (shift add (ntohl left_edge) delta) in
        let new_ack_r = htonl (shift add (ntohl right_edge) delta) in
        let s1 = inet_proto_csum_replace4 c.skb left_edge new_ack_l false in
        let s2 = inet_proto_csum_replace4 s1 right_edge new_ack_r false in
        let body' = store32 (lptr + 4) new_ack_r (store32 lptr new_ack_l s2.body) in
        some (record c { skb = set_body body' s2; tcp_sack_rewrites = c.tcp_sack_rewrites + 1 })

  -- `while (blen > 0)`, eight bytes a round.
  unfoldable pub sack_blocks : ℕ → ℕ → Bool → ℕ → ℕ → Ctx → Option Ctx
  unfolding sack_block
  sack_blocks zero delta add blen lptr c = none
  sack_blocks (suc fuel) delta add blen lptr c = elim (blen == 0) [
    | true ↦ some c
    | false ↦
        and_then (sack_block delta add lptr c) (sack_blocks fuel delta add (blen - 8) (lptr + 8))
  ]

  -- A SACK option has at least one block, and whole blocks only; any other length is left alone.
  unfoldable pub sack_option : ℕ → Bool → ℕ → ℕ → ℕ → Ctx → Option Ctx
  unfolding sack_blocks
  sack_option delta add opcode opsize ptr c =
      if (opcode == kind_sack) && leb 10 opsize && ((opsize - 2) % 8 == 0)
      then sack_blocks (suc opsize) delta add (opsize - 2) ptr c
      else some c

  unfoldable pub tcp_sack_loop : ℕ → ℕ → Bool → ℕ → ℕ → Ctx → Option Ctx
  unfolding sack_option
  tcp_sack_loop zero delta add ptr left c = none
  tcp_sack_loop (suc fuel) delta add ptr left c = elim (step c.skb.body ptr left) [
    | stop ↦ some c
    | fault ↦ none
    | skip ↦ tcp_sack_loop fuel delta add (ptr + 1) (left - 1) c
    | option opcode opsize ↦
        and_then (sack_option delta add opcode opsize (ptr + 2) c)
          (tcp_sack_loop fuel delta add (ptr + opsize) (left - opsize))
  ]

  unfoldable pub tcp_sack : ℕ → Bool → Ctx → Option Ctx
  unfolding tcp_sack_loop
  tcp_sack delta add c = let n = options_length c.skb in tcp_sack_loop (suc n) delta add 0 n c
