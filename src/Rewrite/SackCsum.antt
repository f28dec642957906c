-- ===== src/Rewrite/SackCsum.antt =====
-- kernel/common/dysco_output.c, `dysco_tcp_sack_csum`: the translation of the SACK blocks that
-- corrects the checksum once, at its end. The module calls `dysco_tcp_sack` instead.
pub mod Agrees
use dysco.Base.{
  ℕ, zero, suc, ◌+◌, ◌-◌, ◌%◌, Bool, true, false, ◌&&◌, Option, none, some, ◌==◌, leb,
  if◌then◌else◌, and_then, htonl, ntohl, u32,
}
use dysco.Types.{Ctx, IpSummed, checksum_partial}
use dysco.Kernel.{Kernel}
use dysco.Csum.{end_around, inet_proto_csum_replace4}
use dysco.TcpOptions.Step.{stop, skip, option, fault, step, kind_sack, load32, options_length}
use dysco.Rewrite.Fields.{shift, store32, set_body}

-- The words that were replaced and their replacements, added up in 64 bits.
pub record Sums : Type 0 where
  pub from64 : ℕ
  pub to64 : ℕ
  pub fix_checksum : Bool

abbrev add64 : ℕ → ℕ → ℕ
add64 a b = (a + b) % 18446744073709551616

abbrev sums_up : IpSummed → Bool
sums_up checksum_partial = false
sums_up _ = true

-- One block at `lptr`.
unfoldable pub csum_block : ℕ → Bool → ℕ → Ctx × Sums → Option (Ctx × Sums)
unfolding load32 store32
csum_block delta add lptr (c, t) = and_then (load32 c.skb.body lptr) λ left_edge.
    and_then (load32 c.skb.body (lptr + 4)) λ right_edge.
      let new_ack_l = htonl (shift add (ntohl left_edge) delta) in
      let new_ack_r = htonl (shift add (ntohl right_edge) delta) in
      let t' =
        if sums_up c.skb.ip_summed
        then record {
          from64 = add64 (add64 t.from64 left_edge) right_edge;
          to64 = add64 (add64 t.to64 new_ack_l) new_ack_r;
          fix_checksum = true;
        }
        else t in
      let body' = store32 (lptr + 4) new_ack_r (store32 lptr new_ack_l c.skb.body) in
      some
        (record c { skb = set_body body' c.skb; tcp_sack_rewrites = c.tcp_sack_rewrites + 1 }, t')

unfoldable pub csum_blocks : ℕ → ℕ → Bool → ℕ → ℕ → Ctx × Sums → Option (Ctx × Sums)
unfolding csum_block
csum_blocks zero delta add blen lptr x = none
csum_blocks (suc fuel) delta add blen lptr x = elim (blen == 0) [
  | true ↦ some x
  | false ↦
      and_then (csum_block delta add lptr x) (csum_blocks fuel delta add (blen - 8) (lptr + 8))
]

unfoldable pub csum_option : ℕ → Bool → ℕ → ℕ → ℕ → Ctx × Sums → Option (Ctx × Sums)
unfolding csum_blocks
csum_option delta add opcode opsize ptr x =
    if (opcode == kind_sack) && leb 10 opsize && ((opsize - 2) % 8 == 0)
    then csum_blocks (suc opsize) delta add (opsize - 2) ptr x
    else some x

-- Whether the loop was left at its head, and what it leaves. At an end-of-list option, and at an
-- option of a wrong length, the function returns without correcting the checksum.
unfoldable pub csum_loop : ℕ → ℕ → Bool → ℕ → ℕ → Ctx × Sums → Option (Bool × Ctx × Sums)
unfolding csum_option step
csum_loop zero delta add ptr left x = none
csum_loop (suc fuel) delta add ptr left x = elim (step x.0.skb.body ptr left) [
  | stop ↦ some (left == 0, x.0, x.1)
  | fault ↦ none
  | skip ↦ csum_loop fuel delta add (ptr + 1) (left - 1) x
  | option opcode opsize ↦
      and_then (csum_option delta add opcode opsize (ptr + 2) x)
        (csum_loop fuel delta add (ptr + opsize) (left - opsize))
]

module _ ⦃k : Kernel⦄ where
  -- The end of the function: the sums are folded to 32 bits.
  unfoldable pub fix_sums : Bool × Ctx × Sums → Ctx
  unfolding inet_proto_csum_replace4
  fix_sums (at_head, c, t) =
      if at_head && t.fix_checksum
      then record c {
        skb =
            inet_proto_csum_replace4 c.skb (u32 (end_around (end_around t.from64)))
              (u32 (end_around (end_around t.to64))) false;
      }
      else c

  unfoldable pub tcp_sack_csum : ℕ → Bool → Ctx → Option Ctx
  unfolding csum_loop fix_sums
  tcp_sack_csum delta add c =
      let n = options_length c.skb in
      let start : Sums = record { from64 = 0; to64 = 0; fix_checksum = false } in
      and_then (csum_loop (suc n) delta add 0 n (c, start)) λ x. some (fix_sums x)
