-- ===== src/Csum.antt =====
-- kernel/common/dysco.h: the incremental updates of the Internet checksum.
pub mod Incremental
use dysco.Base.{ℕ, ◌+◌, ◌/◌, ◌%◌, Bool, true, false, not32, not16, u32, ltb, if◌then◌else◌}
use dysco.Types.{Skb, TcpHdr, IpSummed, checksum_partial, checksum_complete}
use dysco.Kernel.{Kernel}

-- One step of adding the carries of a 64-bit sum back to its low 32 bits.
abbrev pub end_around : ℕ → ℕ
end_around n = n % 4294967296 + n / 4294967296

-- The sum of two addresses with the carry out of 32 bits added back: `a += b; a += (b > a)`.
-- The last argument is the word that the source compares with.
abbrev pub add_carry : ℕ → ℕ → ℕ → ℕ
add_carry a b compared = let s = u32 (a + b) in u32 (s + (if ltb s compared then 1 else 0))

module _ ⦃k : Kernel⦄ where
  unfoldable pub csum_replace4 : ℕ → ℕ → ℕ → ℕ
  csum_replace4 sum from to =
      let unfold_ = not32 (k.csum_unfold sum) in
      let partial = not32 from + to + unfold_ in
      let result = u32 (end_around (end_around partial)) in k.csum_fold result

  unfoldable pub csum_replace2 : ℕ → ℕ → ℕ → ℕ
  csum_replace2 sum from to = csum_replace4 sum from to

  -- The full-checksum case of `dysco_inet_proto_csum_replace4`: the TCP checksum, and for a
  -- pseudo-header word of a packet whose device summed it, `skb->csum`.
  unfoldable pub replace4_full : Skb → ℕ → ℕ → Bool → Bool → Skb
  replace4_full skb from to pseudohdr complete =
      let cpartial = not32 from + to in
      let partial = cpartial + not32 (k.csum_unfold skb.th.check) in
      let result = u32 (end_around (end_around partial)) in
      let skb' = record skb { th = record (skb.th) { check = k.csum_fold result } } in
      if complete
      then (if pseudohdr
          then record skb' {
            csum = not32 (u32 (end_around (end_around (cpartial + not32 skb.csum))));
          }
          else skb')
      else skb'

  -- The checksum-offload case: only a pseudo-header word matters.
  unfoldable pub replace4_partial : Skb → ℕ → ℕ → Bool → Skb
  replace4_partial skb from to pseudohdr =
      let partial = not32 from + to + k.csum_unfold skb.th.check in
      let result = u32 (end_around (end_around partial)) in
      if pseudohdr
      then record skb { th = record (skb.th) { check = not16 (k.csum_fold result) } }
      else skb

  unfoldable pub inet_proto_csum_replace4 : Skb → ℕ → ℕ → Bool → Skb
  unfolding replace4_full replace4_partial
  inet_proto_csum_replace4 skb from to pseudohdr = elim skb.ip_summed [
    | checksum_partial ↦ replace4_partial skb from to pseudohdr
    | checksum_complete ↦ replace4_full skb from to pseudohdr true
    | _ ↦ replace4_full skb from to pseudohdr false
  ]
