-- ===== src/Csum/Incremental.antt =====
-- The incremental updates keep the ones' complement sum: what leaves the sum is replaced by
-- what enters it, modulo 65535.
use dysco.Base.{ℕ, ◌+◌, ◌*◌, ◌%◌, ◌<◌, ◌≡◌, arith, u32, not32}
use dysco.Kernel.{Kernel, KernelLaws}
use dysco.Csum.{end_around, add_carry, csum_replace4}

end_around_twice : (n : ℕ) → n < 18446744073709551616 → end_around (end_around n) < 4294967297
end_around_twice n h = omega arith

-- A 64-bit sum folded twice keeps its value modulo 65535.
fold_twice : (n : ℕ) → n < 4294967296 * 4 → u32 (end_around (end_around n)) % 65535 ≡ n % 65535
fold_twice n h = omega arith

module _ ⦃k : Kernel⦄ (laws : KernelLaws k) where
  open laws use {csum_unfold_lem, csum_fold_lem}

  -- `dysco_csum_replace4` of a 16-bit checksum, with one 32-bit word replaced by another: the new
  -- checksum balances the new word exactly as the old checksum balanced the old word.
  pub csum_replace4-balance :
      (sum from to : ℕ)
      → sum < 65536
      → from < 4294967296
      → to < 4294967296
      → (csum_replace4 sum from to + to) % 65535 ≡ (sum + from) % 65535
  unfolding csum_replace4
  csum_replace4-balance sum from to hs hf ht =
      let partial = not32 from + to + not32 (k.csum_unfold sum) in
      omega (
        arith,
        csum_unfold_lem sum,
        fold_twice partial (omega (arith, csum_unfold_lem sum)),
        csum_fold_lem (u32 (end_around (end_around partial))) (omega arith),
      )

-- `a += b; a += (b > a)` is the sum of the addresses modulo 2^32 - 1.
pub add_carry_lem :
    (a b : ℕ)
    → a < 4294967296
    → b < 4294967296
    → add_carry a b b % 4294967295 ≡ (a + b) % 4294967295
add_carry_lem a b ha hb = ground arith
