-- ===== src/Rewrite/Addresses.antt =====
-- The IP header's checksum when the addresses of a session are exchanged for those of its
-- subsession, or back.
use dysco.Base.{ℕ, ◌+◌, ◌%◌, ◌<◌, ◌≡◌, arith, u32, ltb, Bool, true, ap, ◌∙◌, if◌then◌else◌}
use dysco.Types.{CbOut, CbIn, Skb, IpHdr}
use dysco.Kernel.{Kernel, KernelLaws}
use dysco.Csum.{add_carry, csum_replace4}
use dysco.Csum.Incremental.{csum_replace4-balance, add_carry_lem}
use dysco.Rewrite.Output.{out_rewrite_addresses}
use dysco.Rewrite.Input.{in_rewrite_addresses}
use dysco.Rewrite.Translation.{IsWord}

-- What the checksum covers of the addresses, with the checksum itself.
abbrev pub ip_sum : IpHdr → ℕ
ip_sum h = (h.check + h.saddr + h.daddr) % 65535

pub record IsIpWords (h : IpHdr) : Type 0 where
  pub check : h.check < 65536
  pub saddr : IsWord h.saddr
  pub daddr : IsWord h.daddr

-- 65535 divides 2^32 - 1.
mod_reduce : (a b : ℕ) → a % 4294967295 ≡ b % 4294967295 → a % 65535 ≡ b % 65535
mod_reduce a b e = omega arith

-- A checksum that balances the sums of the addresses balances the addresses.
balance :
    (check check' sa da sip dip from to : ℕ)
    → (check' + to) % 65535 ≡ (check + from) % 65535
    → from % 4294967295 ≡ (sa + da) % 4294967295
    → to % 4294967295 ≡ (sip + dip) % 4294967295
    → (check' + sip + dip) % 65535 ≡ (check + sa + da) % 65535
balance check check' sa da sip dip from to b f t =
    omega (arith, mod_reduce from (sa + da) f, mod_reduce to (sip + dip) t)

module _ ⦃k : Kernel⦄ (laws : KernelLaws k) where
  open laws use {replace4_same}

  carry_as :
      (a b c : ℕ)
      → IsWord a
      → IsWord b
      → ltb (u32 (a + b)) c ≡ ltb (u32 (a + b)) b
      → add_carry a b c % 4294967295 ≡ (a + b) % 4294967295
  carry_as a b c ha hb e =
      ap (λ (t : Bool). u32 (u32 (a + b) + (if t then 1 else 0)) % 4294967295) e
      ∙ add_carry_lem a b ha hb

  -- The IP header with its checksum corrected for new addresses.
  abbrev rewritten : (h : IpHdr) (sip dip to : ℕ) → IpHdr
  rewritten h sip dip to = record h {
    check = csum_replace4 h.check (add_carry h.saddr h.daddr h.daddr) to;
    saddr = sip;
    daddr = dip;
  }

  rewritten-ip_sum :
      (h : IpHdr) (sip dip to : ℕ)
      → IsIpWords h
      → to < 4294967296
      → to % 4294967295 ≡ (sip + dip) % 4294967295
      → ip_sum (rewritten h sip dip to) ≡ ip_sum h
  rewritten-ip_sum h sip dip to v lt e =
      let from = add_carry h.saddr h.daddr h.daddr in
      balance h.check (csum_replace4 h.check from to) h.saddr h.daddr sip dip from to
        (csum_replace4-balance laws h.check from to v.check (omega arith) lt)
        (add_carry_lem h.saddr h.daddr v.saddr v.daddr) e

  -- The output path keeps the sum of the IP header's checksum and addresses modulo 65535, so a
  -- header with a correct checksum still has one.
  pub out_rewrite_addresses-ip_sum :
      (d : CbOut) (s : Skb)
      → IsIpWords s.ip
      → IsWord d.sub.sip
      → IsWord d.sub.dip
      → ip_sum (out_rewrite_addresses d s).ip ≡ ip_sum s.ip
  unfolding out_rewrite_addresses
  out_rewrite_addresses-ip_sum d s v hs hd =
      let to = add_carry d.sub.sip d.sub.dip d.sub.dip in
      rw (replace4_same _ _ to true).ip_same
        (rewritten-ip_sum s.ip d.sub.sip d.sub.dip to v (omega arith) (add_carry_lem _ _ hs hd))

  -- The input path keeps the sum of the IP header's checksum and addresses modulo 65535, if the
  -- subsession's address gives the carry that the session's own address would give.
  pub in_rewrite_addresses-ip_sum :
      (d : CbIn) (s : Skb)
      → IsIpWords s.ip
      → IsWord d.super.sip
      → IsWord d.super.dip
      → ltb (u32 (d.super.sip + d.super.dip)) d.sub.dip
        ≡ ltb (u32 (d.super.sip + d.super.dip)) d.super.dip
      → ip_sum (in_rewrite_addresses d s).ip ≡ ip_sum s.ip
  unfolding in_rewrite_addresses
  in_rewrite_addresses-ip_sum d s v hs hd e =
      let to = add_carry d.super.sip d.super.dip d.sub.dip in
      rw (replace4_same _ _ to true).ip_same (
        rewritten-ip_sum s.ip d.super.sip d.super.dip to v (omega arith)
          (carry_as d.super.sip d.super.dip d.sub.dip hs hd e))

  -- Where the sum of the session's addresses does not overflow but is below the subsession's
  -- destination, the input path adds a carry that is not there: the sum of the header is one
  -- less than it should be, so a correct checksum becomes a wrong one.
  pub in_rewrite_addresses-false_carry :
      (d : CbIn) (s : Skb)
      → IsIpWords s.ip
      → d.super.sip + d.super.dip < d.sub.dip
      → IsWord d.sub.dip
      → (ip_sum (in_rewrite_addresses d s).ip + 1) % 65535 ≡ ip_sum s.ip
  unfolding in_rewrite_addresses
  in_rewrite_addresses-false_carry d s v lt w =
      let from = add_carry s.ip.saddr s.ip.daddr s.ip.daddr in
      let to = add_carry d.super.sip d.super.dip d.sub.dip in
      rw (replace4_same _ _ to true).ip_same (
        omega (
          arith,
          balance s.ip.check (csum_replace4 s.ip.check from to) s.ip.saddr s.ip.daddr d.super.sip
              (d.super.dip + 1) from to
              (csum_replace4-balance laws s.ip.check from to v.check (omega arith) (omega arith))
              (add_carry_lem s.ip.saddr s.ip.daddr v.saddr v.daddr) (ground arith),
        ))
