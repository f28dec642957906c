-- ===== src/Rewrite/Sack/Bounds.antt =====
-- The translation of the SACK blocks ends, stays inside the packet, and keeps its length.
use dysco.Base.{
  ℕ, zero, suc, ◌+◌, ◌-◌, ◌%◌, ◌≤◌, ◌<◌, ◌≡◌, refl, ap, ◌∙◌, arith, Bool, false, ◌&&◌, Option, none,
  some, List, [], ◌∷◌, length, length-set, get_elem?, inl, inr, Bool-cases, ◌==◌, leb, and_then,
  word32,
}
use dysco.Types.{Ctx, Skb}
use dysco.Kernel.{Kernel}
use dysco.Csum.{inet_proto_csum_replace4, replace4_partial, replace4_full}
use dysco.TcpOptions.Step.{
  OptStep, stop, skip, option, fault, step, kind_sack, load32, options_length,
}
use dysco.TcpOptions.Bounds.{step-option, step-skip, step-ne-fault}
use dysco.Rewrite.Fields.{store32}
use dysco.Rewrite.Sack.{sack_block, sack_blocks, sack_option, tcp_sack_loop, tcp_sack}

-- The computation ends with a packet that has `n` bytes behind its fixed header.
abbrev pub EndsWith : ℕ → Option Ctx → Type 0
EndsWith n none = ⊥
EndsWith n (some c) = length c.skb.body ≡ n

EndsWith-and_then :
    (n : ℕ) (r : Option Ctx) (f : Ctx → Option Ctx)
    → EndsWith n r
    → ((c : Ctx) → length c.skb.body ≡ n → EndsWith n (f c))
    → EndsWith n (and_then r f)
EndsWith-and_then n none f e h = e
EndsWith-and_then n (some c) f e h = h c e

get_elem?-within : (xs : List ℕ) (i : ℕ) → i < length xs → (x : ℕ) × (get_elem? xs i ≡ some x)
get_elem?-within [] i h = absurd (omega arith)
get_elem?-within (x ∷ xs) zero h = (x, refl)
get_elem?-within (x ∷ xs) (suc i) h = get_elem?-within xs i (omega arith)

load32-within : (xs : List ℕ) (p : ℕ) → p + 3 < length xs → (w : ℕ) × (load32 xs p ≡ some w)
unfolding load32
load32-within xs p h =
    let a = get_elem?-within xs p (omega arith) in
    let b = get_elem?-within xs (p + 1) (omega arith) in
    let c = get_elem?-within xs (p + 2) (omega arith) in
    let d = get_elem?-within xs (p + 3) h in (word32 a.0 b.0 c.0 d.0, rw (a.1, b.1, c.1, d.1) refl)

length-store32 : (p v : ℕ) (xs : List ℕ) → length (store32 p v xs) ≡ length xs
unfolding store32
length-store32 p v xs = simp length-set

module _ ⦃k : Kernel⦄ where
  pub replace4_body :
      (s : Skb) (from to : ℕ) (ph : Bool) → (inet_proto_csum_replace4 s from to ph).body ≡ s.body
  unfolding inet_proto_csum_replace4 replace4_partial replace4_full
  replace4_body s from to ph = ground arith

  sack_block-EndsWith :
      (delta : ℕ) (add : Bool) (lptr : ℕ) (c : Ctx)
      → lptr + 7 < length c.skb.body
      → EndsWith (length c.skb.body) (sack_block delta add lptr c)
  unfolding sack_block
  sack_block-EndsWith delta add lptr c h =
      let l = load32-within c.skb.body lptr (omega arith) in
      let r = load32-within c.skb.body (lptr + 4) (omega arith) in
      rw (l.1, r.1)
        (length-store32 (lptr + 4) _ _
          ∙ length-store32 lptr _ _
          ∙ ap length (replace4_body _ r.0 _ false ∙ replace4_body c.skb l.0 _ false))

  sack_blocks-EndsWith :
      (fuel delta : ℕ) (add : Bool) (blen lptr : ℕ) (c : Ctx)
      → blen % 8 ≡ 0
      → blen < fuel
      → lptr + blen ≤ length c.skb.body
      → EndsWith (length c.skb.body) (sack_blocks fuel delta add blen lptr c)
  unfolding sack_blocks
  sack_blocks-EndsWith zero delta add blen lptr c m f h = absurd (omega arith)
  sack_blocks-EndsWith (suc fuel) delta add blen lptr c m f h = elim (Bool-cases (blen == 0)) [
    | inl done ↦ rw (sack_blocks, done) refl
    | inr more ↦
        rw (sack_blocks, more)
          (EndsWith-and_then (length c.skb.body) (sack_block delta add lptr c)
            (sack_blocks fuel delta add (blen - 8) (lptr + 8))
            (sack_block-EndsWith delta add lptr c (ground arith))
            λ c' e. rw (← e) (
              sack_blocks-EndsWith fuel delta add (blen - 8) (lptr + 8) c' (ground arith)
                (ground arith) (ground arith)))
  ]

  sack_option-EndsWith :
      (delta : ℕ) (add : Bool) (opcode opsize ptr : ℕ) (c : Ctx)
      → ptr + (opsize - 2) ≤ length c.skb.body
      → EndsWith (length c.skb.body) (sack_option delta add opcode opsize ptr c)
  unfolding sack_option
  sack_option-EndsWith delta add opcode opsize ptr c h =
      elim (Bool-cases ((opcode == kind_sack) && leb 10 opsize && ((opsize - 2) % 8 == 0))) [
        | inl whole ↦ rw whole (
            sack_blocks-EndsWith (suc opsize) delta add (opsize - 2) ptr c (ground arith)
              (omega arith) h)
        | inr other ↦ rw other refl
      ]

  tcp_sack_loop-EndsWith :
      (fuel delta : ℕ) (add : Bool) (ptr left : ℕ) (c : Ctx)
      → left < fuel
      → ptr + left < length c.skb.body
      → EndsWith (length c.skb.body) (tcp_sack_loop fuel delta add ptr left c)
  unfolding tcp_sack_loop
  tcp_sack_loop-EndsWith zero delta add ptr left c f h = absurd (omega arith)
  tcp_sack_loop-EndsWith (suc fuel) delta add ptr left c f h =
      go (step c.skb.body ptr left) refl
        (tcp_sack_loop-EndsWith fuel delta add (ptr + 1) (left - 1) c)
        λ opsize c'. tcp_sack_loop-EndsWith fuel delta add (ptr + opsize) (left - opsize) c'
    where
      go :
          (s : OptStep)
          → step c.skb.body ptr left ≡ s
          → (left - 1 < fuel
              → ptr + 1 + (left - 1) < length c.skb.body
              → EndsWith (length c.skb.body) (tcp_sack_loop fuel delta add (ptr + 1) (left - 1) c))
          → ((opsize : ℕ) (c' : Ctx)
              → left - opsize < fuel
              → ptr + opsize + (left - opsize) < length c'.skb.body
              → EndsWith
                  (length c'.skb.body)
                  (tcp_sack_loop fuel delta add (ptr + opsize) (left - opsize) c'))
          → EndsWith (length c.skb.body) (tcp_sack_loop (suc fuel) delta add ptr left c)
      go stop e one more = rw (tcp_sack_loop, e) refl
      go fault e one more = absurd (step-ne-fault c.skb.body ptr left h e)
      go skip e one more =
          let pos = step-skip c.skb.body ptr left e in
          rw (tcp_sack_loop, e) (one (omega arith) (omega arith))
      go (option opcode opsize) e one more =
          let size = step-option c.skb.body ptr left opcode opsize e in
          rw (tcp_sack_loop, e)
            (EndsWith-and_then (length c.skb.body) (sack_option delta add opcode opsize (ptr + 2) c)
              (tcp_sack_loop fuel delta add (ptr + opsize) (left - opsize))
              (sack_option-EndsWith delta add opcode opsize (ptr + 2) c (omega arith))
              λ c' l. rw (← l) (more opsize c' (omega arith) (omega arith)))

  -- On a packet with at least one byte behind its options, `dysco_tcp_sack` returns, for every
  -- difference and whatever the options are: it reads and writes nothing past the packet, and the
  -- packet keeps its length.
  pub tcp_sack-EndsWith :
      (delta : ℕ) (add : Bool) (c : Ctx)
      → options_length c.skb < length c.skb.body
      → EndsWith (length c.skb.body) (tcp_sack delta add c)
  unfolding tcp_sack
  tcp_sack-EndsWith delta add c h =
      tcp_sack_loop-EndsWith (suc (options_length c.skb)) delta add 0 (options_length c.skb) c
        (omega arith) (omega arith)
