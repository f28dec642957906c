-- ===== src/Rewrite/SackCsum/Agrees.antt =====
-- The two translations of the SACK blocks of kernel/common/dysco_output.c agree on the packet's
-- bytes.
use dysco.Base.{
  ℕ, zero, suc, ◌+◌, ◌-◌, ◌%◌, ◌≡◌, refl, sym, ap, ◌∙◌, Bool, true, false, ◌&&◌, Option, none, some,
  ◌==◌, leb, and_then, htonl, ntohl, u32, subst, Bool-cases, inl, inr, if◌then◌else◌,
}
use dysco.Types.{Ctx}
use dysco.Kernel.{Kernel}
use dysco.Csum.{end_around, inet_proto_csum_replace4}
use dysco.TcpOptions.Step.{
  OptStep, stop, skip, option, fault, step, kind_sack, load32, options_length,
}
use dysco.Rewrite.Fields.{shift, store32}
use dysco.Rewrite.Sack.{sack_block, sack_blocks, sack_option, tcp_sack_loop, tcp_sack}
use dysco.Rewrite.Sack.Bounds.{replace4_body}
use dysco.Rewrite.SackCsum.{
  Sums, csum_block, csum_blocks, csum_option, csum_loop, fix_sums, tcp_sack_csum,
}

-- The same bytes, and as many blocks counted.
pub record SameBytes (c d : Ctx) : Type 0 where
  pub body : d.skb.body ≡ c.skb.body
  pub rewrites : d.tcp_sack_rewrites ≡ c.tcp_sack_rewrites

-- Both fault, or both end with the same bytes.
abbrev pub Agree : {A : Type 0} → (A → Ctx) → Option Ctx → Option A → Type 0
Agree proj none none = Unit {0}
Agree proj (some c) (some a) = SameBytes c (proj a)
Agree proj none (some a) = ⊥
Agree proj (some c) none = ⊥

module _ {A B : Type 0} (proj : A → Ctx) (proj' : B → Ctx) where
  Agree-and_then :
      (r : Option Ctx) (q : Option A) (f : Ctx → Option Ctx) (g : A → Option B)
      → Agree proj r q
      → ((c : Ctx) (a : A) → SameBytes c (proj a) → Agree proj' (f c) (g a))
      → Agree proj' (and_then r f) (and_then q g)
  Agree-and_then none none f g h k = tt
  Agree-and_then (some c) (some a) f g h k = k c a h
  Agree-and_then none (some a) f g h k = absurd h
  Agree-and_then (some c) none f g h k = absurd h

  Agree-read :
      (o : Option ℕ) (f : ℕ → Option Ctx) (g : ℕ → Option B)
      → ((w : ℕ) → Agree proj' (f w) (g w))
      → Agree proj' (and_then o f) (and_then o g)
  Agree-read none f g k = tt
  Agree-read (some w) f g k = k w

abbrev pair : Ctx × Sums → Ctx
pair x = x.0

abbrev triple : Bool × Ctx × Sums → Ctx
triple x = x.1

module _ ⦃k : Kernel⦄ (delta : ℕ) (add : Bool) where
  block-Agree :
      (lptr : ℕ) (c d : Ctx) (t : Sums)
      → SameBytes c d
      → Agree pair (sack_block delta add lptr c) (csum_block delta add lptr (d, t))
  unfolding sack_block csum_block
  block-Agree lptr c d t h = rw h.body (
      Agree-read pair pair (load32 c.skb.body lptr) _ _ λ l.
        Agree-read pair pair (load32 c.skb.body (lptr + 4)) _ _ λ r. record {
          body =
              ap
                (λ b.
                  store32 (lptr + 4) (htonl (shift add (ntohl r) delta))
                    (store32 lptr (htonl (shift add (ntohl l) delta)) b))
                (sym (
                  replace4_body
                    (inet_proto_csum_replace4 c.skb l (htonl (shift add (ntohl l) delta)) false) r _
                    false
                  ∙ replace4_body c.skb l _ false));
          rewrites = ap (λ n. n + 1) h.rewrites;
        })

  blocks-Agree :
      (fuel blen lptr : ℕ) (c : Ctx) (x : Ctx × Sums)
      → SameBytes c x.0
      → Agree pair (sack_blocks fuel delta add blen lptr c) (csum_blocks fuel delta add blen lptr x)
  unfolding sack_blocks csum_blocks
  blocks-Agree zero blen lptr c x h = tt
  blocks-Agree (suc fuel) blen lptr c x h = elim (Bool-cases (blen == 0)) [
    | inl done ↦ rw (sack_blocks, csum_blocks, done) h
    | inr more ↦
        rw (sack_blocks, csum_blocks, more)
          (Agree-and_then pair pair (sack_block delta add lptr c) (csum_block delta add lptr x) _ _
            (block-Agree lptr c x.0 x.1 h)
            λ c' x' h'. blocks-Agree fuel (blen - 8) (lptr + 8) c' x' h')
  ]

  option-Agree :
      (opcode opsize ptr : ℕ) (c : Ctx) (x : Ctx × Sums)
      → SameBytes c x.0
      → Agree pair
          (sack_option delta add opcode opsize ptr c)
          (csum_option delta add opcode opsize ptr x)
  unfolding sack_option csum_option
  option-Agree opcode opsize ptr c x h =
      elim (Bool-cases ((opcode == kind_sack) && leb 10 opsize && ((opsize - 2) % 8 == 0))) [
        | inl whole ↦ rw whole (blocks-Agree (suc opsize) (opsize - 2) ptr c x h)
        | inr other ↦ rw other h
      ]

  -- What the loops do after the switch.
  abbrev sack_then : ℕ → ℕ → ℕ → Ctx → OptStep → Option Ctx
  sack_then fuel ptr left c s = elim s [
    | stop ↦ some c
    | fault ↦ none
    | skip ↦ tcp_sack_loop fuel delta add (ptr + 1) (left - 1) c
    | option opcode opsize ↦
        and_then (sack_option delta add opcode opsize (ptr + 2) c)
          (tcp_sack_loop fuel delta add (ptr + opsize) (left - opsize))
  ]

  abbrev csum_then : ℕ → ℕ → ℕ → Ctx × Sums → OptStep → Option (Bool × Ctx × Sums)
  csum_then fuel ptr left x s = elim s [
    | stop ↦ some (left == 0, x.0, x.1)
    | fault ↦ none
    | skip ↦ csum_loop fuel delta add (ptr + 1) (left - 1) x
    | option opcode opsize ↦
        and_then (csum_option delta add opcode opsize (ptr + 2) x)
          (csum_loop fuel delta add (ptr + opsize) (left - opsize))
  ]

  abbrev LoopsAgree : ℕ → Type 0
  LoopsAgree fuel =
      (ptr left : ℕ) (c : Ctx) (x : Ctx × Sums)
      → SameBytes c x.0
      → Agree triple (tcp_sack_loop fuel delta add ptr left c) (csum_loop fuel delta add ptr left x)

  then-Agree :
      (fuel ptr left : ℕ) (c : Ctx) (x : Ctx × Sums) (s : OptStep)
      → LoopsAgree fuel
      → SameBytes c x.0
      → Agree triple (sack_then fuel ptr left c s) (csum_then fuel ptr left x s)
  then-Agree fuel ptr left c x stop rec h = h
  then-Agree fuel ptr left c x fault rec h = tt
  then-Agree fuel ptr left c x skip rec h = rec (ptr + 1) (left - 1) c x h
  then-Agree fuel ptr left c x (option opcode opsize) rec h =
      Agree-and_then pair triple (sack_option delta add opcode opsize (ptr + 2) c)
        (csum_option delta add opcode opsize (ptr + 2) x) _ _
        (option-Agree opcode opsize (ptr + 2) c x h)
        λ c' x' h'. rec (ptr + opsize) (left - opsize) c' x' h'

  loop-Agree : (fuel : ℕ) → LoopsAgree fuel
  unfolding tcp_sack_loop csum_loop
  loop-Agree zero ptr left c x h = tt
  loop-Agree (suc fuel) ptr left c x h =
      subst
        (λ s.
          Agree triple (sack_then fuel ptr left c (step c.skb.body ptr left))
            (csum_then fuel ptr left x s))
        (ap (λ b. step b ptr left) (sym h.body))
        (then-Agree fuel ptr left c x (step c.skb.body ptr left) (loop-Agree fuel) h)

  fix_sums-body : (x : Bool × Ctx × Sums) → SameBytes x.1 (fix_sums x)
  unfolding fix_sums
  fix_sums-body (at_head, c, t) = go (at_head && t.fix_checksum)
    where
      fixed : Ctx
      fixed = record c {
        skb =
            inet_proto_csum_replace4 c.skb (u32 (end_around (end_around t.from64)))
              (u32 (end_around (end_around t.to64))) false;
      }

      go : (b : Bool) → SameBytes c (if b then fixed else c)
      go true = record { body = replace4_body c.skb _ _ false; rewrites = refl }
      go false = record { body = refl; rewrites = refl }

  fixed-Agree :
      (r : Option Ctx) (q : Option (Bool × Ctx × Sums))
      → Agree triple r q
      → Agree (λ d. d) r (and_then q λ x. some (fix_sums x))
  fixed-Agree none none h = tt
  fixed-Agree (some c) (some x) h =
      let f = fix_sums-body x in
      record { body = f.body ∙ h.body; rewrites = f.rewrites ∙ h.rewrites }
  fixed-Agree none (some x) h = h
  fixed-Agree (some c) none h = h

  -- Whatever the options are, `dysco_tcp_sack_csum` reads past the packet just when
  -- `dysco_tcp_sack` does, and otherwise leaves the same bytes behind the fixed header and counts
  -- as many blocks: the two differ in the checksum at most.
  pub tcp_sack_csum-tcp_sack :
      (c : Ctx) → Agree (λ d. d) (tcp_sack delta add c) (tcp_sack_csum delta add c)
  unfolding tcp_sack tcp_sack_csum
  tcp_sack_csum-tcp_sack c =
      fixed-Agree (tcp_sack_loop (suc (options_length c.skb)) delta add 0 (options_length c.skb) c)
        _
        (loop-Agree (suc (options_length c.skb)) 0 (options_length c.skb) c (c, _)
          (record { body = refl; rewrites = refl }))
