-- ===== src/TcpOptions/Bounds.antt =====
-- The options loops end and stay inside the packet.
use dysco.Base.{
  ℕ, zero, suc, ◌+◌, ◌-◌, ◌≤◌, ◌<◌, ◌≡◌, ◌≢◌, arith, refl, Option, none, some, List, [], ◌∷◌,
  length, get_elem?, inl, inr, Bool-cases, ◌==◌, ◌&&◌,
}
use dysco.Types.{Skb}
use dysco.TcpOptions.{ts_loop, get_ts_option}
use dysco.TcpOptions.Step.{OptStep, stop, skip, option, fault, step, options_length, kind_timestamp}

get_elem?-lt : (xs : List ℕ) (i : ℕ) → i < length xs → get_elem? xs i ≢ none
get_elem?-lt [] i h = absurd (omega arith)
get_elem?-lt (x ∷ xs) zero h = cc
get_elem?-lt (x ∷ xs) (suc i) h = get_elem?-lt xs i (omega arith)

-- A round that reads an option has checked its length.
pub step-option :
    (body : List ℕ) (ptr left opcode opsize : ℕ)
    → step body ptr left ≡ option opcode opsize
    → (2 ≤ opsize) × (opsize ≤ left)
unfolding step
step-option body ptr left opcode opsize e = ground arith

pub step-skip : (body : List ℕ) (ptr left : ℕ) → step body ptr left ≡ skip → 0 < left
unfolding step
step-skip body ptr left e = ground arith

pub step-ne-fault :
    (body : List ℕ) (ptr left : ℕ) → ptr + left < length body → step body ptr left ≢ fault
unfolding step
step-ne-fault body ptr left h e = ground (arith, get_elem?-lt body ptr, get_elem?-lt body (ptr + 1))

-- The loop ends without a read past the packet, and an offset that it finds has the eight bytes
-- of a timestamp within the options.
abbrev pub InBounds : ℕ → Option (Option ℕ) → Type 0
InBounds end none = ⊥
InBounds end (some none) = Unit {0}
InBounds end (some (some p)) = p + 8 ≤ end

InBounds-mono : (m n : ℕ) (r : Option (Option ℕ)) → m ≤ n → InBounds m r → InBounds n r
InBounds-mono m n none h b = b
InBounds-mono m n (some none) h b = tt
InBounds-mono m n (some (some p)) h b = omega arith

ts_loop-InBounds :
    (fuel : ℕ) (body : List ℕ) (ptr left : ℕ)
    → left < fuel
    → ptr + left < length body
    → InBounds (ptr + left) (ts_loop fuel body ptr left)
unfolding ts_loop
ts_loop-InBounds zero body ptr left h k = absurd (omega arith)
ts_loop-InBounds (suc fuel) body ptr left h k =
    go (step body ptr left) refl (ts_loop-InBounds fuel body (ptr + 1) (left - 1))
      λ opsize. ts_loop-InBounds fuel body (ptr + opsize) (left - opsize)
  where
    go :
        (s : OptStep)
        → step body ptr left ≡ s
        → (left - 1 < fuel
            → ptr + 1 + (left - 1) < length body
            → InBounds (ptr + 1 + (left - 1)) (ts_loop fuel body (ptr + 1) (left - 1)))
        → ((opsize : ℕ)
            → left - opsize < fuel
            → ptr + opsize + (left - opsize) < length body
            → InBounds
                (ptr + opsize + (left - opsize))
                (ts_loop fuel body (ptr + opsize) (left - opsize)))
        → InBounds (ptr + left) (ts_loop (suc fuel) body ptr left)
    go stop e one more = rw (e, ts_loop) tt
    go fault e one more = absurd (step-ne-fault body ptr left k e)
    go skip e one more =
        let pos = step-skip body ptr left e in
        rw (e, ts_loop)
          (InBounds-mono _ (ptr + left) _ (omega arith) (one (omega arith) (omega arith)))
    go (option opcode opsize) e one more =
        let size = step-option body ptr left opcode opsize e in
        elim (Bool-cases ((opcode == kind_timestamp) && (opsize == 10))) [
          | inl hit ↦ rw (e, ts_loop, hit) (ground arith)
          | inr miss ↦
              rw (e, ts_loop, miss)
                (InBounds-mono _ (ptr + left) _ (omega arith)
                  (more opsize (omega arith) (omega arith)))
        ]

-- On a packet with at least one byte behind its options, `dysco_get_ts_option` returns, reads
-- nothing past the packet, and a timestamp that it finds lies within the options.
pub get_ts_option-InBounds :
    (skb : Skb)
    → options_length skb < length skb.body
    → InBounds (options_length skb) (get_ts_option skb)
unfolding get_ts_option
get_ts_option-InBounds skb h =
    let n = options_length skb in
    InBounds-mono (0 + n) n (ts_loop (suc n) skb.body 0 n) (omega arith)
      (ts_loop-InBounds (suc n) skb.body 0 n (omega arith) (omega arith))
