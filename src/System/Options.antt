-- ===== src/System/Options.antt =====
-- kernel/common/dysco_tcp.c, `dysco_parse_tcp_syn_opt_s`: the options of a SYN leave the
-- reconfiguration of a block alone.
use dysco.Base.{
  ℕ, zero, suc, ◌+◌, ◌-◌, ◌≡◌, refl, subst, ap, sym, ◌∙◌, Bool, true, false, Option, none, some,
  List, if◌then◌else◌, and_then,
}
use dysco.Types.{Skb, CbOut}
use dysco.Anchor.{Anchor, Step, quiet, view}
use dysco.TcpOptions.{parse_tcp_syn_opt_s, syn_opt_s_loop, syn_opt_s}
use dysco.TcpOptions.Step.{step, stop, skip, option, fault, OptStep, options_length}

-- A block that has the view given, unless there was a fault.
record HasView (v : Anchor) (o : Option CbOut) : Type 0 where
  is : (d : CbOut) → o ≡ some d → view d ≡ v

module _ {v : Anchor} where
  HasView-if :
      (b : Bool) (x y : Option CbOut) → HasView v x → HasView v y → HasView v (if b then x else y)
  HasView-if true x y h i = h
  HasView-if false x y h i = i

  HasView-and_then :
      {A : Type 0} (o : Option A) (f : A → Option CbOut)
      → ((a : A) → HasView v (f a))
      → HasView v (and_then o f)
  HasView-and_then none f h = record { is = λ d e. absurd cc }
  HasView-and_then (some a) f h = h a

  HasView-none : HasView v none
  HasView-none = record { is = λ d e. absurd cc }

  HasView-some : (d : CbOut) → view d ≡ v → HasView v (some d)
  HasView-some d h = record {
    is = λ c e. ap (λ o. elim o [ none ↦ view c | some z ↦ view z ]) (sym e) ∙ h;
  }

  HasView-bind :
      (o : Option CbOut) (f : CbOut → Option CbOut)
      → HasView v o
      → ((d : CbOut) → view d ≡ v → HasView v (f d))
      → HasView v (and_then o f)
  HasView-bind none f h i = HasView-none
  HasView-bind (some d) f h i = i d (h.is d refl)

  HasView-step :
      (s : OptStep) (x y z : Option CbOut) (f : ℕ → ℕ → Option CbOut)
      → HasView v x
      → HasView v y
      → HasView v z
      → ((m n : ℕ) → HasView v (f m n))
      → HasView v (elim s [ stop ↦ x | fault ↦ y | skip ↦ z | option m n ↦ f m n ])
  HasView-step stop x y z f hx hy hz hf = hx
  HasView-step fault x y z f hx hy hz hf = hy
  HasView-step skip x y z f hx hy hz hf = hz
  HasView-step (option m n) x y z f hx hy hz hf = hf m n

syn_opt_s-HasView :
    (body : List ℕ) (ptr : ℕ) (is_ack : Bool) (opcode opsize : ℕ) (d : CbOut)
    → HasView (view d) (syn_opt_s body ptr is_ack opcode opsize d)
unfolding syn_opt_s
syn_opt_s-HasView body ptr is_ack opcode opsize d =
    search (HasView-if, HasView-and_then, HasView-some) depth 12

syn_opt_s_loop-HasView :
    (v : Anchor) (fuel : ℕ) (body : List ℕ) (is_ack : Bool) (ptr left : ℕ) (d : CbOut)
    → view d ≡ v
    → HasView v (syn_opt_s_loop fuel body is_ack ptr left d)
unfolding syn_opt_s_loop
syn_opt_s_loop-HasView v zero body is_ack ptr left d e = HasView-none
syn_opt_s_loop-HasView v (suc fuel) body is_ack ptr left d e =
    HasView-step (step body ptr left) _ _ _ _ (HasView-some d e) HasView-none
      (syn_opt_s_loop-HasView v fuel body is_ack (ptr + 1) (left - 1) d e)
      λ opcode opsize.
        HasView-bind _ _
          (subst (λ u. HasView u (syn_opt_s body (ptr + 2) is_ack opcode opsize d)) e
            (syn_opt_s-HasView body (ptr + 2) is_ack opcode opsize d))
          (syn_opt_s_loop-HasView v fuel body is_ack (ptr + opsize) (left - opsize))

pub parse_tcp_syn_opt_s-Step :
    (s : Skb) (b b' : CbOut) → parse_tcp_syn_opt_s s b ≡ some b' → Step (view b) (view b')
unfolding parse_tcp_syn_opt_s
parse_tcp_syn_opt_s-Step s b b' e =
    let n = options_length s in
    let same =
      syn_opt_s_loop-HasView (view b) (suc n) s.body s.th.ack 0 n (record b { sack_ok = false })
        refl in
    rw (same.is b' e) quiet
