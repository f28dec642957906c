-- ===== src/Ports/Unique.antt =====
-- No two subsessions get the same pair of ports before the neighbor port has gone down to 0.
use dysco.Base.{
  ℕ, zero, suc, ◌+◌, ◌-◌, ◌*◌, ◌/◌, ◌%◌, ◌<◌, ◌≡◌, ◌≢◌, ap, sym, ◌∙◌, arith, swap16, swap16-swap16,
}
use dysco.Ports.{allocate_ports, ports_after}

-- 10001 neighbor ports, each with 55535 local ports.
abbrev pub pairs : ℕ
pairs = 555405535

ports_after-closed :
    (n : ℕ) → n < pairs → ports_after n ≡ (10000 - n / 55535) * 65536 + (65535 - n % 55535)
unfolding ports_after allocate_ports
ports_after-closed zero h = omega arith
ports_after-closed (suc n) h = ground (arith, ports_after-closed n (omega arith))

abbrev pair_at : ℕ → ℕ × ℕ
pair_at n = (allocate_ports (ports_after n)).0

sport_at : (n : ℕ) → suc n < pairs → (pair_at n).0 ≡ swap16 (65535 - n % 55535)
unfolding allocate_ports
sport_at n h = ap swap16 (omega (arith, ports_after-closed n (omega arith)))

dport_at : (n : ℕ) → suc n < pairs → (pair_at n).1 ≡ swap16 (10000 - suc n / 55535)
unfolding allocate_ports
dport_at n h = ap swap16 (ground (arith, ports_after-closed n (omega arith)))

swap16-injective : (a b : ℕ) → a < 65536 → b < 65536 → swap16 a ≡ swap16 b → a ≡ b
swap16-injective a b ha hb e = sym (swap16-swap16 a ha) ∙ ap swap16 e ∙ swap16-swap16 b hb

-- The pairs of ports given to two different subsessions, among the first 555405534 since the
-- module's start, are different.
pub allocate_ports-injective :
    (i j : ℕ)
    → suc i < pairs
    → suc j < pairs
    → i ≢ j
    → (allocate_ports (ports_after i)).0 ≢ (allocate_ports (ports_after j)).0
allocate_ports-injective i j hi hj ne e = ne (
    omega (
      arith,
      swap16-injective (65535 - i % 55535) (65535 - j % 55535) (omega arith) (omega arith)
          (sym (sport_at i hi) ∙ ap (λ (p : ℕ × ℕ). p.0) e ∙ sport_at j hj),
      swap16-injective (10000 - suc i / 55535) (10000 - suc j / 55535) (omega arith) (omega arith)
          (sym (dport_at i hi) ∙ ap (λ (p : ℕ × ℕ). p.1) e ∙ dport_at j hj),
    ))
