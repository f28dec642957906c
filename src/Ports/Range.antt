-- ===== src/Ports/Range.antt =====
-- The local ports stay in 10001 … 65535, whatever the number of allocations.
use dysco.Base.{ℕ, zero, suc, ◌%◌, ◌≤◌, ◌<◌, arith, ntohs, swap16-swap16}
use dysco.Ports.{allocate_ports, ports_after}

pub record IsAlloc (a : ℕ) : Type 0 where
  pub word : a < 4294967296
  pub low : 10001 ≤ a % 65536

allocate_ports-IsAlloc : (a : ℕ) → IsAlloc a → IsAlloc (allocate_ports a).1
unfolding allocate_ports
allocate_ports-IsAlloc a v = ground arith

ports_after-IsAlloc : (n : ℕ) → IsAlloc (ports_after n)
unfolding ports_after
ports_after-IsAlloc zero = omega arith
ports_after-IsAlloc (suc n) = allocate_ports-IsAlloc (ports_after n) (ports_after-IsAlloc n)

-- After any number of allocations, the local port of the next subsession is at least 10001
-- and at most 65535 (in host byte order).
pub local_port_range :
    (n : ℕ)
    → (10001 ≤ ntohs (allocate_ports (ports_after n)).0.0)
      × (ntohs (allocate_ports (ports_after n)).0.0 ≤ 65535)
unfolding allocate_ports
local_port_range n = ground (arith, ports_after-IsAlloc n, swap16-swap16 (ports_after n % 65536))
