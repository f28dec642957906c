-- ===== src/Ports.antt =====
-- kernel/common/dysco.h, `allocate_neighbor_port` and `allocate_local_port`: one 32-bit word
-- `alloc_ports` holds the neighbor port in its upper half and the next local port in its lower.
pub mod Range
pub mod Unique
use dysco.Base.{ℕ, zero, suc, ◌-◌, ◌/◌, ◌%◌, u16, sub32, htons, ◌==◌, if◌then◌else◌}

-- `alloc_ports` at the module's start.
abbrev pub alloc_ports_init : ℕ
alloc_ports_init = 0x2710ffff

-- The port, in network byte order.
pub allocate_neighbor_port : ℕ → ℕ
allocate_neighbor_port alloc_ports = htons (u16 (alloc_ports / 65536))

-- The port, in network byte order, and the new `alloc_ports`.
pub allocate_local_port : ℕ → ℕ × ℕ
allocate_local_port alloc_ports =
    let lport = alloc_ports % 65536 in
    let next = sub32 alloc_ports 1 in
    (htons lport, if lport == 10001 then sub32 next 10001 else next)

-- What every allocation of a subsession does: the local port first, then the neighbor port.
pub allocate_ports : ℕ → (ℕ × ℕ) × ℕ
unfolding allocate_local_port allocate_neighbor_port
allocate_ports alloc_ports =
    let (sport, next) = allocate_local_port alloc_ports in
    ((sport, allocate_neighbor_port next), next)

-- `alloc_ports` after `n` subsessions have got their ports.
pub ports_after : ℕ → ℕ
ports_after zero = alloc_ports_init
ports_after (suc n) = (allocate_ports (ports_after n)).1
