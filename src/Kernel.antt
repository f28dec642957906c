-- ===== src/Kernel.antt =====
-- The Linux kernel's functions that the module calls and that are not part of the repository,
-- as a record of parameters, and what the module relies on as a record of laws.
mod Tables
pub use Tables.{Rhashtable, RhashtableLaws}
use dysco.Base.{ℕ, ◌+◌, ◌-◌, ◌%◌, ◌≤◌, ◌<◌, ◌≡◌, Bool, Option, List, leb, ltb, ◌==◌, ◌&&◌, sub32}
use dysco.Types.{TcpSession, session_eq, CbOut, CbIn, CbReconfig, IpHdr, Skb, ServiceChain}

-- What the receiver-window code reads of a kernel `tcp_sock`.
pub record TcpSock : Type 0 where
  pub rcv_wscale : ℕ
  pub rcv_nxt : ℕ
  pub copied_seq : ℕ
  pub snd_wnd : ℕ
  pub snd_nxt : ℕ
  pub snd_una : ℕ
  pub max_window : ℕ

-- What a route lookup leaves: the source address in the flow, and the next hop's address if
-- there is a route.
pub record Route : Type 0 where
  pub fl_saddr : ℕ
  pub nexthop : Option ℕ

pub record Kernel : Type 1 where
  pub sessions : Rhashtable TcpSession
  pub tags : Rhashtable ℕ
  -- net/tcp.h: comparison of sequence numbers.
  pub before : ℕ → ℕ → Bool
  pub after : ℕ → ℕ → Bool
  -- net/checksum.h.
  pub csum_fold : ℕ → ℕ
  pub csum_unfold : ℕ → ℕ
  pub ip_fast_csum : IpHdr → ℕ
  -- `csum_partial` over the TCP or UDP segment of the packet, from its start, with the length
  -- and the seed given.
  pub csum_segment : Skb → ℕ → ℕ → ℕ
  -- `csum_partial` over a buffer.
  pub csum_bytes : List ℕ → ℕ → ℕ
  -- The sum of the pseudo-header: addresses, length, protocol.
  pub csum_tcpudp_nofold : ℕ → ℕ → ℕ → ℕ → ℕ
  pub tcp_v4_check : ℕ → ℕ → ℕ → ℕ
  -- `inet_proto_csum_replace4(sum, skb, from, to, pseudohdr)`, with the new packet as its result.
  -- It may write only the TCP checksum and `skb->csum`.
  pub inet_csum_replace4 : Skb → ℕ → ℕ → Bool → Skb
  pub inet_csum_replace2 : Skb → ℕ → ℕ → Bool → Skb
  -- Routing and neighbours.
  pub ip_route_output_key : Skb → ℕ → Route
  pub neigh_lookup : Skb → ℕ → Option ℕ
  pub inet_lookup_established : TcpSession → ℕ → Option ℕ
  pub sockets : ℕ → TcpSock
  -- linux/etherdevice.h and linux/skbuff.h.
  pub is_valid_ether_addr : ℕ → Bool
  pub skb_share_check : Skb → Option Skb
  -- Memory that `kmalloc` returns is not cleared, nor is the stack: what a block holds at first.
  pub stale_out : CbOut
  pub stale_in : CbIn
  pub stale_rcb : CbReconfig
  pub stale_pos : ℕ

-- What an incremental update of the checksum leaves alone.
pub record SameButCheck (s t : Skb) : Type 0 where
  pub th_same : record (s.th) { check = 0 } ≡ record (t.th) { check = 0 }
  pub ip_same : s.ip ≡ t.ip
  pub eth_same : s.eth ≡ t.eth
  pub body_same : s.body ≡ t.body
  pub summed_same : s.ip_summed ≡ t.ip_summed
  pub dev_addr_same : s.dev_addr ≡ t.dev_addr

pub record KernelLaws (k : Kernel) : Type 1 where
  pub sessions_laws : RhashtableLaws session_eq k.sessions
  pub tags_laws : RhashtableLaws ◌==◌ k.tags
  -- `before(a, b)` is `(s32)(a - b) < 0`, and `after(a, b)` is `before(b, a)`.
  pub before_lem : (a b : ℕ) → k.before a b ≡ leb 2147483648 (sub32 a b)
  pub after_lem : (a b : ℕ) → k.after a b ≡ k.before b a
  -- `csum_unfold` is a cast; `csum_fold` is the complement of the 16-bit ones' complement sum.
  pub csum_unfold_lem : (n : ℕ) → k.csum_unfold n ≡ n
  pub csum_fold-lt : (n : ℕ) → k.csum_fold n < 65536
  pub csum_fold_lem : (n : ℕ) → n < 4294967296 → (k.csum_fold n + n) % 65535 ≡ 0
  pub replace4_same :
      (s : Skb) (from to : ℕ) (ph : Bool) → SameButCheck (k.inet_csum_replace4 s from to ph) s
  pub replace2_same :
      (s : Skb) (from to : ℕ) (ph : Bool) → SameButCheck (k.inet_csum_replace2 s from to ph) s
