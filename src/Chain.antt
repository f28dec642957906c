-- ===== src/Chain.antt =====
-- The service chain in the payload of a SYN: `struct syn_packet` of kernel/common/dysco.h,
-- `dysco_add_sc` of kernel/common/dysco_output.c and `dysco_remove_sc` of
-- kernel/common/dysco_input.c.
pub mod RoundTrip
pub mod Carry
use dysco.Base.{
  ℕ, zero, suc, ◌+◌, ◌-◌, ◌*◌, ◌/◌, ◌%◌, Bool, Option, none, some, List, [], ◌∷◌, ◌++◌, length,
  get_elem?, take, leb, ltb, if◌then◌else◌, and_then, htons, u16,
}
use dysco.Types.{Skb, IpHdr, TcpHdr, CbOut, TcpSession, ServiceChain, IpSummed, checksum_partial}
use dysco.Kernel.{Kernel}
use dysco.Csum.{csum_replace2}
use dysco.TcpOptions.{bytes32}
use dysco.TcpOptions.Step.{load32, options_length}
use dysco.Rewrite.Fields.{set_check}

abbrev pub bytes16 : ℕ → List ℕ
bytes16 w = w % 256 ∷ w / 256 % 256 ∷ []

unfoldable pub load16 : List ℕ → ℕ → Option ℕ
load16 body ptr =
    and_then (get_elem? body ptr)
      λ b0. and_then (get_elem? body (ptr + 1)) λ b1. some (b0 + b1 * 256)

-- `sizeof(struct tcp_session)`.
abbrev pub session_size : ℕ
session_size = 12

-- `SC_MEM_SZ`, for a chain of `len` hops.
abbrev pub sc_mem_sz : ℕ → ℕ
sc_mem_sz len = 4 + len * 4

abbrev pub session_bytes : TcpSession → List ℕ
session_bytes s = bytes32 s.sip ++ bytes32 s.dip ++ bytes16 s.sport ++ bytes16 s.dport

abbrev pub hops_bytes : List ℕ → List ℕ
hops_bytes [] = []
hops_bytes (h ∷ hs) = bytes32 h ++ hops_bytes hs

-- The bytes of a session and its chain, of which `len` hops are copied.
unfoldable pub syn_bytes : TcpSession → ServiceChain → List ℕ
syn_bytes s sc =
    session_bytes s ++ bytes16 sc.len ++ bytes16 sc.pos ++ hops_bytes (take sc.len sc.hops)

-- The payload read as a `struct syn_packet` that begins at `ptr`: the session, the chain's
-- length, and `n` hops from an offset on.
unfoldable pub read_session : List ℕ → ℕ → Option TcpSession
unfolding load32 load16
read_session body ptr = and_then (load32 body ptr) λ a. and_then (load32 body (ptr + 4)) λ b.
    and_then (load16 body (ptr + 8)) λ c.
      and_then (load16 body (ptr + 10))
        λ d. some (record { sip = a; dip = b; sport = c; dport = d })

unfoldable pub read_sc_len : List ℕ → ℕ → Option ℕ
unfolding load16
read_sc_len body ptr = load16 body (ptr + session_size)

unfoldable pub read_hops : ℕ → List ℕ → ℕ → Option (List ℕ)
unfolding load32
read_hops zero body ptr = some []
read_hops (suc n) body ptr =
    and_then (load32 body ptr) λ h. and_then (read_hops n body (ptr + 4)) λ hs. some (h ∷ hs)

-- Where the TCP payload begins, as an offset behind the fixed header.
abbrev pub payload_ptr : Skb → ℕ
payload_ptr s = options_length s

module _ ⦃k : Kernel⦄ where
  -- `none` is the return of 0: there is no room behind the packet.
  unfoldable pub add_sc : TcpSession → ServiceChain → Skb → Option Skb
  add_sc super sc s =
      let syn_memsz = session_size + sc_mem_sz sc.len in
      let data_ = syn_bytes super sc in
      let new_len = s.len + syn_memsz in
      let tot_len = htons (u16 (new_len - 14)) in
      let s1 = record s {
        body = s.body ++ data_;
        len = new_len;
        tailroom = s.tailroom - syn_memsz;
        ip = record (s.ip) {
          tot_len = tot_len;
          check = csum_replace2 s.ip.check s.ip.tot_len tot_len;
        };
      } in
      let folded =
        set_check (k.csum_fold (k.csum_bytes data_ (4294967295 - k.csum_unfold s.th.check))) s1 in
      if ltb s.tailroom syn_memsz
      then none
      else some (elim s.ip_summed [ checksum_partial ↦ s1 | _ ↦ folded ])

-- The session and the chain are cut off the packet's end; a packet that is shorter than they
-- are is left as it is.
unfoldable pub remove_sc : Skb → Option Skb
remove_sc s = and_then (read_sc_len s.body (payload_ptr s)) λ len.
    let sc_memsz = session_size + sc_mem_sz len in
    let new_len = if leb sc_memsz s.len then s.len - sc_memsz else s.len in
    some (record s {
      body = take (length s.body - (s.len - new_len)) s.body;
      len = new_len;
      tailroom = s.tailroom + (s.len - new_len);
      ip = record (s.ip) { tot_len = htons (u16 new_len) };
    })
