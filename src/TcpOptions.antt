-- ===== src/TcpOptions.antt =====
-- The loops over the TCP options of kernel/common/dysco.h (`dysco_get_ts_option`) and
-- kernel/common/dysco_tcp.c. All of them take one option after another in the same way, which
-- is `step`. Each loop runs on fuel and is given the options' length plus one.
--
-- `none` is a read past the end of the packet's bytes.
pub mod Step
pub mod Bounds
pub mod Encode
pub mod Lookup
use dysco.Base.{
  ℕ, zero, suc, ◌+◌, ◌-◌, ◌*◌, ◌/◌, ◌%◌, Bool, true, false, ◌&&◌, Option, none, some, List, length,
  get_elem?, ◌++◌, [], ◌∷◌, ◌==◌, ltb, leb, if◌then◌else◌, and_then, word32, htons, ntohs, u16, u32,
  swap32,
}
use dysco.Types.{CbOut, CbIn, Skb, TcpHdr, IpHdr}
use Step.{
  OptStep, stop, skip, option, fault, step, kind_window, kind_sack_perm, kind_timestamp, load32,
  load_be32, options_length,
}

-- The offset of the data of the first timestamp option.
unfoldable pub ts_loop : ℕ → List ℕ → ℕ → ℕ → Option (Option ℕ)
ts_loop zero body ptr left = none
ts_loop (suc fuel) body ptr left = elim (step body ptr left) [
  | stop ↦ some none
  | fault ↦ none
  | skip ↦ ts_loop fuel body (ptr + 1) (left - 1)
  | option opcode opsize ↦
      let rest = ts_loop fuel body (ptr + opsize) (left - opsize) in
      if (opcode == kind_timestamp) && (opsize == 10) then some (some (ptr + 2)) else rest
]

unfoldable pub get_ts_option : Skb → Option (Option ℕ)
unfolding ts_loop
get_ts_option skb = let n = options_length skb in ts_loop (suc n) skb.body 0 n

-- The value of a window-scaling option: factors above 14 are illegal and read as 14.
unfoldable pub clamp_wscale : ℕ → ℕ
clamp_wscale snd_wscale = if ltb 14 snd_wscale then 14 else snd_wscale

-- What one option of a SYN or SYN+ACK leaves in the input control block.
unfoldable pub syn_opt_r : List ℕ → ℕ → Bool → ℕ → ℕ → CbIn → Option CbIn
unfolding load_be32 clamp_wscale
syn_opt_r body ptr is_ack opcode opsize d =
    if (opcode == kind_window) && (opsize == 3)
    then and_then (get_elem? body ptr) (λ w.
      some
        (record d { ws_ok = true; ws_delta = 0; ws_in = clamp_wscale w; ws_out = clamp_wscale w }))
    else if (opcode == kind_timestamp) && (opsize == 10) && is_ack
    then and_then (load_be32 body ptr) (λ ts. and_then (load_be32 body (ptr + 4)) (λ tsr.
      some (record d {
        ts_ok = true;
        ts_in = ts;
        ts_out = ts;
        tsr_in = tsr;
        tsr_out = tsr;
        ts_delta = 0;
        tsr_delta = 0;
      })))
    else if (opcode == kind_sack_perm) && (opsize == 2)
    then some (record d { sack_ok = true })
    else some d

unfoldable pub syn_opt_r_loop : ℕ → List ℕ → Bool → ℕ → ℕ → CbIn → Option CbIn
syn_opt_r_loop zero body is_ack ptr left d = none
syn_opt_r_loop (suc fuel) body is_ack ptr left d = elim (step body ptr left) [
  | stop ↦ some d
  | fault ↦ none
  | skip ↦ syn_opt_r_loop fuel body is_ack (ptr + 1) (left - 1) d
  | option opcode opsize ↦
      and_then (syn_opt_r body (ptr + 2) is_ack opcode opsize d)
        (syn_opt_r_loop fuel body is_ack (ptr + opsize) (left - opsize))
]

unfoldable pub parse_tcp_syn_opt_r : Skb → CbIn → Option CbIn
unfolding syn_opt_r_loop
parse_tcp_syn_opt_r skb d =
    let n = options_length skb in
    syn_opt_r_loop (suc n) skb.body skb.th.ack 0 n (record d { sack_ok = false })

abbrev pub dysco_tcp_option : ℕ
dysco_tcp_option = 253

abbrev pub dysco_tcp_option_len : ℕ
dysco_tcp_option_len = 8

unfoldable pub syn_opt_s : List ℕ → ℕ → Bool → ℕ → ℕ → CbOut → Option CbOut
unfolding load32 load_be32 clamp_wscale
syn_opt_s body ptr is_ack opcode opsize d =
    if (opcode == kind_window) && (opsize == 3)
    then and_then (get_elem? body ptr) (λ w.
      some
        (record d { ws_ok = true; ws_delta = 0; ws_in = clamp_wscale w; ws_out = clamp_wscale w }))
    else if (opcode == kind_timestamp) && (opsize == 10) && is_ack
    then and_then (load_be32 body ptr) (λ ts. and_then (load_be32 body (ptr + 4)) (λ tsr.
      some (record d {
        ts_ok = true;
        ts_in = ts;
        ts_out = ts;
        tsr_in = tsr;
        tsr_out = tsr;
        ts_delta = 0;
        tsr_delta = 0;
      })))
    else if (opcode == kind_sack_perm) && (opsize == 2)
    then some (record d { sack_ok = true })
    else if opcode == dysco_tcp_option
    then and_then (load32 body ptr) (λ tag. some (record d { tag_ok = true; dysco_tag = tag }))
    else some d

unfoldable pub syn_opt_s_loop : ℕ → List ℕ → Bool → ℕ → ℕ → CbOut → Option CbOut
syn_opt_s_loop zero body is_ack ptr left d = none
syn_opt_s_loop (suc fuel) body is_ack ptr left d = elim (step body ptr left) [
  | stop ↦ some d
  | fault ↦ none
  | skip ↦ syn_opt_s_loop fuel body is_ack (ptr + 1) (left - 1) d
  | option opcode opsize ↦
      and_then (syn_opt_s body (ptr + 2) is_ack opcode opsize d)
        (syn_opt_s_loop fuel body is_ack (ptr + opsize) (left - opsize))
]

unfoldable pub parse_tcp_syn_opt_s : Skb → CbOut → Option CbOut
unfolding syn_opt_s_loop
parse_tcp_syn_opt_s skb d =
    let n = options_length skb in
    syn_opt_s_loop (suc n) skb.body skb.th.ack 0 n (record d { sack_ok = false })

-- The bytes of a 32-bit word in memory.
abbrev pub bytes32 : ℕ → List ℕ
bytes32 w = w % 256 ∷ w / 256 % 256 ∷ w / 65536 % 256 ∷ w / 16777216 % 256 ∷ []

-- `dysco_insert_tag`: the packet with the option at its tail, and the namespace's next tag.
-- Behind the kind and the length stand two bytes of padding, then the tag.
-- `doff` has four bits. `skb_put` has the room that it needs.
unfoldable pub insert_tag : ℕ → Skb → Skb × ℕ
insert_tag tag skb = (
  record skb {
    body = skb.body ++ dysco_tcp_option ∷ dysco_tcp_option_len ∷ 0 ∷ 0 ∷ bytes32 tag;
    th = record (skb.th) { doff = (skb.th.doff + dysco_tcp_option_len / 4) % 16 };
    ip = record (skb.ip) { tot_len = htons (u16 (ntohs skb.ip.tot_len + dysco_tcp_option_len)) };
    len = skb.len + dysco_tcp_option_len;
    tailroom = skb.tailroom - dysco_tcp_option_len;
  },
  u32 (tag + 1),
)
