-- ===== src/Nf.antt =====
-- kernel/nf/d.c: the Netfilter hooks.
pub mod Frames
use dysco.Base.{ℕ, ◌+◌, ◌-◌, true, List, [], ◌∷◌, ◌==◌, leb, if◌then◌else◌}
use dysco.Types.{Skb}
use dysco.Kernel.{Kernel}
use dysco.Heap.{M, pure, ◌>>=◌, ◌>>◌, get_skb, modify_skb}
use dysco.Output.Syn.{output}
use dysco.Input.Handler.{RxResult, rx_pass, rx_consumed, input}

pub data Verdict : Type 0 where
  nf_accept nf_drop : Verdict

-- `RX_HANDLER_CONSUMED` is 0, and `RX_HANDLER_PASS` is not.
unfoldable pub verdict_in : RxResult → Verdict
verdict_in rx_pass = nf_accept
verdict_in rx_consumed = nf_drop

unfoldable pub verdict_out : ℕ → Verdict
verdict_out ret = if ret == 1 then nf_accept else nf_drop

abbrev pub ether_hdr_len : ℕ
ether_hdr_len = 14

-- `skb_push` of an Ethernet header for IP, and `skb_pull`, which does nothing to a packet that is
-- shorter.
unfoldable pub push_ether : Skb → Skb
push_ether s = record s { len = s.len + ether_hdr_len; eth = record (s.eth) { is_ip = true } }

unfoldable pub pull_ether : Skb → Skb
pull_ether s = if leb ether_hdr_len s.len then record s { len = s.len - ether_hdr_len } else s

module _ ⦃k : Kernel⦄ where
  -- `dysco_nf_in`, for the addresses of the device: the packet is handled for the first one that
  -- it is sent to.
  unfoldable pub nf_in : M ℕ → List ℕ → M Verdict
  unfolding verdict_in
  nf_in control_input [] = pure nf_accept
  nf_in control_input (a ∷ rest) = do
    s ← get_skb
    if s.ip.daddr == a
        then (do ret ← input control_input; pure (verdict_in ret))
        else nf_in control_input rest

  -- `dysco_nf_out`.
  unfoldable pub nf_out : M ℕ → M Verdict
  unfolding verdict_out push_ether pull_ether
  nf_out control_output = do
    modify_skb push_ether
    ret ← output control_output
    modify_skb pull_ether
    pure (verdict_out ret)
