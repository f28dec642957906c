-- ===== src/Types/Packet.antt =====
-- A packet as the module sees it: the headers' fields as loaded from memory (multi-byte fields
-- in network byte order), and the bytes that follow the fixed TCP header.
use dysco.Base.{ℕ, Bool, List}
use dysco.Types.Session.{TcpSession, MsgType}

pub data IpSummed : Type 0 where
  checksum_none checksum_unnecessary checksum_complete checksum_partial : IpSummed

pub data Protocol : Type 0 where
  tcp udp other : Protocol

pub record EthHdr : Type 0 where
  pub h_dest : ℕ
  pub h_source : ℕ
  pub is_ip : Bool

pub record IpHdr : Type 0 where
  pub ihl : ℕ
  pub tot_len : ℕ
  pub protocol : Protocol
  pub check : ℕ
  pub saddr : ℕ
  pub daddr : ℕ

pub record TcpHdr : Type 0 where
  pub source : ℕ
  pub dest : ℕ
  pub seq : ℕ
  pub ack_seq : ℕ
  pub doff : ℕ
  pub fin : Bool
  pub syn : Bool
  pub ack : Bool
  pub window : ℕ
  pub check : ℕ

pub record UdpHdr : Type 0 where
  pub source : ℕ
  pub dest : ℕ
  pub len : ℕ

-- The control message of kernel/common/dysco.h, multi-byte fields in network byte order.
pub record ControlMessage : Type 0 where
  pub mtype : MsgType
  pub super : TcpSession
  pub left_ss : TcpSession
  pub right_ss : TcpSession
  pub left_a : ℕ
  pub right_a : ℕ
  pub sport : ℕ
  pub dport : ℕ
  pub left_iseq : ℕ
  pub left_iack : ℕ
  pub seq_cutoff : ℕ
  pub left_its : ℕ
  pub left_itsr : ℕ
  pub left_iws : ℕ
  pub left_iwsr : ℕ
  pub sack_ok : ℕ
  pub semantic : ℕ

-- `body` holds the bytes behind the fixed TCP header up to the packet's tail. `dev` is the
-- network device, and `dev_addr` its hardware address.
pub record Skb : Type 0 where
  pub eth : EthHdr
  pub ip : IpHdr
  pub th : TcpHdr
  pub body : List ℕ
  pub uh : UdpHdr
  pub cmsg : ControlMessage
  pub udp_check : ℕ
  pub len : ℕ
  pub tailroom : ℕ
  pub ip_summed : IpSummed
  pub csum : ℕ
  pub csum_valid : Bool
  pub skb_iif : ℕ
  pub dev : ℕ
  pub dev_addr : ℕ
  pub loopback : Bool

-- The packet in hand and the module's counters of rewritten fields.
pub record Ctx : Type 0 where
  pub skb : Skb
  pub tcp_sack_rewrites : ℕ
  pub tcp_ts_rewrites : ℕ
  pub tcp_tsr_rewrites : ℕ
