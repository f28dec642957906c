-- ===== src/Types/Blocks.antt =====
-- kernel/common/dysco.h: the control blocks. A pointer to a block is the block's number in the
-- heap, and `none` is NULL. One-bit fields are `Bool`.
use mathlib.Core.Option.{Option}
use dysco.Base.{ℕ, Bool}
use dysco.Types.Session.{TcpSession, ServiceChain, CbState}

-- The output control block.
pub record CbOut : Type 0 where
  pub dcb_in : Option ℕ
  pub super : TcpSession
  pub sub : TcpSession
  pub in_iseq : ℕ
  pub in_iack : ℕ
  pub out_iseq : ℕ
  pub out_iack : ℕ
  pub ack_delta : ℕ
  pub seq_delta : ℕ
  pub seq_cutoff : ℕ
  pub ack_cutoff : ℕ
  pub my_tp : Option ℕ
  pub other_tp : Option ℕ
  pub sc : Option ServiceChain
  pub other_path : Option ℕ
  pub ts_in : ℕ
  pub ts_out : ℕ
  pub ts_delta : ℕ
  pub tsr_in : ℕ
  pub tsr_out : ℕ
  pub tsr_delta : ℕ
  pub dysco_tag : ℕ
  pub ws_in : ℕ
  pub ws_out : ℕ
  pub ws_delta : ℕ
  pub nh_mac : ℕ
  pub state : CbState
  pub old_path : Bool
  pub valid_ack_cut : Bool
  pub use_np_seq : Bool
  pub use_np_ack : Bool
  pub state_t : Bool
  pub free_sc : Bool
  pub ack_add : Bool
  pub seq_add : Bool
  pub sack_ok : Bool
  pub ts_ok : Bool
  pub ts_add : Bool
  pub ws_ok : Bool
  pub tsr_add : Bool
  pub tag_ok : Bool
  pub ack_ctr : ℕ

-- The input control block.
pub record CbIn : Type 0 where
  pub dcb_out : Option ℕ
  pub sub : TcpSession
  pub super : TcpSession
  pub in_iseq : ℕ
  pub in_iack : ℕ
  pub out_iseq : ℕ
  pub out_iack : ℕ
  pub ack_delta : ℕ
  pub seq_delta : ℕ
  pub ts_in : ℕ
  pub ts_out : ℕ
  pub ts_delta : ℕ
  pub tsr_in : ℕ
  pub tsr_out : ℕ
  pub tsr_delta : ℕ
  pub ws_in : ℕ
  pub ws_out : ℕ
  pub ws_delta : ℕ
  pub two_paths : Bool
  pub ack_add : Bool
  pub seq_add : Bool
  pub sack_ok : Bool
  pub ts_ok : Bool
  pub ts_add : Bool
  pub tsr_add : Bool
  pub ws_ok : Bool
  pub skb_iif : ℕ

-- The reconfiguration control block. Times are in nanoseconds.
pub record CbReconfig : Type 0 where
  pub super : TcpSession
  pub left_ss : TcpSession
  pub right_ss : TcpSession
  pub sub_out : TcpSession
  pub sub_in : TcpSession
  pub old_dcb : Option ℕ
  pub new_dcb : Option ℕ
  pub rec_begin : ℕ
  pub rec_end : ℕ
  pub left_iseq : ℕ
  pub left_iack : ℕ
  pub left_its : ℕ
  pub left_itsr : ℕ
  pub left_iws : ℕ
  pub left_iwsr : ℕ
  pub nh_mac : ℕ
  pub sack_ok : ℕ
  pub rec_done : Bool
