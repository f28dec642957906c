-- ===== src/Types/Session.antt =====
-- kernel/common/dysco.h: TCP sessions, service chains and the messages' codes.
use dysco.Base.{ℕ, ◌≡◌, arith, Bool, true, false, ◌&&◌, List, ◌==◌}

-- Addresses and ports are kept as the packet holds them, in network byte order.
pub record TcpSession : Type 0 where
  pub sip : ℕ
  pub dip : ℕ
  pub sport : ℕ
  pub dport : ℕ

-- A hop is the address of a middlebox. `len` is the length that the structure records.
pub record ServiceChain : Type 0 where
  pub len : ℕ
  pub pos : ℕ
  pub hops : List ℕ

pub record SynPacket : Type 0 where
  pub ss : TcpSession
  pub sc : ServiceChain

-- The lookups compare sessions byte by byte.
unfoldable pub session_eq : TcpSession → TcpSession → Bool
session_eq s t =
    (s.sip == t.sip) && (s.dip == t.dip) && (s.sport == t.sport) && (s.dport == t.dport)

pub session_eq_refl : (s : TcpSession) → session_eq s s ≡ true
unfolding session_eq
session_eq_refl s = ground arith

pub eq_of_session_eq : (s t : TcpSession) → session_eq s t ≡ true → s ≡ t
unfolding session_eq
eq_of_session_eq s t h = ground arith

-- The same session seen from the other end.
abbrev pub rev_session : TcpSession → TcpSession
rev_session ss = record { sip = ss.dip; dip = ss.sip; sport = ss.dport; dport = ss.sport }

-- States of a connection. The reconfiguration protocol names three of them as TCP does.
pub data CbState : Type 0 where
  one_path adding_new_path accepting_new_path initializing_new_path managing_two_paths
        finishing_old_path unlocked lock_pending locked :
      CbState

pattern abbrev pub syn_sent : CbState
syn_sent = adding_new_path

pattern abbrev pub syn_received : CbState
syn_received = accepting_new_path

pattern abbrev pub established : CbState
established = initializing_new_path

abbrev pub is_established : CbState → Bool
is_established established = true
is_established _ = false

abbrev pub is_syn_sent : CbState → Bool
is_syn_sent syn_sent = true
is_syn_sent _ = false

abbrev pub is_syn_received : CbState → Bool
is_syn_received syn_received = true
is_syn_received _ = false

-- The control messages, in the order of the enumeration, and any other number.
pub data MsgType : Type 0 where
  request_lock ack_lock nack_lock syn syn_ack ack fin fin_ack policy rem_policy clear clear_all
        buffer_packet tcp_splice copy_state put_state state_transferred ack_ack get_mapping
        get_rec_time unknown :
      MsgType
