-- ===== src/Rewrite/Fields.antt =====
-- Writing one field of a packet, and the arithmetic of a pre-computed difference.
use dysco.Base.{ℕ, ◌+◌, ◌/◌, ◌%◌, Bool, true, false, List, set, add32, sub32}
use dysco.Types.{Skb}

-- `x + delta` or `x - delta`, as the flag says, in 32 bits.
abbrev pub shift : Bool → ℕ → ℕ → ℕ
shift true x delta = add32 x delta
shift false x delta = sub32 x delta

abbrev pub set_seq : ℕ → Skb → Skb
set_seq v s = record s { th = record (s.th) { seq = v } }

abbrev pub set_ack_seq : ℕ → Skb → Skb
set_ack_seq v s = record s { th = record (s.th) { ack_seq = v } }

abbrev pub set_window : ℕ → Skb → Skb
set_window v s = record s { th = record (s.th) { window = v } }

abbrev pub set_source : ℕ → Skb → Skb
set_source v s = record s { th = record (s.th) { source = v } }

abbrev pub set_dest : ℕ → Skb → Skb
set_dest v s = record s { th = record (s.th) { dest = v } }

abbrev pub set_check : ℕ → Skb → Skb
set_check v s = record s { th = record (s.th) { check = v } }

-- A 32-bit store into the bytes behind the TCP header.
unfoldable pub store32 : ℕ → ℕ → List ℕ → List ℕ
store32 p v body =
    set (set (set (set body p (v % 256)) (p + 1) (v / 256 % 256)) (p + 2) (v / 65536 % 256)) (p + 3)
      (v / 16777216 % 256)

abbrev pub set_body : List ℕ → Skb → Skb
set_body b s = record s { body = b }
