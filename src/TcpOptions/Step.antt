-- ===== src/TcpOptions/Step.antt =====
-- One round of an options loop: the switch on the option's kind, with the checks of its length.
use dysco.Base.{
  ℕ, ◌+◌, ◌-◌, ◌*◌, Option, none, some, List, get_elem?, ◌==◌, ltb, if◌then◌else◌, and_then, word32,
}
use dysco.Types.{Skb}

-- The kinds of TCP options that the code treats.
abbrev pub kind_eol : ℕ
kind_eol = 0

abbrev pub kind_nop : ℕ
kind_nop = 1

abbrev pub kind_window : ℕ
kind_window = 3

abbrev pub kind_sack_perm : ℕ
kind_sack_perm = 4

abbrev pub kind_sack : ℕ
kind_sack = 5

abbrev pub kind_timestamp : ℕ
kind_timestamp = 8

-- `stop` leaves the loop, `skip` is a one-byte option, `option` has a kind and a length.
pub data OptStep : Type 0 where
  stop skip fault : OptStep
  option : ℕ → ℕ → OptStep

-- `left` bytes of options are left, and begin at `ptr`.
unfoldable pub step : List ℕ → ℕ → ℕ → OptStep
step body ptr left = if left == 0 then stop else elim (get_elem? body ptr) [
  | none ↦ fault
  | some opcode ↦
      if opcode == kind_eol
      then stop
      else if opcode == kind_nop
      then skip
      else elim (get_elem? body (ptr + 1)) [
        | none ↦ fault
        | some opsize ↦
            if ltb opsize 2 then stop else if ltb left opsize then stop else option opcode opsize
      ]
]

-- `(th->doff * 4) - sizeof(struct tcphdr)`; a negative length runs no loop, as 0 does.
abbrev pub options_length : Skb → ℕ
options_length skb = skb.th.doff * 4 - 20

-- A 32-bit load.
unfoldable pub load32 : List ℕ → ℕ → Option ℕ
load32 body ptr = and_then (get_elem? body ptr) λ b0. and_then (get_elem? body (ptr + 1)) λ b1.
    and_then (get_elem? body (ptr + 2))
      λ b2. and_then (get_elem? body (ptr + 3)) λ b3. some (word32 b0 b1 b2 b3)

-- `get_unaligned_be32`.
unfoldable pub load_be32 : List ℕ → ℕ → Option ℕ
load_be32 body ptr = and_then (get_elem? body ptr) λ b0. and_then (get_elem? body (ptr + 1)) λ b1.
    and_then (get_elem? body (ptr + 2))
      λ b2. and_then (get_elem? body (ptr + 3)) λ b3. some (word32 b3 b2 b1 b0)
