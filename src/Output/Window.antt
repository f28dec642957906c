-- ===== src/Output/Window.antt =====
-- kernel/common/dysco_output.c, `dysco_fix_rcv_window`: the window that a splicing middlebox
-- announces is throttled by the data that wait in its own socket.
use dysco.Base.{
  ℕ, ◌+◌, ◌-◌, ◌*◌, ◌/◌, ◌^◌, ◌≤◌, arith, ◌≡◌, refl, Bool, true, false, ltb, leb, ◌==◌,
  if◌then◌else◌, htons, ntohs, u16, u32, sub32, swap16, swap16-swap16, Bool-cases, inl, inr,
}
use native.Mathlib.Nat.{le_refl, le_trans}
use dysco.Types.{Skb}
use dysco.Kernel.{Kernel, TcpSock}
use dysco.Rewrite.Fields.{set_window}

abbrev pub max_wnd_rec : ℕ
max_wnd_rec = 16384

-- The bytes that wait in the receive buffer. Where the numbers have wrapped, the source
-- subtracts the position of the other socket.
unfoldable pub rcv_buf : TcpSock → TcpSock → ℕ
rcv_buf my_tp other_tp =
    if leb my_tp.copied_seq my_tp.rcv_nxt
    then my_tp.rcv_nxt - my_tp.copied_seq
    else sub32 my_tp.rcv_nxt other_tp.copied_seq

-- The values that the source gives `new_wnd` before the last test are overwritten by it.
unfoldable pub new_wnd : ℕ → ℕ → ℕ
new_wnd buffered old_wnd =
    if ltb max_wnd_rec buffered then 0 else if ltb old_wnd max_wnd_rec then old_wnd else max_wnd_rec

module _ ⦃k : Kernel⦄ where
  unfoldable pub fix_rcv_window : TcpSock → TcpSock → Skb → Skb
  fix_rcv_window my_tp other_tp s =
      let wscale = u16 my_tp.rcv_wscale in
      let old_wnd = u32 (ntohs s.th.window * 2 ^ wscale) in
      let new_win = htons (u16 (new_wnd (rcv_buf my_tp other_tp) old_wnd / 2 ^ wscale)) in
      if s.th.window == 0
      then s
      else set_window new_win (k.inet_csum_replace2 s s.th.window new_win false)

-- The bytes that wait in the send buffer; 2^32 is added where the numbers have wrapped.
unfoldable pub snd_buf : TcpSock → ℕ
snd_buf other_tp =
    if leb other_tp.snd_una other_tp.snd_nxt
    then other_tp.snd_nxt - other_tp.snd_una
    else sub32 other_tp.snd_nxt other_tp.snd_una

module _ ⦃k : Kernel⦄ where
  -- `dysco_fix_rcv_window_old`, which nothing calls: the window is what is left of the largest
  -- window that the other socket has seen.
  unfoldable pub fix_rcv_window_old : TcpSock → TcpSock → Skb → Skb
  fix_rcv_window_old my_tp other_tp s =
      let old_wnd = u32 (ntohs s.th.window * 2 ^ my_tp.rcv_wscale) in
      let tot_buf = u32 (snd_buf other_tp + rcv_buf my_tp other_tp) in
      let left = other_tp.max_window - tot_buf in
      let new_win = htons (u16 (left / 2 ^ my_tp.rcv_wscale)) in
      if s.th.window == 0
      then s
      else if leb other_tp.max_window tot_buf
      then set_window 0 (k.inet_csum_replace2 s s.th.window 0 false)
      else if ltb left old_wnd
      then set_window new_win (k.inet_csum_replace2 s s.th.window new_win false)
      else s

div_le_of_le_mul : (x o m : ℕ) → x ≤ o * m → x / m ≤ o
div_le_of_le_mul x o m h = grind arith

new_wnd-le : (buffered old_wnd : ℕ) → new_wnd buffered old_wnd ≤ old_wnd
unfolding new_wnd
new_wnd-le buffered old_wnd = ground arith

u32-le : (n : ℕ) → u32 n ≤ n
u32-le n = omega arith

-- A window that is not larger than the old one before scaling is not larger after it.
scaled-le :
    (window n wscale : ℕ)
    → n ≤ u32 (ntohs window * 2 ^ wscale)
    → ntohs (htons (u16 (n / 2 ^ wscale))) ≤ ntohs window
scaled-le window n wscale h = rw (swap16-swap16 (u16 (n / 2 ^ wscale)) (omega arith)) (
    omega (
      arith,
      div_le_of_le_mul n (ntohs window) (2 ^ wscale)
          (le_trans h (u32-le (ntohs window * 2 ^ wscale))),
    ))

module _ ⦃k : Kernel⦄ where
  -- The window that is announced never grows: in host byte order, the new one is at most the old
  -- one, for every state of the two sockets.
  pub fix_rcv_window-le :
      (my_tp other_tp : TcpSock) (s : Skb)
      → ntohs (fix_rcv_window my_tp other_tp s).th.window ≤ ntohs s.th.window
  unfolding fix_rcv_window
  fix_rcv_window-le my_tp other_tp s =
      let wscale = u16 my_tp.rcv_wscale in
      let old_wnd = u32 (ntohs s.th.window * 2 ^ wscale) in
      elim (Bool-cases (s.th.window == 0)) [
        | inl closed ↦ rw closed (le_refl (ntohs s.th.window))
        | inr wide ↦ rw wide (
            scaled-le s.th.window (new_wnd (rcv_buf my_tp other_tp) old_wnd) wscale
              (new_wnd-le (rcv_buf my_tp other_tp) old_wnd))
      ]

  -- The same for the function that is not called.
  fix_rcv_window_old-le :
      (my_tp other_tp : TcpSock) (s : Skb)
      → ntohs (fix_rcv_window_old my_tp other_tp s).th.window ≤ ntohs s.th.window
  unfolding fix_rcv_window_old swap16
  fix_rcv_window_old-le my_tp other_tp s =
      go (s.th.window == 0) (leb other_tp.max_window tot_buf) (ltb left old_wnd) refl
    where
      old_wnd : ℕ
      old_wnd = u32 (ntohs s.th.window * 2 ^ my_tp.rcv_wscale)

      tot_buf : ℕ
      tot_buf = u32 (snd_buf other_tp + rcv_buf my_tp other_tp)

      left : ℕ
      left = other_tp.max_window - tot_buf

      new_win : ℕ
      new_win = htons (u16 (left / 2 ^ my_tp.rcv_wscale))

      go :
          (closed full less : Bool)
          → ltb left old_wnd ≡ less
          → ntohs
              (if closed
                then s
                else if full
                then set_window 0 (k.inet_csum_replace2 s s.th.window 0 false)
                else if less
                then set_window new_win (k.inet_csum_replace2 s s.th.window new_win false)
                else s).th.window
            ≤ ntohs s.th.window
      go true full less e = le_refl (ntohs s.th.window)
      go false true less e = omega arith
      go false false true e = scaled-le s.th.window left my_tp.rcv_wscale (ground arith)
      go false false false e = le_refl (ntohs s.th.window)
