-- ===== src/Output/Tag.antt =====
-- The tag of a packet that passes a middlebox: put in by kernel/common/dysco_tcp.c, taken out by
-- kernel/common/dysco_output.c.
use dysco.TcpOptions.Step.{step, load32}
use dysco.Base.{
  true, false, [], word32, ◌*◌, ◌/◌, some, ℕ, ◌+◌, ◌-◌, ◌%◌, ◌≤◌, ◌<◌, ◌≡◌, ◌≢◌, refl, ap, ◌∙◌,
  arith, List, ◌∷◌, ◌++◌, length, take, length-append, ntohs, htons, u16, swap16-swap16, swap16-lt,
}
use dysco.Types.{CbOut, Skb}
use dysco.Kernel.{Kernel}
use dysco.TcpOptions.{
  parse_tcp_syn_opt_s, syn_opt_s, syn_opt_s_loop, insert_tag, bytes32, dysco_tcp_option,
  dysco_tcp_option_len,
}
use dysco.Chain.RoundTrip.{take-length}
use dysco.Output.Session.{remove_tag}

-- The 16-bit length after it has been increased and decreased again.
tot_len_back : (t : ℕ) → t < 65536 → htons (u16 (ntohs (htons (u16 (ntohs t + 8))) + 65536 - 8)) ≡ t
tot_len_back t h =
    rw (swap16-swap16 (u16 (ntohs t + 8)) (omega arith))
      (ap htons (omega (arith, swap16-lt t)) ∙ swap16-swap16 t h)

body_back :
    (body added : List ℕ)
    → length added ≡ 8
    → take (length (body ++ added) - 8) (body ++ added) ≡ body
body_back body added e =
    ap (λ n. take n (body ++ added)) (omega (arith, length-append body added))
    ∙ take-length body added

-- On a SYN without options, and for every tag but 0, the tag that `dysco_parse_tcp_syn_opt_s` reads
-- is not the one that `dysco_insert_tag` has put in, but its lower half moved up by 16 bits: the
-- two bytes of padding are read as its lower half.
pub parse_tcp_syn_opt_s-insert_tag :
    (tag : ℕ) (s : Skb) (d : CbOut)
    → s.th.doff ≡ 5
    → s.body ≡ []
    → 0 < tag
    → (read : ℕ) × (parse_tcp_syn_opt_s (insert_tag tag s).0 d
        ≡ some (record d { sack_ok = false; tag_ok = true; dysco_tag = read }))
      × (read ≡ tag % 65536 * 65536)
      × (read ≢ tag)
unfolding parse_tcp_syn_opt_s insert_tag syn_opt_s_loop syn_opt_s step load32
parse_tcp_syn_opt_s-insert_tag tag s d e b pos = (
  tag % 65536 * 65536,
  rw (e, b)
      (ap (λ n. some (record d { sack_ok = false; tag_ok = true; dysco_tag = n })) (read_back tag)),
  refl,
  λ same. omega (arith, same, pos),
)
  where
    read_back : (n : ℕ) → word32 0 0 (n % 256) (n / 256 % 256) ≡ n % 65536 * 65536
    read_back n = omega arith

module _ ⦃k : Kernel⦄ where
  -- Taking the tag off a packet to which a tag has just been added gives back the packet, for
  -- every tag: with a data offset of four bits, a length of 16 bits and room for the option, even
  -- if the data offset or the length has wrapped in between.
  pub remove_tag-insert_tag :
      (tag : ℕ) (s : Skb)
      → s.th.doff < 16
      → s.ip.tot_len < 65536
      → dysco_tcp_option_len ≤ s.tailroom
      → remove_tag (insert_tag tag s).0 ≡ s
  unfolding remove_tag insert_tag
  remove_tag-insert_tag tag s d t r =
      let added = dysco_tcp_option ∷ dysco_tcp_option_len ∷ 0 ∷ 0 ∷ bytes32 tag in
      let doff : ((s.th.doff + 2) % 16 + 16 - 2) % 16 ≡ s.th.doff = omega arith in
      let len : s.len + 8 - 8 ≡ s.len = omega arith in
      let room : s.tailroom - 8 + 8 ≡ s.tailroom = omega arith in
      rw (doff, len, room, tot_len_back s.ip.tot_len t, body_back s.body added refl) refl
