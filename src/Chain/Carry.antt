-- ===== src/Chain/Carry.antt =====
-- The service chain of a SYN from the host that adds it to the host that takes it out.
use dysco.Base.{
  ℕ, ◌+◌, ◌-◌, ◌≤◌, ◌<◌, ◌≡◌, refl, ap, ◌∙◌, arith, some, ◌++◌, length, take, drop, length-append,
  le→leb, htons, ntohs, u16, swap16-swap16, swap16-lt,
}
use dysco.Types.{Skb, TcpSession, ServiceChain}
use dysco.Kernel.{Kernel}
use dysco.TcpOptions.Step.{options_length}
use dysco.Chain.{
  session_size, sc_mem_sz, hops_bytes, syn_bytes, read_session, read_sc_len, read_hops, payload_ptr,
  add_sc, remove_sc,
}
use dysco.Chain.RoundTrip.{
  IsSessionWords, IsChain, AllWords, drop-length, take-length, take_all, length-hops_bytes,
  read_session-syn_bytes, read_sc_len-syn_bytes, read_hops-syn_bytes,
}

length-syn_bytes :
    (super : TcpSession) (sc : ServiceChain)
    → IsChain sc
    → length (syn_bytes super sc) ≡ session_size + sc_mem_sz sc.len
unfolding syn_bytes
length-syn_bytes super sc c = omega (
  arith,
  c.same,
  ap length (ap hops_bytes (ap (λ (n : ℕ). take n sc.hops) c.same ∙ take_all sc.hops)),
  length-hops_bytes sc.hops,
)

-- The packet with a session and `len` hops cut off its end.
abbrev trimmed : Skb → ℕ → Skb
trimmed u len =
    let new_len = u.len - (session_size + sc_mem_sz len) in
    record u {
      body = take (length u.body - (u.len - new_len)) u.body;
      len = new_len;
      tailroom = u.tailroom + (u.len - new_len);
      ip = record (u.ip) { tot_len = htons (u16 new_len) };
    }

remove_sc-trimmed :
    (u : Skb) (len : ℕ)
    → read_sc_len u.body (payload_ptr u) ≡ some len
    → session_size + sc_mem_sz len ≤ u.len
    → remove_sc u ≡ some (trimmed u len)
unfolding remove_sc
remove_sc-trimmed u len e room = rw (e, le→leb (session_size + sc_mem_sz len) u.len room) refl

-- What `add_sc` does to the packet's bytes and lengths.
pub record Added (super : TcpSession) (sc : ServiceChain) (s t : Skb) : Type 0 where
  pub body : t.body ≡ s.body ++ syn_bytes super sc
  pub len : t.len ≡ s.len + (session_size + sc_mem_sz sc.len)
  pub doff : t.th.doff ≡ s.th.doff
  pub room : session_size + sc_mem_sz sc.len ≤ s.tailroom

module _ ⦃k : Kernel⦄ (super : TcpSession) (sc : ServiceChain) (s t : Skb)
    (added : add_sc super sc s ≡ some t) where
  pub add_sc-Added : Added super sc s t
  unfolding add_sc
  add_sc-Added = ground arith

  module _ (bare : length s.body ≡ options_length s) (w : IsSessionWords super)
      (c : IsChain sc) where
    payload_at : drop (payload_ptr t) t.body ≡ syn_bytes super sc
    payload_at =
        let a = add_sc-Added in
        rw (a.doff, a.body, ← bare) (drop-length s.body (syn_bytes super sc))

    -- A SYN without data to which `dysco_add_sc` has added a session and a service chain reads,
    -- at its payload, as that session, that length and those hops.
    pub add_sc-read :
        AllWords t.body sc.hops
        → (read_session t.body (payload_ptr t) ≡ some super)
          × (read_sc_len t.body (payload_ptr t) ≡ some sc.len)
          × (read_hops sc.len t.body (payload_ptr t + 16) ≡ some sc.hops)
    add_sc-read hw = (
      read_session-syn_bytes t.body (payload_ptr t) super sc w c payload_at,
      read_sc_len-syn_bytes t.body (payload_ptr t) super sc w c payload_at,
      read_hops-syn_bytes t.body (payload_ptr t) super sc w c payload_at hw,
    )

    -- `dysco_add_sc` has put a session and a chain, whose fields fit their words, into a SYN without
    -- data. On a packet `u` with these bytes, whose IP header holds the packet's length,
    -- `dysco_remove_sc` returns, gives back the bytes from before, and shortens the packet and the
    -- length in its IP header by the size of the session and the chain.
    pub remove_sc-add_sc :
        (u : Skb)
        → u.body ≡ t.body
        → u.th.doff ≡ t.th.doff
        → session_size + sc_mem_sz sc.len ≤ u.len
        → u.ip.tot_len < 65536
        → ntohs u.ip.tot_len ≡ u.len
        → (v : Skb) × (remove_sc u ≡ some v)
          × (v.body ≡ s.body)
          × (v.len ≡ u.len - (session_size + sc_mem_sz sc.len))
          × (ntohs v.ip.tot_len ≡ ntohs u.ip.tot_len - (session_size + sc_mem_sz sc.len))
    remove_sc-add_sc u eb ed room word same =
        let a = add_sc-Added in
        let size = session_size + sc_mem_sz sc.len in
        let read : read_sc_len u.body (payload_ptr u) ≡ some sc.len =
          rw (eb, ed) (read_sc_len-syn_bytes t.body (payload_ptr t) super sc w c payload_at) in
        let cut : length u.body - (u.len - (u.len - size)) ≡ length s.body = omega (
          arith,
          ap length (eb ∙ a.body),
          length-append s.body (syn_bytes super sc),
          length-syn_bytes super sc c,
        ) in
        (
          trimmed u sc.len,
          remove_sc-trimmed u sc.len read room,
          ap (λ (n : ℕ). take n u.body) cut
              ∙ ap (take (length s.body)) (eb ∙ a.body)
              ∙ take-length s.body (syn_bytes super sc),
          refl,
          swap16-swap16 (u16 (u.len - size)) (omega arith)
              ∙ omega (arith, same, swap16-lt u.ip.tot_len),
        )
