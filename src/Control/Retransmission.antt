-- ===== src/Control/Retransmission.antt =====
-- A `DYSCO_ACK` that comes after another one for the same session.
pub mod SynAck
use dysco.Base.{
  ℕ, ◌+◌, ◌≡◌, refl, subst, ap, sym, ◌∙◌, arith, Bool, true, false, not, Option, none, some, List,
  [], ◌∷◌, get_elem?, set, get_elem?-set_self, ◌⊎◌, inl, inr, Bool-cases, Option-cases, ntohl, ◌==◌,
  if◌then◌else◌, and_then,
}
use dysco.Types.{Skb, CbOut, CbReconfig, ControlMessage, IpHdr, is_established}
use dysco.Kernel.{Kernel}
use dysco.Heap.{◌>>=◌, ◌>>◌, World, Hashes, load_out, load_rcb, modify_out}
use dysco.Heap.Laws.{
  HasOut, HasRcb, store_out, HasOut-cases, HasRcb-cases, load_out-HasOut, modify_out-HasOut,
  HasOut-store_out, HasOut-store_ne, store_out-same, load_rcb-HasRcb, modify_out-fault,
}
use dysco.Input.Paths.{to_old_ack}
use dysco.Control.Settled.{Quiet, same_run, faults}
use dysco.Control.Input.{learn_ack_cutoff, input_syn_ack, establish, input_ack}

module _ ⦃k : Kernel⦄ where
  -- The blocks that a `DYSCO_ACK` finds at the right anchor.
  record AtRight (s : Skb) (w : World) (r old new_ : ℕ) (rcb : CbReconfig) (o : CbOut)
      : Type 0 where
    known : k.sessions.lookup w.dh.hash_reconfig s.cmsg.super ≡ some r
    right : (s.cmsg.right_a == s.ip.daddr) ≡ true
    at_rcb : HasRcb w r rcb
    old_dcb : rcb.old_dcb ≡ some old
    at_old : HasOut w old o
    other : o.other_path ≡ some new_

  module _ (s : Skb) (w : World) (r old new_ : ℕ) (rcb : CbReconfig) (o n : CbOut)
      (at : AtRight s w r old new_ rcb o) (at_new : HasOut w new_ n) where
    input_ack-established : is_established o.state ≡ true → input_ack s w ≡ some (some 1, w)
    unfolding input_ack load_out load_rcb
    input_ack-established e =
        rw (at.known, at.right, ◌>>=◌, at.at_rcb, at.old_dcb, at.at_old, at.other, at_new, e) refl

    input_ack-first :
        (w1 : World)
        → is_established o.state ≡ false
        → modify_out old (establish (to_old_ack n (ntohl s.cmsg.seq_cutoff))) w ≡ some (tt, w1)
        → input_ack s w ≡ some (none, w1)
    unfolding input_ack load_out load_rcb
    input_ack-first w1 e m =
        rw (at.known, at.right, ◌>>=◌, at.at_rcb, at.old_dcb, at.at_old, at.other, at_new, e, m)
          refl

  -- The old block still knows the new path after the cutoff has been stored.
  establish-other : (c : ℕ) (o : CbOut) → (establish c o).other_path ≡ o.other_path
  establish-other c o = ground arith

  establish-waits : (c : ℕ) (o : CbOut) → o.state_t ≡ true → establish c o ≡ o
  establish-waits c o st = rw st refl

  establish-state :
      (c : ℕ) (o : CbOut) → o.state_t ≡ false → is_established (establish c o).state ≡ true
  establish-state c o st = rw st refl

  eq_of : (p q : ℕ) → (p == q) ≡ true → p ≡ q
  eq_of p q e = ground arith

  -- The new path's block is there after a write to the old path's block.
  HasOut-after :
      (w : World) (p q : ℕ) (b b' n : CbOut)
      → HasOut w p b
      → HasOut w q n
      → (n' : CbOut) × HasOut (store_out p b' w) q n'
  HasOut-after w p q b b' n hp hq = elim (Bool-cases (p == q)) [
    | inl same ↦ (b', rw (← eq_of p q same) (HasOut-store_out w p b hp b'))
    | inr differs ↦ (n, HasOut-store_ne w p q b' n (ground arith) hq)
  ]

  module _ (s s' : Skb) (same : s'.cmsg.super ≡ s.cmsg.super)
      (side : (s'.cmsg.right_a == s'.ip.daddr) ≡ (s.cmsg.right_a == s.ip.daddr)) where
    AtRight-other :
        (w : World) (r old new_ : ℕ) (rcb : CbReconfig) (o : CbOut)
        → AtRight s w r old new_ rcb o
        → AtRight s' w r old new_ rcb o
    AtRight-other w r old new_ rcb o at = record {
      known = ap (k.sessions.lookup w.dh.hash_reconfig) same ∙ at.known;
      right = side ∙ at.right;
      at_rcb = at.at_rcb;
      old_dcb = at.old_dcb;
      at_old = at.at_old;
      other = at.other;
    }

    module _ (w : World) (r old new_ : ℕ) (rcb : CbReconfig) (o n : CbOut)
        (at : AtRight s w r old new_ rcb o) (at_new : HasOut w new_ n) where
      abbrev stored : Skb → World
      stored t = store_out old (establish (to_old_ack n (ntohl t.cmsg.seq_cutoff)) o) w

      stored-waits : (t : Skb) → o.state_t ≡ true → stored t ≡ w
      stored-waits t st =
          ap (λ b. store_out old b w)
            (establish-waits (to_old_ack n (ntohl t.cmsg.seq_cutoff)) o st)
          ∙ store_out-same w old o at.at_old

      first_run :
          (t : Skb)
          → AtRight t w r old new_ rcb o
          → is_established o.state ≡ false
          → input_ack t w ≡ some (none, stored t)
      first_run t at_t e = input_ack-first t w r old new_ rcb o n at_t at_new (stored t) e (
          modify_out-HasOut w old o at_t.at_old
            (establish (to_old_ack n (ntohl t.cmsg.seq_cutoff))))

      quiet_stored : is_established o.state ≡ false → Quiet (input_ack s') (stored s)
      quiet_stored e = elim (Bool-cases o.state_t) [
        | inl st ↦ subst (Quiet (input_ack s')) (sym (stored-waits s st)) (
          none,
          first_run s' (AtRight-other w r old new_ rcb o at) e
              ∙ ap (λ x. some (none, x)) (stored-waits s' st),
        )
        | inr st ↦
            let c = to_old_ack n (ntohl s.cmsg.seq_cutoff) in
            let h = HasOut-after w old new_ o (establish c o) n at.at_old at_new in
            let at1 : AtRight s (stored s) r old new_ rcb (establish c o) = record {
              known = at.known;
              right = at.right;
              at_rcb = at.at_rcb;
              old_dcb = at.old_dcb;
              at_old = HasOut-store_out w old o at.at_old (establish c o);
              other = establish-other c o ∙ at.other;
            } in
            (
              some 1,
              input_ack-established s' (stored s) r old new_ rcb (establish c o) h.0
                  (AtRight-other (stored s) r old new_ rcb (establish c o) at1) h.1
                  (establish-state c o st),
            )
      ]

      settle : (w' : World) (v : Option ℕ) → input_ack s w ≡ some (v, w') → Quiet (input_ack s') w'
      settle w' v h = elim (Bool-cases (is_established o.state)) [
        | inl e ↦
            same_run (input_ack s) (input_ack s') w w' v h (some 1) w
              (input_ack-established s w r old new_ rcb o n at at_new e)
              (
                some 1,
                input_ack-established s' w r old new_ rcb o n (AtRight-other w r old new_ rcb o at)
                    at_new e,
              )
        | inr e ↦
            same_run (input_ack s) (input_ack s') w w' v h none (stored s) (first_run s at e)
              (quiet_stored e)
      ]

    module _ (w w' : World) (v : Option ℕ) (h : input_ack s w ≡ some (v, w')) where
      abbrev ends :
          (u : Option ℕ)
          → input_ack s w ≡ some (u, w)
          → input_ack s' w ≡ some (u, w)
          → Quiet (input_ack s') w'
      ends u e f = same_run (input_ack s) (input_ack s') w w' v h u w e (u, f)

      module _ (r : ℕ) (rcb : CbReconfig)
          (e : k.sessions.lookup w.dh.hash_reconfig s.cmsg.super ≡ some r)
          (right : (s.cmsg.right_a == s.ip.daddr) ≡ true) (at_rcb : HasRcb w r rcb) where
        e' : k.sessions.lookup w.dh.hash_reconfig s'.cmsg.super ≡ some r
        e' = ap (k.sessions.lookup w.dh.hash_reconfig) same ∙ e

        -- The old block is there.
        old-Quiet :
            (old : ℕ) (o : CbOut)
            → rcb.old_dcb ≡ some old
            → HasOut w old o
            → Quiet (input_ack s') w'
        unfolding input_ack load_rcb load_out
        old-Quiet old o eo at_old = elim (Option-cases o.other_path) [
          | inl en ↦
              ends none (rw (e, right, ◌>>=◌, at_rcb, eo, at_old, en) refl)
                (rw (e', side ∙ right, ◌>>=◌, at_rcb, eo, at_old, en) refl)
          | inr (new_, en) ↦ elim (HasOut-cases w new_) [
            | inl f ↦
                faults (input_ack s) (input_ack s') w w' v h
                  (rw (e, right, ◌>>=◌, at_rcb, eo, at_old, en, f) refl)
            | inr (n, at_new) ↦
                settle w r old new_ rcb o n
                  (record {
                    known = e;
                    right = right;
                    at_rcb = at_rcb;
                    old_dcb = eo;
                    at_old = at_old;
                    other = en;
                  })
                  at_new w' v h
          ]
        ]

        rcb-Quiet : Quiet (input_ack s') w'
        unfolding input_ack load_rcb load_out
        rcb-Quiet = elim (Option-cases rcb.old_dcb) [
          | inl en ↦
              ends none (rw (e, right, ◌>>=◌, at_rcb, en) refl)
                (rw (e', side ∙ right, ◌>>=◌, at_rcb, en) refl)
          | inr (old, eo) ↦ elim (HasOut-cases w old) [
            | inl f ↦
                faults (input_ack s) (input_ack s') w w' v h
                  (rw (e, right, ◌>>=◌, at_rcb, eo, f) refl)
            | inr (o, at_old) ↦ old-Quiet old o eo at_old
          ]
        ]

      -- When a `DYSCO_ACK` has been handled, another one for the same session that is on the same
      -- side of the right anchor is handled without a fault and changes nothing, whatever cutoff it
      -- brings and whatever the first one found and did.
      pub input_ack-input_ack : Quiet (input_ack s') w'
      unfolding input_ack load_rcb
      input_ack-input_ack =
          elim (Option-cases (k.sessions.lookup w.dh.hash_reconfig s.cmsg.super)) [
            | inl e ↦
                ends none (rw e refl) (rw (ap (k.sessions.lookup w.dh.hash_reconfig) same ∙ e) refl)
            | inr (r, e) ↦
                let e' = ap (k.sessions.lookup w.dh.hash_reconfig) same ∙ e in
                elim (Bool-cases (s.cmsg.right_a == s.ip.daddr)) [
                  | inr elsewhere ↦
                      ends none (rw (e, elsewhere) refl) (rw (e', side ∙ elsewhere) refl)
                  | inl right ↦ elim (HasRcb-cases w r) [
                    | inl f ↦
                        faults (input_ack s) (input_ack s') w w' v h (rw (e, right, ◌>>=◌, f) refl)
                    | inr (rcb, at_rcb) ↦ rcb-Quiet r rcb e right at_rcb
                  ]
                ]
          ]
