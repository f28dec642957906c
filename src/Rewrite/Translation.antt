-- ===== src/Rewrite/Translation.antt =====
-- What a packet's numbers become under the differences that the right anchor computes:
-- `seq_out = (seq_in - in_iss) + out_iss`, as kernel/common/dysco.h specifies it.
use dysco.Base.{
  ℕ, ◌<◌, ◌≡◌, arith, Bool-cases, inl, inr, ◌==◌, add32, sub32, ntohl, swap32-lt, swap32-swap32,
}
use dysco.Types.{CbOut, CbIn, CbReconfig, Skb}
use dysco.Kernel.{Kernel}
use dysco.Control.Deltas.{delta_of, add_of, compute_deltas_out, compute_deltas_in}
use dysco.Rewrite.Fields.{shift}
use dysco.Rewrite.Output.{out_rewrite_seq}

abbrev pub IsWord : ℕ → Type 0
IsWord n = n < 4294967296

-- A pre-computed difference moves a number from one numbering to the other.
shift-delta :
    (in_ out x : ℕ)
    → IsWord in_
    → IsWord out
    → IsWord x
    → shift (add_of in_ out) x (delta_of in_ out) ≡ add32 (sub32 x in_) out
shift-delta in_ out x hi ho hx = ground arith

shift-delta_zero :
    (in_ out x : ℕ)
    → IsWord in_
    → IsWord out
    → IsWord x
    → delta_of in_ out ≡ 0
    → x ≡ add32 (sub32 x in_) out
shift-delta_zero in_ out x hi ho hx e = ground arith

-- The fields that the two functions compute, with the functions shut afterwards.
module _ (d old : CbOut) (rcb : CbReconfig) where
  pub deltas_out_fields :
      let d' = compute_deltas_out d old rcb in
      (d'.seq_delta ≡ delta_of old.in_iseq d.out_iseq)
      × (d'.seq_add ≡ add_of old.in_iseq d.out_iseq)
      × (d'.ack_delta ≡ delta_of old.in_iack d.out_iack)
      × (d'.ack_add ≡ add_of old.in_iack d.out_iack)
  unfolding compute_deltas_out
  deltas_out_fields = ground arith

module _ (d : CbIn) (old : CbOut) (old_in : CbIn) (rcb : CbReconfig) where
  pub deltas_in_fields :
      let d' = compute_deltas_in d old old_in rcb in
      (d'.seq_delta ≡ delta_of d.in_iseq old.in_iack)
      × (d'.seq_add ≡ add_of d.in_iseq old.in_iack)
      × (d'.ack_delta ≡ delta_of d.in_iack old.in_iseq)
      × (d'.ack_add ≡ add_of d.in_iack old.in_iseq)
  unfolding compute_deltas_in
  deltas_in_fields = ground arith

module _ ⦃k : Kernel⦄ where
  out_rewrite_seq_lem :
      (d : CbOut) (s : Skb) (in_ out : ℕ)
      → d.seq_delta ≡ delta_of in_ out
      → d.seq_add ≡ add_of in_ out
      → IsWord in_
      → IsWord out
      → ntohl (out_rewrite_seq d s).th.seq ≡ add32 (sub32 (ntohl s.th.seq) in_) out
  unfolding out_rewrite_seq
  out_rewrite_seq_lem d s in_ out ed ea hi ho =
      let seq = ntohl s.th.seq in
      let moved = shift-delta in_ out seq hi ho (swap32-lt s.th.seq) in
      elim (Bool-cases (d.seq_delta == 0)) [
        | inl same ↦
            rw same (shift-delta_zero in_ out seq hi ho (swap32-lt s.th.seq) (ground arith))
        | inr differs ↦
            rw (differs, ed, ea, moved) (swap32-swap32 (add32 (sub32 seq in_) out) (omega arith))
      ]

  -- At the right anchor, the sequence number of a packet that goes out on the new path is
  -- `(seq - in_iseq) + out_iseq` modulo 2^32, where `in_iseq` is the initial number of the old
  -- path and `out_iseq` that of the new one.
  pub rewrite_seq-compute_deltas_out :
      (d old : CbOut) (rcb : CbReconfig) (s : Skb)
      → IsWord old.in_iseq
      → IsWord d.out_iseq
      → ntohl (out_rewrite_seq (compute_deltas_out d old rcb) s).th.seq
        ≡ add32 (sub32 (ntohl s.th.seq) old.in_iseq) d.out_iseq
  rewrite_seq-compute_deltas_out d old rcb s hi ho =
      let f = deltas_out_fields d old rcb in
      out_rewrite_seq_lem (compute_deltas_out d old rcb) s old.in_iseq d.out_iseq f.0 f.1 hi ho

-- The two blocks that the right anchor computes undo each other, in both directions: a sequence
-- number sent on the new path comes back as the ack number of the old numbering, and the ack
-- number sent for a sequence number that came in is the one that the new path knows.
pub anchors_transparent :
    (d old : CbOut) (i old_in : CbIn) (rcb : CbReconfig) (x y : ℕ)
    → i.in_iack ≡ d.out_iseq
    → i.in_iseq ≡ d.out_iack
    → IsWord d.out_iseq
    → IsWord d.out_iack
    → IsWord old.in_iseq
    → IsWord old.in_iack
    → IsWord x
    → IsWord y
    → let o = compute_deltas_out d old rcb in
      let r = compute_deltas_in i old old_in rcb in
      (shift r.ack_add (shift o.seq_add x o.seq_delta) r.ack_delta ≡ x)
      × (shift o.ack_add (shift r.seq_add y r.seq_delta) o.ack_delta ≡ y)
anchors_transparent d old i old_in rcb x y ea es h1 h2 h3 h4 hx hy =
    let f = deltas_out_fields d old rcb in
    let g = deltas_in_fields i old old_in rcb in
    (
      rw (f.0, f.1, g.2, g.3, ea) (round d.out_iseq old.in_iseq x h1 h3 hx),
      rw (f.2, f.3, g.0, g.1, es) (round old.in_iack d.out_iack y h4 h2 hy),
    )
  where
    round :
        (a b z : ℕ)
        → IsWord a
        → IsWord b
        → IsWord z
        → shift (add_of a b) (shift (add_of b a) z (delta_of b a)) (delta_of a b) ≡ z
    round a b z ha hb hz =
        rw (shift-delta b a z hb ha hz, shift-delta a b (add32 (sub32 z b) a) ha hb (omega arith))
          (omega arith)
