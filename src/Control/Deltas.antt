-- ===== src/Control/Deltas.antt =====
-- kernel/common/dysco_control_input.c: the differences that the right anchor computes between
-- the session of the old path and that of the new path.
use dysco.Base.{ℕ, ◌-◌, ◌%◌, Bool, true, false, ltb, ◌==◌, if◌then◌else◌}
use dysco.Types.{CbOut, CbIn, CbReconfig}

-- `if (in < out) delta = out - in; else delta = in - out;`
abbrev pub delta_of : ℕ → ℕ → ℕ
delta_of in_ out = if ltb in_ out then out - in_ else in_ - out

-- The flag that goes with it: `TRUE` if the difference is to be added.
abbrev pub add_of : ℕ → ℕ → Bool
add_of in_ out = ltb in_ out

-- Sequence and ack numbers of the new output block, which gets packets numbered as in the old
-- path.
abbrev pub deltas_out_seq : CbOut → CbOut → CbOut
deltas_out_seq d old = record d {
  in_iseq = old.in_iseq;
  in_iack = old.in_iack;
  seq_delta = delta_of old.in_iseq d.out_iseq;
  seq_add = add_of old.in_iseq d.out_iseq;
  ack_delta = delta_of old.in_iack d.out_iack;
  ack_add = add_of old.in_iack d.out_iack;
}

abbrev pub deltas_out_ts : CbOut → CbOut → CbReconfig → CbOut
deltas_out_ts d old rcb = if rcb.left_its == 0 then d else record d {
  ts_ok = true;
  ts_in = old.ts_in;
  ts_out = rcb.left_itsr;
  ts_delta = delta_of old.ts_in rcb.left_itsr;
  ts_add = add_of old.ts_in rcb.left_itsr;
  tsr_in = old.tsr_in;
  tsr_out = rcb.left_its;
  tsr_delta = delta_of old.tsr_in rcb.left_its;
  tsr_add = add_of old.tsr_in rcb.left_its;
}

abbrev pub deltas_out_ws : CbOut → CbOut → CbReconfig → CbOut
deltas_out_ws d old rcb = if rcb.left_iwsr == 0 then record d { ws_ok = false } else record d {
  ws_ok = true;
  ws_in = old.ws_in;
  ws_out = rcb.left_iwsr;
  ws_delta = delta_of old.ws_in rcb.left_iwsr;
}

-- `sack_ok` has one bit.
unfoldable pub compute_deltas_out : CbOut → CbOut → CbReconfig → CbOut
compute_deltas_out d old rcb =
    record (deltas_out_ws (deltas_out_ts (deltas_out_seq d old) old rcb) old rcb) {
      sack_ok = rcb.sack_ok % 2 == 1;
    }

abbrev pub deltas_in_seq : CbIn → CbOut → CbIn
deltas_in_seq d old = record d {
  out_iseq = old.in_iack;
  out_iack = old.in_iseq;
  seq_delta = delta_of d.in_iseq old.in_iack;
  seq_add = add_of d.in_iseq old.in_iack;
  ack_delta = delta_of d.in_iack old.in_iseq;
  ack_add = add_of d.in_iack old.in_iseq;
}

-- `old_in` is the input block of the old path.
abbrev pub deltas_in_ts : CbIn → CbIn → CbReconfig → CbIn
deltas_in_ts d old_in rcb = if rcb.left_its == 0 then record d { ts_ok = false } else record d {
  ts_ok = true;
  ts_in = rcb.left_its;
  ts_out = old_in.ts_out;
  ts_delta = delta_of rcb.left_its old_in.ts_out;
  ts_add = add_of rcb.left_its old_in.ts_out;
  tsr_in = rcb.left_itsr;
  tsr_out = old_in.tsr_out;
  tsr_delta = delta_of rcb.left_itsr old_in.tsr_out;
  tsr_add = add_of rcb.left_itsr old_in.tsr_out;
}

abbrev pub deltas_in_ws : CbIn → CbOut → CbReconfig → CbIn
deltas_in_ws d old rcb = if rcb.left_iws == 0 then record d { ws_ok = false } else record d {
  ws_ok = true;
  ws_in = rcb.left_iws;
  ws_out = old.ws_in;
  ws_delta = delta_of rcb.left_iws old.ws_in;
}

unfoldable pub compute_deltas_in : CbIn → CbOut → CbIn → CbReconfig → CbIn
compute_deltas_in d old old_in rcb =
    record (deltas_in_ws (deltas_in_ts (deltas_in_seq d old) old_in rcb) old rcb) {
      sack_ok = rcb.sack_ok % 2 == 1;
    }
