-- ===== src/Main/Room.antt =====
-- kernel/common/dysco_main.c: the room in the message that a report is written into.
use dysco.Base.{
  ℕ, ◌+◌, ◌-◌, ◌*◌, ◌≤◌, ◌≡◌, refl, arith, ap, subst, Bool, true, false, none, some, and_then,
  if◌then◌else◌, List, [], ◌∷◌, ◌++◌, ltb, length, length-append, Bool-cases, inl, inr,
}
use dysco.Main.Report.{
  WalkItem, entry, again, broken, Walked, write, walk_loop, walk_hash_table, walk_rec_loop, Walk,
  init_failed, start_failed, started, nothing, mapping_of, walk_rec_table, Mapping, report_room,
  mapping_size, get_mapping_report, get_rec_time_report,
}

-- What holds between two rounds of a walk: the entries are counted, they fit, and unless the flag
-- is set there is room for one more.
record Fits {ℓ} {A : Type ℓ} (size buf : ℕ) (r : Walked A) : Type 0 where
  counted : length r.written ≡ r.ret
  fits : size * r.ret ≤ buf
  room : r.no_room ≡ false → size * (r.ret + 1) ≤ buf

module _ {ℓ} {A : Type ℓ} (size buf : ℕ) where
  walk_loop-Fits :
      (items : List (WalkItem A)) (r : Walked A)
      → length r.written ≡ r.ret
      → size * (r.ret + 1) ≤ buf
      → Fits size buf (walk_loop size buf items r)
  unfolding walk_loop
  walk_loop-Fits [] r c h = record { counted = c; fits = grind arith; room = λ _. h }
  walk_loop-Fits (again ∷ items) r c h = walk_loop-Fits items r c h
  walk_loop-Fits (broken ∷ items) r c h = record { counted = c; fits = grind arith; room = λ _. h }
  walk_loop-Fits (entry a ∷ items) r c h =
      let c' : length (write a r).written ≡ (write a r).ret =
        omega (arith, length-append r.written (a ∷ [])) in
      elim (Bool-cases (ltb buf (size * (r.ret + 1 + 1)))) [
        | inl full ↦ rw full (record { counted = c'; fits = h; room = λ e. ground arith })
        | inr room ↦ rw room (walk_loop-Fits items (write a r) c' (ground arith))
      ]

walk_loop-start :
    {A : Type 0} (size buf : ℕ) (items : List (WalkItem A))
    → size ≤ buf
    → Fits size buf (walk_loop size buf items (nothing false))
walk_loop-start size buf items h = walk_loop-Fits size buf items (nothing false) refl (grind arith)

some-inj : {A : Type 0} {x y : A} → some x ≡ some y → x ≡ y
some-inj {x = x} e = ap (λ o. elim o [ none ↦ x | some z ↦ z ]) e

module _ {A : Type 0} where
  -- What a report of the mapping promises, if it is sent.
  abbrev InMessage : Mapping A → Type 0
  InMessage m = (mapping_size * length m.entries ≤ report_room) × (length m.entries ≡ m.len)

  -- With the walk of the output table done.
  mapping_of-InMessage :
      (ins : Walk A) (o : Walked A) (m : Mapping A)
      → Fits mapping_size report_room o
      → mapping_of ins o ≡ some m
      → InMessage m
  unfolding mapping_of walk_hash_table
  mapping_of-InMessage ins o m f = go o.no_room refl ins
    where
      room : ℕ
      room = report_room - o.ret * mapping_size

      go :
          (b : Bool)
          → o.no_room ≡ b
          → (js : Walk A)
          → (if b
              then some (record { len = o.ret; out = o.ret; entries = o.written })
              else and_then (walk_hash_table mapping_size room js b) λ i.
                some
                  (record { len = o.ret + i.ret; out = o.ret; entries = o.written ++ i.written }))
            ≡ some m
          → InMessage m
      go true n js e =
          subst InMessage (some-inj e) (let l = f.fits in let c = f.counted in (ground arith, c))
      go false n init_failed e = absurd cc
      go false n start_failed e = absurd cc
      go false n (started items) e =
          let left = f.room n in
          let c' = f.counted in
          let i = walk_loop-start mapping_size room items (ground arith) in
          let fits = i.fits in
          let c = i.counted in
          let l =
            length-append o.written (walk_loop mapping_size room items (nothing false)).written in
          subst InMessage (some-inj e) (ground arith, ground arith)

  -- When a report of the mapping is sent, its message has been granted, and it holds no more entries
  -- than the message has room for behind the two lengths, whatever the walks of the two tables meet;
  -- the first length is the number of the entries.
  pub get_mapping_report-fits :
      (room : Bool) (outs ins : Walk A) (m : Mapping A)
      → get_mapping_report room outs ins ≡ some m
      → (room ≡ true) × (mapping_size * length m.entries ≤ report_room) × (length m.entries ≡ m.len)
  unfolding get_mapping_report walk_hash_table
  get_mapping_report-fits false outs ins m e = absurd cc
  get_mapping_report-fits true init_failed ins m e = absurd cc
  get_mapping_report-fits true start_failed ins m e = absurd cc
  get_mapping_report-fits true (started items) ins m e =
      let h =
        mapping_of-InMessage ins (walk_loop mapping_size report_room items (nothing false)) m
          (walk_loop-start mapping_size report_room items (ground arith)) e in
      (refl, h.0, h.1)

walk_rec_loop-fits :
    {A : Type 0} (left : ℕ) (items : List (WalkItem A)) (r : Walked A)
    → 20 * length (walk_rec_loop 20 left items r).written ≤ 20 * length r.written + left
unfolding walk_rec_loop
walk_rec_loop-fits left [] r = grind arith
walk_rec_loop-fits left (again ∷ items) r = elim (Bool-cases (ltb 20 left)) [
  | inl go ↦ rw go (walk_rec_loop-fits left items r)
  | inr stop ↦ rw stop (grind arith)
]
walk_rec_loop-fits left (broken ∷ items) r = grind arith
walk_rec_loop-fits left (entry a ∷ items) r = elim (Bool-cases (ltb 20 left)) [
  | inl go ↦ rw go (
      let ih : 20 * length (walk_rec_loop 20 (left - 20) items (write a r)).written
          ≤ 20 * length (r.written ++ a ∷ []) + (left - 20) =
        walk_rec_loop-fits (left - 20) items (write a r) in
      let l = length-append r.written (a ∷ []) in ground arith)
  | inr stop ↦ rw stop (grind arith)
]

-- When a report of the reconfiguration times is sent, its message has been granted, and it holds no
-- more entries of twenty bytes than the message has room for behind the two lengths, whatever the
-- walk of the table meets.
pub get_rec_time_report-fits :
    {A : Type 0} (room : Bool) (times : Walk A) (entries : List A)
    → get_rec_time_report room times ≡ some entries
    → (room ≡ true) × (20 * length entries ≤ report_room)
unfolding get_rec_time_report walk_rec_table
get_rec_time_report-fits false times entries e = absurd cc
get_rec_time_report-fits true init_failed entries e = absurd cc
get_rec_time_report-fits true start_failed entries e = absurd cc
get_rec_time_report-fits true (started items) entries e = (
  refl,
  subst (λ xs. 20 * length xs ≤ report_room) (some-inj e)
      (walk_rec_loop-fits report_room items (nothing false)),
)
