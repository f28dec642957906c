-- ===== src/Main/Report.antt =====
-- kernel/common/dysco_main.c: what the walks over the tables write into a netlink message.
use dysco.Base.{
  ℕ, ◌+◌, ◌-◌, ◌*◌, Bool, true, false, List, [], ◌∷◌, ◌++◌, ltb, if◌then◌else◌, Option, none, some,
  and_then,
}

-- `MAX_NETLINK_MSG - 2 * sizeof(__u16)`.
abbrev pub report_room : ℕ
report_room = 64 * 1024 - 4

-- What `rhashtable_walk_next` gives: an entry, `-EAGAIN`, or another error.
pub data WalkItem {ℓ} (A : Type ℓ) : Type ℓ where
  entry : A → WalkItem A
  again : WalkItem A
  broken : WalkItem A

-- A walk over a table: `rhashtable_walk_init` or `rhashtable_walk_start` gives an error, or the walk
-- goes through what the table gives. `-EAGAIN` from the start is not an error.
pub data Walk {ℓ} (A : Type ℓ) : Type ℓ where
  init_failed : Walk A
  start_failed : Walk A
  started : List (WalkItem A) → Walk A

-- The entries that were written, in order, their number, and the flag `*no_room`.
pub record Walked {ℓ} (A : Type ℓ) : Type ℓ where
  pub written : List A
  pub ret : ℕ
  pub no_room : Bool

module _ {ℓ} {A : Type ℓ} where
  abbrev pub write : A → Walked A → Walked A
  write a r = record r { written = r.written ++ a ∷ []; ret = r.ret + 1 }

  -- The loop of `dysco_walk_hash_table`, for entries of `size` bytes.
  unfoldable pub walk_loop : ℕ → ℕ → List (WalkItem A) → Walked A → Walked A
  walk_loop size buf_size [] r = r
  walk_loop size buf_size (again ∷ rest) r = walk_loop size buf_size rest r
  walk_loop size buf_size (broken ∷ rest) r = r
  walk_loop size buf_size (entry a ∷ rest) r =
      let r' = write a r in
      let more = walk_loop size buf_size rest r' in
      if ltb buf_size (size * (r'.ret + 1)) then record r' { no_room = true } else more

  abbrev pub nothing : Bool → Walked A
  nothing no_room = record { written = []; ret = 0; no_room = no_room }

  -- `none` is a negative return.
  unfoldable pub walk_hash_table : ℕ → ℕ → Walk A → Bool → Option (Walked A)
  unfolding walk_loop
  walk_hash_table size buf_size init_failed no_room = none
  walk_hash_table size buf_size start_failed no_room = none
  walk_hash_table size buf_size (started items) no_room =
      some (walk_loop size buf_size items (nothing no_room))

  -- The loop of `dysco_walk_rec_table`: `left` is what is left of the buffer.
  unfoldable pub walk_rec_loop : ℕ → ℕ → List (WalkItem A) → Walked A → Walked A
  walk_rec_loop size left [] r = r
  walk_rec_loop size left (again ∷ rest) r =
      let more = walk_rec_loop size left rest r in if ltb size left then more else r
  walk_rec_loop size left (broken ∷ rest) r = r
  walk_rec_loop size left (entry a ∷ rest) r =
      let more = walk_rec_loop size (left - size) rest (write a r) in
      if ltb size left then more else r

  unfoldable pub walk_rec_table : Walk A → Option (Walked A)
  unfolding walk_rec_loop
  walk_rec_table init_failed = none
  walk_rec_table start_failed = none
  walk_rec_table (started items) = some (walk_rec_loop 20 report_room items (nothing false))

-- `sizeof(struct dysco_mapping)`.
abbrev pub mapping_size : ℕ
mapping_size = 24

-- The two lengths that head the report, in host byte order, and the entries of both tables.
pub record Mapping {ℓ} (A : Type ℓ) : Type ℓ where
  pub len : ℕ
  pub out : ℕ
  pub entries : List A

module _ {ℓ} {A : Type ℓ} where
  -- The input table is walked only if there is room left.
  unfoldable pub mapping_of : Walk A → Walked A → Option (Mapping A)
  mapping_of ins o =
      if o.no_room
      then some (record { len = o.ret; out = o.ret; entries = o.written })
      else and_then
          (walk_hash_table mapping_size (report_room - o.ret * mapping_size) ins o.no_room)
          λ i. some (record { len = o.ret + i.ret; out = o.ret; entries = o.written ++ i.written })

  -- `dysco_get_mapping`: what is sent to user space, if anything is. `room` says whether
  -- `nlmsg_new` finds memory.
  unfoldable pub get_mapping_report : Bool → Walk A → Walk A → Option (Mapping A)
  unfolding mapping_of
  get_mapping_report room outs ins =
      if room
      then and_then (walk_hash_table mapping_size report_room outs false) (mapping_of ins)
      else none

  -- `dysco_get_rec_time`: the entries of twenty bytes that are sent.
  unfoldable pub get_rec_time_report : Bool → Walk A → Option (List A)
  unfolding walk_rec_table
  get_rec_time_report room times =
      if room then and_then (walk_rec_table times) (λ r. some r.written) else none
