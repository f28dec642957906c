-- ===== src/Input/TwoPaths.antt =====
-- The provisional cutoff of the acks, while data comes in on the new path and the old path's block
-- is still in its handshake.
use dysco.Base.{
  ℕ, ◌<◌, ◌≡◌, refl, ap, sym, ◌∙◌, arith, true, false, List, [], ◌∷◌, add32, ltb, if◌then◌else◌,
}
use dysco.Types.{CbOut}
use dysco.Kernel.{Kernel, KernelLaws}
use dysco.Output.Cutoff.{AllNear, after_near}
use dysco.Input.Paths.{lower_ack_cutoff}

-- The lowest of the positions and `c`.
unfoldable pub lowest : ℕ → List ℕ → ℕ
lowest c [] = c
lowest c (o ∷ os) = lowest (if ltb o c then o else c) os

module _ ⦃k : Kernel⦄ where
  -- The block after segments have come in that begin at the positions given, behind `base`.
  unfoldable pub receive_all : ℕ → List ℕ → CbOut → CbOut
  receive_all base [] d = d
  receive_all base (o ∷ os) d = receive_all base os (lower_ack_cutoff (add32 base o) d)

module _ ⦃k : Kernel⦄ (laws : KernelLaws k) where
  open laws use {after_lem}

  lower_ack_cutoff-near :
      (base c o : ℕ) (d : CbOut)
      → base < 4294967296
      → c < 2147483648
      → o < 2147483648
      → d.valid_ack_cut ≡ true
      → d.ack_cutoff ≡ add32 base c
      → ((lower_ack_cutoff (add32 base o) d).ack_cutoff ≡ add32 base (if ltb o c then o else c))
        × ((lower_ack_cutoff (add32 base o) d).valid_ack_cut ≡ true)
  unfolding lower_ack_cutoff
  lower_ack_cutoff-near base c o d h hc ho v e =
      let n : k.before (add32 base o) d.ack_cutoff ≡ ltb o c =
        ap (k.before (add32 base o)) e
        ∙ sym (after_lem (add32 base c) (add32 base o))
        ∙ after_near laws base c o h hc ho in
      (ground (arith, n, v, e), ground (arith, n, v, e))

  receive_valid :
      (base c : ℕ) (os : List ℕ) (d : CbOut)
      → base < 4294967296
      → c < 2147483648
      → AllNear os
      → d.valid_ack_cut ≡ true
      → d.ack_cutoff ≡ add32 base c
      → (receive_all base os d).ack_cutoff ≡ add32 base (lowest c os)
  unfolding receive_all lowest
  receive_valid base c [] d h hc n v e = e
  receive_valid base c (o ∷ os) d h hc n v e =
      let s = lower_ack_cutoff-near base c o d h hc n.0 v e in
      receive_valid base (if ltb o c then o else c) os (lower_ack_cutoff (add32 base o) d) h
        (ground arith) n.1 s.1 s.0

  first :
      (o : ℕ) (d : CbOut)
      → d.valid_ack_cut ≡ false
      → lower_ack_cutoff o d ≡ record d { ack_cutoff = o; valid_ack_cut = true }
  unfolding lower_ack_cutoff
  first o d v = rw v refl

  -- After segments that begin at the given positions behind `base` have come in on the new path,
  -- at least one of them and all within 2^31, the cutoff of a block that had none at first is
  -- the lowest of the positions, in whatever order they came.
  pub receive_all-lowest :
      (base o : ℕ) (os : List ℕ) (d : CbOut)
      → base < 4294967296
      → o < 2147483648
      → AllNear os
      → d.valid_ack_cut ≡ false
      → (receive_all base (o ∷ os) d).ack_cutoff ≡ add32 base (lowest o os)
  unfolding receive_all
  receive_all-lowest base o os d h ho n v =
      let s : lower_ack_cutoff (add32 base o) d
          ≡ record d { ack_cutoff = add32 base o; valid_ack_cut = true } =
        first (add32 base o) d v in
      ap (λ b. (receive_all base os b).ack_cutoff) s
      ∙ receive_valid base o os (record d { ack_cutoff = add32 base o; valid_ack_cut = true }) h ho
          n refl refl
