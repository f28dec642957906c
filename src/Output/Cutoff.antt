-- ===== src/Output/Cutoff.antt =====
-- `seq_cutoff` is the highest end of a segment that was sent, as long as the segments lie
-- within half of the sequence space of one another.
use dysco.Base.{ℕ, ◌<◌, ◌≡◌, ap, ◌∙◌, arith, List, [], ◌∷◌, add32, ltb, if◌then◌else◌}
use dysco.Types.{CbOut}
use dysco.Kernel.{Kernel, KernelLaws}
use dysco.Output.Path.{raise_cutoff}

-- Positions behind a base, all below 2^31.
abbrev pub AllNear : List ℕ → Type 0
AllNear [] = Unit {0}
AllNear (o ∷ os) = (o < 2147483648) × AllNear os

-- The highest of the positions and `c`.
unfoldable pub highest : ℕ → List ℕ → ℕ
highest c [] = c
highest c (o ∷ os) = highest (if ltb c o then o else c) os

module _ ⦃k : Kernel⦄ where
  -- The block after segments have been sent that end at the positions given, behind `base`.
  unfoldable pub send_all : ℕ → List ℕ → CbOut → CbOut
  send_all base [] d = d
  send_all base (o ∷ os) d = send_all base os (raise_cutoff (add32 base o) d)

module _ ⦃k : Kernel⦄ (laws : KernelLaws k) where
  open laws use {before_lem, after_lem}

  pub after_near :
      (base a b : ℕ)
      → base < 4294967296
      → a < 2147483648
      → b < 2147483648
      → k.after (add32 base a) (add32 base b) ≡ ltb b a
  after_near base a b h ha hb =
      after_lem (add32 base a) (add32 base b)
      ∙ before_lem (add32 base b) (add32 base a)
      ∙ ground arith

  raise_cutoff-near :
      (base c o : ℕ) (d : CbOut)
      → base < 4294967296
      → c < 2147483648
      → o < 2147483648
      → d.seq_cutoff ≡ add32 base c
      → (raise_cutoff (add32 base o) d).seq_cutoff ≡ add32 base (if ltb c o then o else c)
  raise_cutoff-near base c o d h hc ho e =
      ground (arith, ap (k.after (add32 base o)) e, after_near base o c h ho hc)

  -- After segments that end at the given positions behind `base` have been sent, all within
  -- 2^31 and with a cutoff that lies at such a position at first, the cutoff is the highest of
  -- all of them.
  pub send_all-highest :
      (base c : ℕ) (os : List ℕ) (d : CbOut)
      → base < 4294967296
      → c < 2147483648
      → AllNear os
      → d.seq_cutoff ≡ add32 base c
      → (send_all base os d).seq_cutoff ≡ add32 base (highest c os)
  unfolding send_all highest
  send_all-highest base c [] d h hc n e = e
  send_all-highest base c (o ∷ os) d h hc n e =
      send_all-highest base (if ltb c o then o else c) os (raise_cutoff (add32 base o) d) h
        (ground arith) n.1 (raise_cutoff-near base c o d h hc n.0 e)
