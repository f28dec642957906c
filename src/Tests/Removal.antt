-- ===== src/Tests/Removal.antt =====
-- The blocks of a namespace that is destroyed, at a concrete input.
use dysco.Base.{ℕ, zero, suc, ◌<◌, ◌≡◌, refl, arith, none, some, [], ◌∷◌, get_elem?, count}
use dysco.Heap.{World}
use dysco.Heap.Refused.{at}
use dysco.Main.Removal.{destroy_blocks}
use dysco.Main.Removal.Once.{Removable}
use dysco.Main.Removal.Cleared.{targets, destroy_blocks-Removable}
use dysco.Tests.Host.{
  host, client_session, sub_session, out_block, in_block, rcb, world, empty_hashes,
}

-- A session with a second path.
abbrev full : World
full = record world {
  outs = some (record out_block { other_path = some 1 }) ∷ some out_block ∷ [];
  ins = some in_block ∷ [];
  rcbs = some rcb ∷ [];
  dh = record empty_hashes {
    hash_out = (client_session, 0) ∷ [];
    hash_in = (sub_session, 0) ∷ [];
    hash_reconfig = (client_session, 0) ∷ [];
  };
}

one-Removable : {A : Type 0} (a : A) → Removable (some a ∷ []) (0 ∷ [])
one-Removable a = record { once = λ x. ground arith; live = live }
  where
    live : (x : ℕ) → 0 < count x (0 ∷ []) → (b : _) × (get_elem? (some a ∷ []) x ≡ some (some b))
    live zero h = (a, refl)
    live (suc x) h = absurd (grind arith)

two-Removable : {A : Type 0} (a b : A) → Removable (some a ∷ some b ∷ []) (1 ∷ 0 ∷ [])
two-Removable a b = record { once = λ x. ground arith; live = live }
  where
    live :
        (x : ℕ)
        → 0 < count x (1 ∷ 0 ∷ [])
        → (c : _) × (get_elem? (some a ∷ some b ∷ []) x ≡ some (some c))
    live zero h = (a, refl)
    live (suc zero) h = (b, refl)
    live (suc (suc x)) h = absurd (grind arith)

destroy_blocks-Removable_example :
    (u : World) × (destroy_blocks full ≡ some (tt, u))
    × ((p : ℕ) → 0 < count p (1 ∷ 0 ∷ []) → at u.outs p ≡ none)
    × ((q : ℕ) → 0 < count q (0 ∷ []) → at u.ins q ≡ none)
    × ((r : ℕ) → 0 < count r (0 ∷ []) → at u.rcbs r ≡ none)
    × (u.dh.policies ≡ [])
unfolding targets
destroy_blocks-Removable_example =
    destroy_blocks-Removable full
      (two-Removable (record out_block { other_path = some 1 }) out_block) (one-Removable in_block)
      (one-Removable rcb) refl refl
