-- ===== src/Main/Removal.antt =====
-- kernel/common/dysco_main.c: `dysco_destroy_hashes` and what it frees of one namespace.
-- `rhashtable_free_and_destroy` hands each entry of a table to a function; the tables themselves
-- and the socket are in Namespaces. A block that is freed twice is a fault.
pub mod Freed
pub mod Twice
pub mod Once
pub mod Cleared
use dysco.Base.{ℕ, Option, none, some, List, [], ◌∷◌, if◌then◌else◌}
use dysco.Kernel.{Kernel}
use dysco.Heap.{
  M, pure, get, maybe, ◌>>=◌, ◌>>◌, load_out, load_in, load_rcb, free_out, free_in, free_rcb,
}
use dysco.Main.Policies.{del_policies}

module _ ⦃k : Kernel⦄ where
  -- `dysco_free_hash`, for each kind of block.
  unfoldable pub free_hash_out : ℕ → M (Unit {0})
  free_hash_out p = do d ← load_out p; free_out p

  unfoldable pub free_hash_in : ℕ → M (Unit {0})
  free_hash_in q = do i ← load_in q; free_in q

  unfoldable pub free_hash_rcb : ℕ → M (Unit {0})
  free_hash_rcb r = do b ← load_rcb r; free_rcb r

  -- `dysco_free_dcb_out`. The memory of a service chain is part of its block.
  unfoldable pub free_dcb_out : ℕ → M (Unit {0})
  unfolding free_hash_out
  free_dcb_out p = do
    d ← load_out p
    maybe d.other_path (pure tt) λ q. free_hash_out q
    free_hash_out p

  abbrev pub walk : List ℕ → (ℕ → M (Unit {0})) → M (Unit {0})
  walk [] f = pure tt
  walk (p ∷ ps) f = f p >> walk ps f

  -- The first four tables of `dysco_destroy_hashes`.
  unfoldable pub destroy_sessions : M (Unit {0})
  unfolding free_hash_out free_hash_in free_hash_rcb free_dcb_out
  destroy_sessions = do
    w ← get
    walk (k.sessions.entries w.dh.hash_out) free_dcb_out
    walk (k.sessions.entries w.dh.hash_in) free_hash_in
    walk (k.sessions.entries w.dh.hash_pen) free_hash_out
    walk (k.sessions.entries w.dh.hash_reconfig) free_hash_rcb

  -- `dysco_destroy_hashes`.
  unfoldable pub destroy_blocks : M (Unit {0})
  unfolding destroy_sessions free_hash_out del_policies
  destroy_blocks = do
    w ← get
    destroy_sessions
    walk (k.tags.entries w.dh.hash_pen_tag) free_hash_out
    del_policies
