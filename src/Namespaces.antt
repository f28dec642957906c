-- ===== src/Namespaces.antt =====
-- kernel/common/dysco_main.c: the tables of each network namespace. The module makes a cache of
-- tables when it starts, since the event handler that gives them to new namespaces cannot block.
-- What the kernel hands out and must get back is a list of resources. The list of policies and
-- the locks, which are set up here, hold no resource yet; the proc files and what is printed are
-- not modelled.
mod Monad
pub mod Live
pub mod Events
pub mod Assigned
pub mod Served
pub mod Resources
pub mod Removed
pub mod Steady
pub mod Owned
pub mod Lifetime
unfoldable pub use Monad.*
use dysco.Base.{
  ℕ, zero, suc, ◌+◌, Bool, true, false, not, Option, none, some, List, [], ◌∷◌, if◌then◌else◌,
  head?, drop,
}
use dysco.Kernel.{Rhashtable}

-- `MAX_NAMESPACES`.
abbrev pub max_namespaces : ℕ
max_namespaces = 20

module _ ⦃ns : Rhashtable ℕ⦄ where
  -- The labels at the end of `dysco_create_hashes`, from the last to the first: each falls
  -- through to the next.
  unfoldable pub free_nh_aux : ℕ → N (Option ℕ)
  free_nh_aux p = do release (block p); pure none

  unfoldable pub free_hash_out : ℕ → N (Option ℕ)
  unfolding free_nh_aux
  free_hash_out p = do release (table p hash_out); free_nh_aux p

  unfoldable pub free_hash_in : ℕ → N (Option ℕ)
  unfolding free_hash_out
  free_hash_in p = do release (table p hash_in); free_hash_out p

  unfoldable pub free_hash_pen : ℕ → N (Option ℕ)
  unfolding free_hash_in
  free_hash_pen p = do release (table p hash_pen); free_hash_in p

  unfoldable pub free_hash_tag : ℕ → N (Option ℕ)
  unfolding free_hash_pen
  free_hash_tag p = do release (table p hash_reconfig); free_hash_pen p

  -- The end of `dysco_create_hashes` when all tables are there.
  unfoldable pub set_namespace : ℕ → Option ℕ → N (Option ℕ)
  set_namespace p none = pure (some p)
  set_namespace p (some net_ns) = do ok ← obtain (socket p); pure (some p)

  -- `dysco_create_hashes` for the block `p`; `none` is NULL, for a namespace as for the result.
  unfoldable pub create_tables : Option ℕ → ℕ → N (Option ℕ)
  unfolding free_nh_aux free_hash_out free_hash_in free_hash_pen free_hash_tag set_namespace
  create_tables net_ns p = do
    room ← obtain (block p)
    if not room then pure none else do
      out ← obtain (table p hash_out)
      if not out then free_nh_aux p else do
        in_ ← obtain (table p hash_in)
        if not in_ then free_hash_out p else do
          pen ← obtain (table p hash_pen)
          if not pen then free_hash_in p else do
            reconfig ← obtain (table p hash_reconfig)
            if not reconfig then free_hash_pen p else do
              pen_tag ← obtain (table p hash_pen_tag)
              if not pen_tag then free_hash_tag p else set_namespace p net_ns

  -- `dysco_create_hashes`.
  unfoldable pub create_hashes : Option ℕ → N (Option ℕ)
  unfolding create_tables
  create_hashes net_ns = do p ← fresh; create_tables net_ns p

  -- A block of the cache goes to a namespace.
  unfoldable pub assign : ℕ → ℕ → N (Unit {0})
  assign net_ns p = do
    modify (λ v. record v {
      ns_hashes = drop 1 v.ns_hashes;
      ns_hash_table = ns.insert v.ns_hash_table net_ns p;
      tot_namespaces = v.tot_namespaces + 1;
    })
    ok ← obtain (socket p)
    pure tt

  -- The part of `dysco_dev_event` for a namespace without tables.
  unfoldable pub new_namespace : ℕ → N (Unit {0})
  unfolding assign
  new_namespace net_ns = do m ← get; maybe (head? m.ns_hashes) (pure tt) λ p. assign net_ns p

  -- `dysco_dev_event`: whether the event is `NETDEV_POST_INIT`, and the device's namespace.
  unfoldable pub dev_event : Bool → ℕ → N (Unit {0})
  unfolding new_namespace
  dev_event post_init net_ns =
      if not post_init
      then pure tt
      else do m ← get; maybe (ns.lookup m.ns_hash_table net_ns) (new_namespace net_ns) λ p. pure tt

  -- The loop of `dysco_init_hashes`, for the number of rounds left.
  unfoldable pub fill_cache : ℕ → N (Unit {0})
  unfolding create_hashes
  fill_cache zero = pure tt
  fill_cache (suc i) = do
    dh ← create_hashes none
    maybe dh (pure tt) λ p. do modify (λ v. record v { ns_hashes = p ∷ v.ns_hashes }); fill_cache i

  -- `dysco_init_hashes`, for the number of `init_net`.
  unfoldable pub init_hashes : ℕ → N (Unit {0})
  unfolding create_hashes fill_cache
  init_hashes init_net = do
    ok ← obtain ns_table
    if not ok then pure tt else do
      dh ← create_hashes (some init_net)
      maybe dh (pure tt)
          λ p. modify (λ v. record v { ns_hash_table = ns.insert v.ns_hash_table init_net p })
      fill_cache max_namespaces

  -- `dysco_destroy_hashes`, less the blocks that the tables hold.
  unfoldable pub destroy_hashes : ℕ → N (Unit {0})
  destroy_hashes p = do
    release (table p hash_out)
    release (table p hash_in)
    release (table p hash_pen)
    release (table p hash_reconfig)
    release (table p hash_pen_tag)
    m ← get
    if has (socket p) m.live then release (socket p) else pure tt
    release (block p)

  -- The events of devices that are set up in the namespaces given.
  unfoldable pub dev_events : List ℕ → N (Unit {0})
  unfolding dev_event
  dev_events [] = pure tt
  dev_events (net_ns ∷ rest) = do dev_event true net_ns; dev_events rest

  -- The walk of `rhashtable_free_and_destroy` over the namespaces.
  unfoldable pub destroy_each : List ℕ → N (Unit {0})
  unfolding destroy_hashes
  destroy_each [] = pure tt
  destroy_each (p ∷ rest) = do destroy_hashes p; destroy_each rest

  -- The loop of `dysco_destroy_namespaces` over the cache, for the blocks left in it.
  unfoldable pub destroy_cached : List ℕ → N (Unit {0})
  unfolding destroy_hashes
  destroy_cached [] = pure tt
  destroy_cached (p ∷ rest) = do
    modify (λ v. record v { ns_hashes = drop 1 v.ns_hashes })
    destroy_hashes p
    destroy_cached rest

  -- `dysco_destroy_namespaces`.
  unfoldable pub destroy_namespaces : N (Unit {0})
  unfolding destroy_each destroy_cached
  destroy_namespaces = do
    m ← get
    destroy_each (ns.entries m.ns_hash_table)
    release ns_table
    c ← get
    destroy_cached c.ns_hashes

  -- `dysco_init` and `dysco_deinit`, less the registration of the event handler.
  unfoldable pub init : ℕ → N (Unit {0})
  unfolding init_hashes
  init init_net = do modify (λ v. record v { ns_hashes = [] }); init_hashes init_net

  unfoldable pub deinit : N (Unit {0})
  unfolding destroy_namespaces
  deinit = destroy_namespaces
