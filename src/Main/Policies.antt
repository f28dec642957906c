-- ===== src/Main/Policies.antt =====
-- kernel/common/dysco_main.c: `dysco_add_policy`, `dysco_del_policies` and the dispatch of the
-- messages from user space.
use dysco.Base.{
  ℕ, ◌+◌, ◌*◌, ◌≡◌, refl, Bool, Option, none, List, [], ◌∷◌, drop, leb, ◌==◌, if◌then◌else◌,
}
use dysco.Types.{Skb, MsgType, policy, rem_policy}
use dysco.Kernel.{Kernel}
use dysco.Heap.{maybe, Policy, M, pure, ◌>>=◌, lift, kmalloc_ok, modify_dh}
use dysco.Chain.{load16, read_hops}
use dysco.Output.Session.{match_policy}

module _ ⦃k : Kernel⦄ where
  -- The part of `dysco_add_policy` behind the allocation of the chain. `bpf_prog_create` is
  -- given: it takes the length and the bytes of a filter.
  unfoldable pub add_filter : (ℕ → List ℕ → Option (Skb → Bool)) → List ℕ → ℕ → M (Unit {0})
  add_filter bpf_prog_create mptr len = do
    room ← kmalloc_ok
    if room
        then (do
          hops ← lift (read_hops len mptr 4)
          filter_len ← lift (load16 mptr (4 + len * 4))
          maybe (bpf_prog_create filter_len (drop (4 + len * 4 + 2) mptr)) (pure tt) λ filter.
              modify_dh (λ h. record h {
                policies =
                    record {
                      filter = filter;
                      sc = record { len = len; pos = k.stale_pos; hops = hops };
                    }
                    ∷ h.policies;
              }))
        else pure tt

  -- `dysco_add_policy`. The length is a signed 16-bit number: a length of -1 asks for no memory
  -- and is then written to, which faults; a lower one asks for more than there is.
  unfoldable pub add_policy : (ℕ → List ℕ → Option (Skb → Bool)) → List ℕ → M (Unit {0})
  unfolding add_filter
  add_policy bpf_prog_create mptr = do
    len ← lift (load16 mptr 0)
    if len == 65535
        then lift none
        else if leb 32768 len
        then pure tt
        else do room ← kmalloc_ok; if room then add_filter bpf_prog_create mptr len else pure tt

  -- `dysco_del_policies`: the first policy is taken off the list until none is left.
  unfoldable pub del_all : List Policy → List Policy
  del_all [] = []
  del_all (dps ∷ rest) = del_all rest

  unfoldable pub del_policies : M (Unit {0})
  unfolding del_all
  del_policies = modify_dh (λ h. record h { policies = del_all h.policies })

  -- `dysco_user_kernel_com`: the messages that change the state; the reports are `Main.Report`.
  unfoldable pub user_kernel_com :
      (ℕ → List ℕ → Option (Skb → Bool)) → MsgType → List ℕ → M (Unit {0})
  unfolding add_policy del_policies
  user_kernel_com bpf policy payload = add_policy bpf payload
  user_kernel_com bpf rem_policy payload = del_policies
  user_kernel_com bpf _ payload = pure tt

  -- No packet matches after all policies have been deleted.
  pub del_all-nil : (ps : List Policy) → del_all ps ≡ []
  unfolding del_all
  del_all-nil [] = refl
  del_all-nil (p ∷ ps) = del_all-nil ps

  pub match_policy-del_all : (ps : List Policy) (s : Skb) → match_policy (del_all ps) s ≡ none
  unfolding match_policy
  match_policy-del_all ps s = rw (del_all-nil ps) refl
