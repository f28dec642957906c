-- ===== src/System/Policies.antt =====
-- kernel/common/dysco_main.c: messages from user space leave the control blocks alone.
use dysco.Base.{ℕ, Bool, Option, List}
use dysco.Types.{Skb, MsgType, policy, rem_policy}
use dysco.Kernel.{Kernel}
use dysco.Heap.Keeps.{BlockSpec, Keeps, Keeps-pure}
use dysco.System.Blocks.{handler_rules}
use dysco.Main.Policies.{add_filter, add_policy, del_policies, user_kernel_com}

module _ ⦃k : Kernel⦄ {spec : BlockSpec} (bpf : ℕ → List ℕ → Option (Skb → Bool)) where
  add_filter-Keeps : (mptr : List ℕ) (len : ℕ) → Keeps spec (add_filter bpf mptr len)
  unfolding add_filter
  add_filter-Keeps mptr len = search handler_rules depth 20

  add_policy-Keeps : (mptr : List ℕ) → Keeps spec (add_policy bpf mptr)
  unfolding add_policy
  add_policy-Keeps mptr = search (handler_rules, add_filter-Keeps) depth 20

  pub user_kernel_com-Keeps :
      (t : MsgType) (payload : List ℕ) → Keeps spec (user_kernel_com bpf t payload)
  unfolding user_kernel_com del_policies
  user_kernel_com-Keeps policy payload = add_policy-Keeps payload
  user_kernel_com-Keeps rem_policy payload = search handler_rules
  user_kernel_com-Keeps _ payload = Keeps-pure tt
