-- ===== src/System/Blocks.antt =====
-- kernel/common/dysco_output.c: the control blocks of a session.
use dysco.Base.{ℕ, ◌≡◌, refl, Bool, true, false, if◌then◌else◌, Option, none, some}
use dysco.Types.{Skb, CbOut, ServiceChain, tcp, udp, other, Protocol}
use dysco.Kernel.{Kernel}
use dysco.Anchor.{Anchor, Step, quiet, finish_ack, view, start}
use dysco.Heap.{M}
use dysco.Heap.Keeps.{BlockSpec, Keeps, Keeps-pure, Keeps-if, Keeps-maybe, Keeps-bind, AllOuts}
use dysco.Heap.Keeps.Blocks.{
  heap_rules, Keeps-modify_out, Keeps-get_skb, Keeps-load_out, Keeps-alloc_in, Keeps-alloc_out,
  Keeps-update_out, Keeps-lift, Keeps-lookup_pen_tag, Keeps-lookup_out, Keeps-lookup_pen, Keeps-get,
  AllOuts-same,
}
use dysco.System.Options.{parse_tcp_syn_opt_s-Step}
use dysco.Output.Session.{
  allocate_ports_m, arp, create_cb_out, lookup_pen_by_tag, update_five_tuple, out_handle_mb,
  insert_cb_out, insert_cb_out_reverse,
}
use dysco.Output.Path.{Picked}

pub ruleset handler_rules = (Keeps-pure, Keeps-if, Keeps-maybe, Keeps-bind, heap_rules, quiet)

module _ {v : Anchor} where
  -- A block that is changed in one way or another.
  pub Step-if :
      (b : Bool) (x y : CbOut)
      → (b ≡ true → Step v (view x))
      → (b ≡ false → Step v (view y))
      → Step v (view (if b then x else y))
  Step-if true x y h i = h refl
  Step-if false x y h i = i refl

  pub Step-option :
      {A : Type 0} (o : Option A) (x : CbOut) (f : A → CbOut)
      → Step v (view x)
      → ((a : A) → Step v (view (f a)))
      → Step v (view (elim o [ none ↦ x | some a ↦ f a ]))
  Step-option none x f h i = h
  Step-option (some a) x f h i = i a

  pub Picked-if :
      (b : Bool) (x y : Picked)
      → (b ≡ true → Step v (view x.cb))
      → (b ≡ false → Step v (view y.cb))
      → Step v (view (if b then x else y).cb)
  Picked-if true x y h i = h refl
  Picked-if false x y h i = i refl

module _ ⦃k : Kernel⦄ where
  pub arp-Step : (s : Skb) (d : CbOut) → Step (view d) (view (arp s d))
  unfolding arp
  arp-Step s d = Step-option (k.neigh_lookup s _) _ _ quiet (λ mac. quiet)

  arp_to-Step :
      (s : Skb) (hop : ℕ) (d : CbOut)
      → Step (view d) (view (arp s (record d { sub = record (d.sub) { dip = hop } })))
  arp_to-Step s hop d = arp-Step s (record d { sub = record (d.sub) { dip = hop } })

module _ ⦃k : Kernel⦄ {spec : BlockSpec} where
  pub Keeps-protocol :
      {A : Type 0} (p : Protocol) (m n o : M A)
      → Keeps spec m
      → Keeps spec n
      → Keeps spec o
      → Keeps spec (elim p [ udp ↦ m | tcp ↦ n | other ↦ o ])
  Keeps-protocol udp m n o km kn ko = km
  Keeps-protocol tcp m n o km kn ko = kn
  Keeps-protocol other m n o km kn ko = ko

  pub allocate_ports_m-Keeps : Keeps spec allocate_ports_m
  unfolding allocate_ports_m
  allocate_ports_m-Keeps = record { run = λ w h. AllOuts-same w _ refl h }

  pub create_cb_out-Keeps : (s : Skb) (sc : ServiceChain) → Keeps spec (create_cb_out s sc)
  unfolding create_cb_out
  create_cb_out-Keeps s sc = search (handler_rules, arp_to-Step, allocate_ports_m-Keeps) depth 20

  pub lookup_pen_by_tag-Keeps : (s : Skb) → Keeps spec (lookup_pen_by_tag s)
  unfolding lookup_pen_by_tag
  lookup_pen_by_tag-Keeps s = search handler_rules depth 20

  pub update_five_tuple-Keeps : (s : Skb) (p : ℕ) → Keeps spec (update_five_tuple s p)
  unfolding update_five_tuple
  update_five_tuple-Keeps s p = search handler_rules

  pub insert_cb_out_reverse-Keeps : (p : ℕ) (two : Bool) → Keeps spec (insert_cb_out_reverse p two)
  unfolding insert_cb_out_reverse
  insert_cb_out_reverse-Keeps p two = search handler_rules depth 20

  pub insert_cb_out-Keeps : (p : ℕ) (two : Bool) → Keeps spec (insert_cb_out p two)
  unfolding insert_cb_out
  insert_cb_out-Keeps p two = search (handler_rules, insert_cb_out_reverse-Keeps)

  pub out_handle_mb-Keeps : (s : Skb) (p : ℕ) → Keeps spec (out_handle_mb s p)
  unfolding out_handle_mb
  out_handle_mb-Keeps s p =
      search
        (
          handler_rules, arp_to-Step, allocate_ports_m-Keeps, insert_cb_out-Keeps,
          parse_tcp_syn_opt_s-Step,
        )
        depth 30 fits 4000
