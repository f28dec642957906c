-- ===== src/Tests/Namespaces.antt =====
-- The theorems on namespaces at concrete inputs.
use dysco.Base.{
  ℕ, Bool, List, ◌≡◌, refl, arith, true, false, Option, none, some, [], ◌∷◌, ◌==◌, ==_iff,
}
use dysco.Kernel.{Rhashtable, RhashtableLaws}
use dysco.Namespaces.{
  ◌>>◌, Module, create_tables, create_hashes, destroy_hashes, init_hashes, dev_events, obtain, init,
  deinit,
}
use dysco.Namespaces.Lifetime.{deinit-init}
use dysco.Namespaces.Live.{Created, create_hashes-Created, destroy_hashes-create_hashes}
use dysco.Namespaces.Assigned.{IsSeparate, Served}
use dysco.Namespaces.Served.{boot, init_hashes-dev_events}
use dysco.Tests.Host.{table, table_laws}

instance abbrev namespaces : Rhashtable ℕ
namespaces = table (λ a b. a == b)

namespaces_laws : RhashtableLaws ◌==◌ namespaces
namespaces_laws = table_laws ◌==◌ (λ j k. (==_iff j k).0)

abbrev started : Module
started = boot []

-- The kernel refuses the third table.
abbrev short : Module
short = record started { grants = true ∷ true ∷ true ∷ false ∷ [] }

create_hashes-Created_example : Created none 0 [] (create_hashes none short)
create_hashes-Created_example = create_hashes-Created none short

abbrev outcome : Option (Option ℕ × Module) → Module
outcome none = started
outcome (some p) = p.1

abbrev made : Module
made = outcome (create_hashes (some 7) started)

made_run : create_hashes (some 7) started ≡ some (some 0, made)
unfolding create_tables create_hashes obtain
made_run = refl

destroy_hashes-create_hashes_example : destroy_hashes 0 made ≡ some (tt, record made { live = [] })
destroy_hashes-create_hashes_example =
    destroy_hashes-create_hashes (some 7) started made 0 made_run refl

init_hashes-dev_events_example :
    (m : Module) × ((init_hashes 7 >> dev_events (8 ∷ 9 ∷ 8 ∷ [])) started ≡ some (tt, m))
    × Served m (7 ∷ 8 ∷ 9 ∷ 8 ∷ [])
    × IsSeparate m
init_hashes-dev_events_example =
    init_hashes-dev_events namespaces_laws [] 7 (λ n. refl) (8 ∷ 9 ∷ 8 ∷ []) (omega arith)

-- The first namespace gets no socket, and the cache only two blocks, the second lacking a table.
abbrev scarce : List Bool
scarce =
    true ∷ true ∷ true ∷ true ∷ true ∷ true ∷ false ∷ true ∷ true ∷ true ∷ true ∷ true ∷ true ∷ true
    ∷ true ∷ true ∷ false ∷ []

deinit-init_example :
    (m : Module) × ((init 7 >> (dev_events (8 ∷ 9 ∷ []) >> deinit))
        (record started { grants = true ∷ scarce })
      ≡ some (tt, m))
    × (m.live ≡ [])
deinit-init_example = deinit-init namespaces_laws [] 7 (λ n. refl) refl scarce (8 ∷ 9 ∷ [])
