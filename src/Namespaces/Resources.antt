-- ===== src/Namespaces/Resources.antt =====
-- Lists of the kernel's resources, in which only the number of each counts.
use mathlib.Core.Bool.{false≢true}
use dysco.Base.{
  ℕ, zero, suc, ◌+◌, ◌≤◌, ◌<◌, ◌≡◌, refl, sym, ap, subst, ◌||◌, ◌∙◌, arith, true, false, Bool-cases,
  inl, inr, if◌then◌else◌, ==_iff, Option, some, List, [], ◌∷◌, and_then,
}
use dysco.Kernel.{Rhashtable}
use dysco.Namespaces.{
  Table, hash_out, hash_in, hash_pen, hash_reconfig, hash_pen_tag, Resource, ns_table, block,
  socket, table, table_number, same, has, take_away, Module, N, ◌>>◌, release,
}
use dysco.Namespaces.Live.{release-held}

-- How often a resource is held.
abbrev pub held : Resource → List Resource → ℕ
held r [] = 0
held r (x ∷ xs) = (if same r x then 1 else 0) + held r xs

abbrev numbered : ℕ → Table
numbered zero = hash_out
numbered (suc zero) = hash_in
numbered (suc (suc zero)) = hash_pen
numbered (suc (suc (suc zero))) = hash_reconfig
numbered (suc (suc (suc (suc n)))) = hash_pen_tag

numbered-table_number : (t : Table) → numbered (table_number t) ≡ t
numbered-table_number hash_out = refl
numbered-table_number hash_in = refl
numbered-table_number hash_pen = refl
numbered-table_number hash_reconfig = refl
numbered-table_number hash_pen_tag = refl

eq_table : (s t : Table) → table_number s ≡ table_number t → s ≡ t
eq_table s t h = sym (numbered-table_number s) ∙ ap numbered h ∙ numbered-table_number t

pub eq_of_same : (r s : Resource) → same r s ≡ true → r ≡ s
eq_of_same ns_table ns_table h = refl
eq_of_same ns_table (block q) h = absurd (false≢true h)
eq_of_same ns_table (socket q) h = absurd (false≢true h)
eq_of_same ns_table (table q t) h = absurd (false≢true h)
eq_of_same (block p) ns_table h = absurd (false≢true h)
eq_of_same (block p) (block q) h = ap block ((==_iff p q).0 h)
eq_of_same (block p) (socket q) h = absurd (false≢true h)
eq_of_same (block p) (table q t) h = absurd (false≢true h)
eq_of_same (socket p) ns_table h = absurd (false≢true h)
eq_of_same (socket p) (block q) h = absurd (false≢true h)
eq_of_same (socket p) (socket q) h = ap socket ((==_iff p q).0 h)
eq_of_same (socket p) (table q t) h = absurd (false≢true h)
eq_of_same (table p s) ns_table h = absurd (false≢true h)
eq_of_same (table p s) (block q) h = absurd (false≢true h)
eq_of_same (table p s) (socket q) h = absurd (false≢true h)
eq_of_same (table p s) (table q t) h =
    let (e, f) : (p ≡ q) × (table_number s ≡ table_number t) = ground arith in
    ap (λ n. table n s) e ∙ ap (table q) (eq_table s t f)

pub same_refl : (r : Resource) → same r r ≡ true
same_refl ns_table = refl
same_refl (block p) = (==_iff p p).1 refl
same_refl (socket p) = (==_iff p p).1 refl
same_refl (table p t) =
    rw ((==_iff p p).1 refl, (==_iff (table_number t) (table_number t)).1 refl) refl

-- A resource that is held can be given back, once.
pub take_away-held :
    (r : Resource) (xs : List Resource)
    → 0 < held r xs
    → (ys : List Resource) × (take_away r xs ≡ some ys)
      × ((s : Resource) → held s xs ≡ (if same s r then 1 else 0) + held s ys)
take_away-held r [] h = absurd (omega arith)
take_away-held r (x ∷ xs) h = elim (Bool-cases (same r x)) [
  | inl e ↦ (
    xs,
    rw e refl,
    λ s. ap (λ y. (if same s y then 1 else 0) + held s xs) (sym (eq_of_same r x e)),
  )
  | inr e ↦
      let (ys, f, g) =
        take_away-held r xs
          (omega (arith, subst (λ b. 0 < (if b then 1 else 0) + held r xs) e h)) in
      (
        x ∷ ys,
        ap (λ b. if b then some xs else and_then (take_away r xs) λ zs. some (x ∷ zs)) e
            ∙ ap (λ o. and_then o λ zs. some (x ∷ zs)) f,
        λ s. omega (arith, g s),
      )
]

-- Nothing is held.
pub held-nil : (xs : List Resource) → ((r : Resource) → held r xs ≡ 0) → xs ≡ []
held-nil [] h = refl
held-nil (x ∷ xs) h =
    absurd (omega (arith, subst (λ b. (if b then 1 else 0) + held x xs ≡ 0) (same_refl x) (h x)))

pub has-held : (r : Resource) (xs : List Resource) → has r xs ≡ false → held r xs ≡ 0
has-held r [] h = refl
has-held r (x ∷ xs) h = elim (Bool-cases (same r x)) [
  | inl e ↦ absurd (false≢true (sym h ∙ ap (λ b. b || has r xs) e))
  | inr e ↦ rw e omega (arith, has-held r xs (sym (ap (λ b. b || has r xs) e) ∙ h))
]

pub held-has : (r : Resource) (xs : List Resource) → has r xs ≡ true → 0 < held r xs
held-has r [] h = absurd (false≢true h)
held-has r (x ∷ xs) h = elim (Bool-cases (same r x)) [
  | inl e ↦ rw e omega arith
  | inr e ↦ rw e omega (arith, held-has r xs (sym (ap (λ b. b || has r xs) e) ∙ h))
]

module _ ⦃ns : Rhashtable ℕ⦄ where
  -- Resources given back one after the other, before the rest.
  abbrev pub release_then : {B : Type 0} → List Resource → N B → N B
  release_then [] n = n
  release_then (r ∷ rs) n = release r >> release_then rs n

  pub release_then-held :
      {B : Type 0} (P : Option (B × Module) → Type 0) (rs : List Resource) (n : N B) (m : Module)
      → ((s : Resource) → held s rs ≤ held s m.live)
      → ((ys : List Resource)
          → ((s : Resource) → held s m.live ≡ held s rs + held s ys)
          → P (n (record m { live = ys })))
      → P (release_then rs n m)
  release_then-held P [] n m h f = f m.live (λ s. omega arith)
  release_then-held P (r ∷ rs) n m h f =
      let (xs, e, g) = take_away-held r m.live (
        omega (
          arith,
          h r,
          subst (λ b. 0 < (if b then 1 else 0) + held r rs) (sym (same_refl r)) (omega arith),
        )) in
      release-held P r m xs (release_then rs n) e (
        release_then-held P rs n (record m { live = xs }) (λ s. omega (arith, h s, g s))
          λ ys u. f ys (λ s. omega (arith, g s, u s)))

  pub release-one :
      (r : Resource) (m : Module)
      → 0 < held r m.live
      → (ys : List Resource) × (release r m ≡ some (tt, record m { live = ys }))
        × ((s : Resource) → held s m.live ≡ (if same s r then 1 else 0) + held s ys)
  unfolding release
  release-one r m h =
      let (ys, e, g) = take_away-held r m.live h in
      (ys, ap (λ o. and_then o λ zs. some (tt, record m { live = zs })) e, g)
