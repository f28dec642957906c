-- ===== src/TcpOptions/Lookup.antt =====
-- `dysco_get_ts_option` finds exactly the first well-formed timestamp among encoded options.
use dysco.Base.{
  ℕ, zero, suc, ◌+◌, ◌-◌, ◌≤◌, ◌<◌, ◌≡◌, refl, ap, ◌∙◌, arith, none, some, List, [], ◌∷◌, ◌++◌,
  length, drop, get_elem?, length-append, inl, inr, Bool-cases, ◌==◌, ◌&&◌,
}
use mathlib.Core.List.{append_assoc}
use native.Mathlib.Numerals.{add-one}
use dysco.Types.{Skb}
use dysco.TcpOptions.{ts_loop, get_ts_option}
use dysco.TcpOptions.Step.{skip, option, step, kind_timestamp, options_length}
use dysco.TcpOptions.Encode.{
  TcpOpt, nop, opt, encode, IsWf, find_ts, get_elem?-drop, drop-suc, drop-append,
}

module _ (body : List ℕ) (ptr : ℕ) where
  pub step-nop :
      (left : ℕ) (r : List ℕ) → drop ptr body ≡ 1 ∷ r → 0 < left → step body ptr left ≡ skip
  unfolding step
  step-nop left r e h = ground (arith, get_elem?-drop body ptr 1 r e)

  pub step-opt :
      (left kind size : ℕ) (r : List ℕ)
      → drop ptr body ≡ kind ∷ size ∷ r
      → 2 ≤ kind
      → 2 ≤ size
      → size ≤ left
      → step body ptr left ≡ option kind size
  unfolding step
  step-opt left kind size r e h k l = ground (
    arith,
    get_elem?-drop body ptr kind (size ∷ r) e,
    ap (get_elem? body) (suc_eq ptr),
    get_elem?-drop body (suc ptr) size r (drop-suc body ptr kind (size ∷ r) e),
  )
    where
      suc_eq : (n : ℕ) → n + 1 ≡ suc n
      suc_eq n = omega arith

ts_loop-done : (fuel : ℕ) (body : List ℕ) (ptr : ℕ) → ts_loop (suc fuel) body ptr 0 ≡ some none
unfolding ts_loop step
ts_loop-done fuel body ptr = refl

ts_loop-find_ts :
    (os : List TcpOpt) (fuel : ℕ) (body : List ℕ) (ptr left : ℕ) (rest : List ℕ)
    → IsWf os
    → left ≡ length (encode os)
    → left < fuel
    → drop ptr body ≡ encode os ++ rest
    → ts_loop fuel body ptr left ≡ some (find_ts ptr os)
unfolding ts_loop
ts_loop-find_ts os zero body ptr left rest w l h e = absurd (omega arith)
ts_loop-find_ts [] (suc fuel) body ptr left rest w l h e = rw l (ts_loop-done fuel body ptr)
ts_loop-find_ts (nop ∷ os) (suc fuel) body ptr left rest w l h e =
    rw (ts_loop, step-nop body ptr left (encode os ++ rest) e (omega arith))
      (ts_loop-find_ts os fuel body (ptr + 1) (left - 1) rest w (omega arith) (omega arith)
        (rw (add-one ptr) (drop-suc body ptr 1 (encode os ++ rest) e)))
ts_loop-find_ts (opt kind payload ∷ os) (suc fuel) body ptr left rest w l h e =
    let size = length payload + 2 in
    let at : step body ptr left ≡ option kind size =
      step-opt body ptr left kind size ((payload ++ encode os) ++ rest) e w.0 (omega arith)
        (omega (arith, length-append payload (encode os))) in
    let next : drop (ptr + size) body ≡ encode os ++ rest = rw (regroup ptr (length payload)) (
      drop-append body ptr (kind ∷ size ∷ payload) (encode os ++ rest)
        (e ∙ ap (λ (t : List ℕ). kind ∷ size ∷ t) (append_assoc payload (encode os) rest))) in
    elim (Bool-cases ((kind == kind_timestamp) && (size == 10))) [
      | inl hit ↦ rw (ts_loop, at, hit) refl
      | inr miss ↦
          rw (ts_loop, at, miss)
            (ts_loop-find_ts os fuel body (ptr + size) (left - size) rest w.1
              (omega (arith, length-append payload (encode os))) (omega arith) next)
    ]
  where
    regroup : (p n : ℕ) → p + (n + 2) ≡ p + suc (suc n)
    regroup p n = omega arith

-- If the options of a packet are the encoding of a well-formed list, and its data offset says
-- so, `dysco_get_ts_option` gives the offset of the data of the first timestamp option with
-- eight bytes of data, and NULL if there is none.
pub get_ts_option-find_ts :
    (skb : Skb) (os : List TcpOpt) (rest : List ℕ)
    → IsWf os
    → options_length skb ≡ length (encode os)
    → skb.body ≡ encode os ++ rest
    → get_ts_option skb ≡ some (find_ts 0 os)
unfolding get_ts_option
get_ts_option-find_ts skb os rest w l e =
    ts_loop-find_ts os (suc (options_length skb)) skb.body 0 (options_length skb) rest w l
      (omega arith) e
