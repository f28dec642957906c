-- ===== src/TcpOptions/Encode.antt =====
-- TCP options as a list, the bytes that stand for them (RFC 793, section 3.1), and the reading
-- of a byte at an offset where a known list begins.
use dysco.Base.{
  ℕ, zero, suc, ◌+◌, ◌≤◌, ◌≡◌, arith, Option, none, some, List, [], ◌∷◌, ◌++◌, length, get_elem?,
  drop, ◌==◌, ◌&&◌, if◌then◌else◌,
}
use native.Mathlib.Nat.{add-zero}
use dysco.TcpOptions.Step.{kind_nop, kind_timestamp}

-- A one-byte filler, or a kind with its data.
pub data TcpOpt : Type 0 where
  nop : TcpOpt
  opt : ℕ → List ℕ → TcpOpt

-- The length byte counts the kind and itself.
abbrev pub encode : List TcpOpt → List ℕ
encode [] = []
encode (nop ∷ os) = kind_nop ∷ encode os
encode (opt kind payload ∷ os) = kind ∷ (length payload + 2) ∷ (payload ++ encode os)

-- Kinds 0 and 1 have no length byte, and cannot stand with data.
abbrev pub IsWf : List TcpOpt → Type 0
IsWf [] = Unit {0}
IsWf (nop ∷ os) = IsWf os
IsWf (opt kind payload ∷ os) = (2 ≤ kind) × IsWf os

-- The offset of the data of the first timestamp, for options that begin at `ptr`.
abbrev pub find_ts : ℕ → List TcpOpt → Option ℕ
find_ts ptr [] = none
find_ts ptr (nop ∷ os) = find_ts (ptr + 1) os
find_ts ptr (opt kind payload ∷ os) =
    if (kind == kind_timestamp) && (length payload + 2 == 10)
    then some (ptr + 2)
    else find_ts (ptr + (length payload + 2)) os

pub get_elem?-drop : (b : List ℕ) (p x : ℕ) (r : List ℕ) → drop p b ≡ x ∷ r → get_elem? b p ≡ some x
get_elem?-drop [] zero x r e = cc
get_elem?-drop [] (suc p) x r e = cc
get_elem?-drop (y ∷ b) zero x r e = cc
get_elem?-drop (y ∷ b) (suc p) x r e = get_elem?-drop b p x r e

pub drop-suc : (b : List ℕ) (p x : ℕ) (r : List ℕ) → drop p b ≡ x ∷ r → drop (suc p) b ≡ r
drop-suc [] zero x r e = cc
drop-suc [] (suc p) x r e = cc
drop-suc (y ∷ b) zero x r e = cc
drop-suc (y ∷ b) (suc p) x r e = drop-suc b p x r e

pub drop-append :
    (b : List ℕ) (p : ℕ) (xs r : List ℕ) → drop p b ≡ xs ++ r → drop (p + length xs) b ≡ r
drop-append b p [] r e = rw add-zero e
drop-append b p (x ∷ xs) r e =
    rw (add_suc_left p (length xs)) (drop-append b (suc p) xs r (drop-suc b p x (xs ++ r) e))
  where
    add_suc_left : (m n : ℕ) → m + suc n ≡ suc m + n
    add_suc_left m n = omega arith
