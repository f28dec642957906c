-- ===== src/Chain/RoundTrip.antt =====
-- What one host puts into a SYN, the next host reads, and takes out again.
use mathlib.Core.List.{append-nil}
use dysco.Base.{
  ℕ, ◌+◌, ◌*◌, ◌/◌, ◌%◌, ◌<◌, ◌≡◌, refl, ap, sym, ◌∙◌, arith, some, List, [], ◌∷◌, ◌++◌, length,
  get_elem?, take, drop,
}
use dysco.Types.{TcpSession, ServiceChain}
use dysco.TcpOptions.{bytes32}
use dysco.TcpOptions.Step.{load32}
use dysco.TcpOptions.Encode.{get_elem?-drop, drop-append}
use dysco.Chain.{
  bytes16, load16, session_bytes, hops_bytes, syn_bytes, read_session, read_sc_len, read_hops,
}

-- The bytes of a list begin at an offset of a buffer.
abbrev pub Holds : List ℕ → ℕ → List ℕ → List ℕ → Type 0
Holds body ptr bytes rest = drop ptr body ≡ bytes ++ rest

module _ (body : List ℕ) where
  pub drop_add :
      (ptr n : ℕ) (xs rest : List ℕ)
      → n ≡ length xs
      → Holds body ptr xs rest
      → drop (ptr + n) body ≡ rest
  drop_add ptr n xs rest e h = rw e (drop-append body ptr xs rest h)

  pub get_at :
      (ptr n x : ℕ) (xs rest : List ℕ)
      → n ≡ length xs
      → Holds body ptr xs (x ∷ rest)
      → get_elem? body (ptr + n) ≡ some x
  get_at ptr n x xs rest e h =
      get_elem?-drop body (ptr + n) x rest (drop_add ptr n xs (x ∷ rest) e h)

  load32-bytes32 :
      (ptr w : ℕ) (rest : List ℕ)
      → w < 4294967296
      → Holds body ptr (bytes32 w) rest
      → load32 body ptr ≡ some w
  unfolding load32
  load32-bytes32 ptr w rest lt h =
      rw
        (
          get_elem?-drop body ptr (w % 256) _ h,
          get_at ptr 1 (w / 256 % 256) (w % 256 ∷ []) _ refl h,
          get_at ptr 2 (w / 65536 % 256) (w % 256 ∷ w / 256 % 256 ∷ []) _ refl h,
          get_at ptr 3 (w / 16777216 % 256) (w % 256 ∷ w / 256 % 256 ∷ w / 65536 % 256 ∷ []) rest
              refl h,
        )
        (ap some (omega arith))

  load16-bytes16 :
      (ptr w : ℕ) (rest : List ℕ)
      → w < 65536
      → Holds body ptr (bytes16 w) rest
      → load16 body ptr ≡ some w
  unfolding load16
  load16-bytes16 ptr w rest lt h =
      rw
        (
          get_elem?-drop body ptr (w % 256) _ h,
          get_at ptr 1 (w / 256 % 256) (w % 256 ∷ []) rest refl h,
        )
        (ap some (omega arith))

  abbrev pub AllWords : List ℕ → Type 0
  AllWords [] = Unit {0}
  AllWords (h ∷ hs) = (h < 4294967296) × AllWords hs

  read_hops-hops_bytes :
      (hs : List ℕ) (ptr : ℕ) (rest : List ℕ)
      → AllWords hs
      → Holds body ptr (hops_bytes hs) rest
      → read_hops (length hs) body ptr ≡ some hs
  unfolding read_hops
  read_hops-hops_bytes [] ptr rest w h = refl
  read_hops-hops_bytes (x ∷ hs) ptr rest w h =
      rw
        (
          load32-bytes32 ptr x (hops_bytes hs ++ rest) w.0 h,
          read_hops-hops_bytes hs (ptr + 4) rest w.1
              (drop_add ptr 4 (bytes32 x) (hops_bytes hs ++ rest) refl h),
        )
        refl

pub drop-length : (xs ys : List ℕ) → drop (length xs) (xs ++ ys) ≡ ys
drop-length [] ys = refl
drop-length (x ∷ xs) ys = drop-length xs ys

pub take-length : (xs ys : List ℕ) → take (length xs) (xs ++ ys) ≡ xs
take-length [] ys = refl
take-length (x ∷ xs) ys = ap (◌∷◌ x) (take-length xs ys)

pub take_all : (xs : List ℕ) → take (length xs) xs ≡ xs
take_all [] = refl
take_all (x ∷ xs) = ap (◌∷◌ x) (take_all xs)

pub length-hops_bytes : (hs : List ℕ) → length (hops_bytes hs) ≡ length hs * 4
length-hops_bytes [] = refl
length-hops_bytes (h ∷ hs) = omega (arith, length-hops_bytes hs)

pub record IsSessionWords (s : TcpSession) : Type 0 where
  pub sip : s.sip < 4294967296
  pub dip : s.dip < 4294967296
  pub sport : s.sport < 65536
  pub dport : s.dport < 65536

-- A chain whose length is that of its hops, and fits its field.
pub record IsChain (sc : ServiceChain) : Type 0 where
  pub same : sc.len ≡ length sc.hops
  pub short : sc.len < 65536

module _ (body : List ℕ) (ptr : ℕ) (s : TcpSession) (sc : ServiceChain) (w : IsSessionWords s)
    (c : IsChain sc) (at : drop ptr body ≡ syn_bytes s sc) where
  abbrev tail4 : List ℕ
  tail4 = bytes16 sc.len ++ bytes16 sc.pos ++ hops_bytes (take sc.len sc.hops)

  pub read_session-syn_bytes : read_session body ptr ≡ some s
  unfolding read_session syn_bytes
  read_session-syn_bytes =
      let b = bytes32 s.dip ++ bytes16 s.sport ++ bytes16 s.dport ++ tail4 in
      let cc_ = bytes16 s.sport ++ bytes16 s.dport ++ tail4 in
      let dd = bytes16 s.dport ++ tail4 in
      rw
        (
          load32-bytes32 body ptr s.sip b w.sip at,
          load32-bytes32 body (ptr + 4) s.dip cc_ w.dip
              (drop_add body ptr 4 (bytes32 s.sip) b refl at),
          load16-bytes16 body (ptr + 8) s.sport dd w.sport
              (drop_add body ptr 8 (bytes32 s.sip ++ bytes32 s.dip) cc_ refl at),
          load16-bytes16 body (ptr + 10) s.dport tail4 w.dport
              (drop_add body ptr 10 (bytes32 s.sip ++ bytes32 s.dip ++ bytes16 s.sport) dd refl at),
        )
        refl

  pub read_sc_len-syn_bytes : read_sc_len body ptr ≡ some sc.len
  unfolding read_sc_len syn_bytes
  read_sc_len-syn_bytes =
      load16-bytes16 body (ptr + 12) sc.len (bytes16 sc.pos ++ hops_bytes (take sc.len sc.hops))
        c.short (drop_add body ptr 12 (session_bytes s) tail4 refl at)

  pub read_hops-syn_bytes : AllWords body sc.hops → read_hops sc.len body (ptr + 16) ≡ some sc.hops
  unfolding syn_bytes
  read_hops-syn_bytes hw = rw c.same (
      read_hops-hops_bytes body sc.hops (ptr + 16) [] hw (
        drop_add body ptr 16 (session_bytes s ++ bytes16 sc.len ++ bytes16 sc.pos)
          (hops_bytes (take sc.len sc.hops)) refl at
        ∙ ap hops_bytes (ap (λ (n : ℕ). take n sc.hops) c.same ∙ take_all sc.hops)
        ∙ sym (append-nil (hops_bytes sc.hops))))
