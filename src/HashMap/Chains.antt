-- ===== src/HashMap/Chains.antt =====
-- One slot of the map: what its loops find, replace and unlink.
use muti.Common.{
  ℕ, ◌+◌, ◌≡◌, refl, Bool, none, some, List, [], ◌∷◌, ◌++◌, All, length, arith, ◌==◌, Bool-cases,
  inl, inr, if◌then◌else◌,
}
use muti.HashMap.{MapHashLinkedParam, matches, find, assign, unlink}

-- What the map relies on: the comparison tells apart what `code` tells apart, and the hash depends
-- on it alone.
pub record IsLawful {ℓ} {K V : Type ℓ} (p : MapHashLinkedParam K V) : Type ℓ where
  pub code : K → ℕ
  pub compare_zero : (a b : K) → p.compare_method a b ≡ 0 → code a ≡ code b
  pub compare_same : (a b : K) → code a ≡ code b → p.compare_method a b ≡ 0
  pub hash_same : (a b : K) → code a ≡ code b → p.hash_method a ≡ p.hash_method b

module _ {ℓ} {K V : Type ℓ} (p : MapHashLinkedParam K V) (law : IsLawful p) where
  open law use {code, compare_zero, compare_same}

  abbrev pub same : K → K → Bool
  same a b = code a == code b

  pub matches-same : (v : V) (k : K) → matches p v k ≡ same (p.key_of v) k
  matches-same v k = ground (arith, compare_zero (p.key_of v) k, compare_same (p.key_of v) k)

  -- No two values of the slot have the same key.
  abbrev pub IsDistinct : List V → Type ℓ
  IsDistinct [] = Unit
  IsDistinct (v ∷ s) = (find p (p.key_of v) s ≡ none) × IsDistinct s

  pub find_congr : (a b : K) (s : List V) → code a ≡ code b → find p a s ≡ find p b s
  unfolding find
  find_congr a b [] e = refl
  find_congr a b (v ∷ s) e = ground (arith, find_congr a b s, matches-same v a, matches-same v b)

  pub find_key : (k : K) (s : List V) (v : V) → find p k s ≡ some v → code (p.key_of v) ≡ code k
  unfolding find
  find_key k [] v h = cc
  find_key k (w ∷ s) v h = ground (arith, find_key k s v, matches-same w k)

  pub find-assign :
      (k q : K) (new : V) (s : List V) (old : V)
      → code (p.key_of new) ≡ code k
      → find p k s ≡ some old
      → find p q (assign p k new s) ≡ (if same q k then some new else find p q s)
  unfolding find assign
  find-assign k q new [] old e h = cc
  find-assign k q new (v ∷ s) old e h = elim (Bool-cases (matches p v k)) [
    | inl here ↦ rw here (ground (arith, matches-same v k, matches-same v q, matches-same new q))
    | inr on ↦
        let later : find p k s ≡ some old = rw on at h in
        rw on
          (ground (arith, find-assign k q new s old e later, matches-same v k, matches-same v q))
  ]

  pub find-append :
      (k q : K) (new : V) (s : List V)
      → code (p.key_of new) ≡ code k
      → find p k s ≡ none
      → find p q (s ++ new ∷ []) ≡ (if same q k then some new else find p q s)
  unfolding find
  find-append k q new [] e h = ground (arith, matches-same new q)
  find-append k q new (v ∷ s) e h =
      ground (arith, find-append k q new s e, matches-same v q, matches-same v k)

  pub find-unlink :
      (k q : K) (s : List V)
      → IsDistinct s
      → find p q (unlink p k s) ≡ (if same q k then none else find p q s)
  unfolding find unlink
  find-unlink k q [] d = ground arith
  find-unlink k q (v ∷ s) d = elim (Bool-cases (matches p v k)) [
    | inl here ↦
        rw here
          (ground (arith, matches-same v k, matches-same v q, find_congr (p.key_of v) q s, d.0))
    | inr on ↦ rw on (ground (arith, find-unlink k q s d.1, matches-same v k, matches-same v q))
  ]

  pub assign-IsDistinct :
      (k : K) (new : V) (s : List V) (old : V)
      → code (p.key_of new) ≡ code k
      → find p k s ≡ some old
      → IsDistinct s
      → IsDistinct (assign p k new s)
  unfolding find assign
  assign-IsDistinct k new [] old e h d = d
  assign-IsDistinct k new (v ∷ s) old e h d = elim (Bool-cases (matches p v k)) [
    | inl here ↦
        rw here
          (ground (arith, find_congr (p.key_of v) (p.key_of new) s, matches-same v k, d.0), d.1)
    | inr on ↦
        let later : find p k s ≡ some old = rw on at h in
        rw on (
          ground (arith, find-assign k (p.key_of v) new s old e later, matches-same v k, d.0),
          assign-IsDistinct k new s old e later d.1,
        )
  ]

  pub append-IsDistinct :
      (k : K) (new : V) (s : List V)
      → code (p.key_of new) ≡ code k
      → find p k s ≡ none
      → IsDistinct s
      → IsDistinct (s ++ new ∷ [])
  unfolding find
  append-IsDistinct k new [] e h d = (refl, tt)
  append-IsDistinct k new (v ∷ s) e h d = elim (Bool-cases (matches p v k)) [
    | inl here ↦ absurd (ground arith)
    | inr on ↦
        let later : find p k s ≡ none = rw on at h in
        (
          ground (arith, find-append k (p.key_of v) new s e later, matches-same v k, d.0),
          append-IsDistinct k new s e later d.1,
        )
  ]

  pub unlink-IsDistinct : (k : K) (s : List V) → IsDistinct s → IsDistinct (unlink p k s)
  unfolding find unlink
  unlink-IsDistinct k [] d = d
  unlink-IsDistinct k (v ∷ s) d = elim (Bool-cases (matches p v k)) [
    | inl here ↦ rw here d.1
    | inr on ↦
        rw on (ground (arith, find-unlink k (p.key_of v) s d.1, d.0), unlink-IsDistinct k s d.1)
  ]

  pub length-assign : (k : K) (new : V) (s : List V) → length (assign p k new s) ≡ length s
  unfolding assign
  length-assign k new [] = refl
  length-assign k new (v ∷ s) = ground (arith, length-assign k new s)

  pub length-unlink :
      (k : K) (s : List V) (old : V) → find p k s ≡ some old → length (unlink p k s) + 1 ≡ length s
  unfolding find unlink
  length-unlink k [] old h = cc
  length-unlink k (v ∷ s) old h = ground (arith, length-unlink k s old)

module _ {ℓ κ} {K V : Type ℓ} (p : MapHashLinkedParam K V) (P : V → Type κ) where
  pub All-assign : (k : K) (new : V) (s : List V) → P new → All P s → All P (assign p k new s)
  unfolding assign
  All-assign k new [] h a = a
  All-assign k new (v ∷ s) h a = elim (Bool-cases (matches p v k)) [
    | inl here ↦ rw here (h, a.1)
    | inr on ↦ rw on (a.0, All-assign k new s h a.1)
  ]

  pub All-unlink : (k : K) (s : List V) → All P s → All P (unlink p k s)
  unfolding unlink
  All-unlink k [] a = a
  All-unlink k (v ∷ s) a = elim (Bool-cases (matches p v k)) [
    | inl here ↦ rw here a.1
    | inr on ↦ rw on (a.0, All-unlink k s a.1)
  ]
