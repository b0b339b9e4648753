-- ===== src/Client/Waiting.antt =====
-- The waiting requests of a client as a map from sequence numbers.
use muti.Common.{
  ℕ, ◌≡◌, refl, ap, List, [], ◌∷◌, ◌++◌, Option, none, some, Bool-cases, inl, inr, ◌==◌,
  if◌then◌else◌, arith,
}
use muti.Client.{ClientSendArg, Client, hash_of, find, unlink, set_slot}

-- The request that a response with a sequence number goes to.
unfoldable pub waiting : Client → ℕ → Option ClientSendArg
waiting c q = find q (c.waiting_hash_slots (hash_of q))

-- No two requests of a list have one sequence number.
abbrev pub IsDistinct : List ClientSendArg → Type 0
IsDistinct [] = Unit
IsDistinct (a ∷ slot) = (find a.sequence slot ≡ none) × IsDistinct slot

abbrev pub IsClient : Client → Type 0
IsClient c = (i : ℕ) → IsDistinct (c.waiting_hash_slots i)

pub find-append :
    (q : ℕ) (slot : List ClientSendArg) (a : ClientSendArg)
    → find a.sequence slot ≡ none
    → find q (slot ++ a ∷ []) ≡ (if a.sequence == q then some a else find q slot)
unfolding find
find-append q [] a h = refl
find-append q (b ∷ slot) a h = ground (arith, find-append q slot a)

pub find-unlink :
    (q k : ℕ) (slot : List ClientSendArg)
    → IsDistinct slot
    → find q (unlink k slot) ≡ (if k == q then none else find q slot)
unfolding find unlink
find-unlink q k [] d = ground arith
find-unlink q k (b ∷ slot) d = ground (arith, find-unlink q k slot d.1, d.0)

pub unlink-IsDistinct :
    (k : ℕ) (slot : List ClientSendArg) → IsDistinct slot → IsDistinct (unlink k slot)
unfolding unlink find
unlink-IsDistinct k [] d = tt
unlink-IsDistinct k (b ∷ slot) d = elim (Bool-cases (b.sequence == k)) [
  | inl same ↦ rw same d.1
  | inr other ↦
      let gone : find b.sequence (unlink k slot) ≡ none =
        ground (arith, find-unlink b.sequence k slot d.1, d.0) in
      rw other (gone, unlink-IsDistinct k slot d.1)
]

pub append-IsDistinct :
    (slot : List ClientSendArg) (a : ClientSendArg)
    → find a.sequence slot ≡ none
    → IsDistinct slot
    → IsDistinct (slot ++ a ∷ [])
unfolding find
append-IsDistinct [] a h d = (refl, tt)
append-IsDistinct (b ∷ slot) a h d = elim (Bool-cases (b.sequence == a.sequence)) [
  | inl same ↦ absurd (ground arith)
  | inr other ↦
      let absent : find a.sequence slot ≡ none = ground arith in
      let kept : find b.sequence (slot ++ a ∷ []) ≡ none =
        ground (arith, find-append b.sequence slot a absent, d.0) in
      (kept, append-IsDistinct slot a absent d.1)
]

-- What `find` finds has the number that was asked for.
pub find-sequence :
    (q : ℕ) (slot : List ClientSendArg) (a : ClientSendArg) → find q slot ≡ some a → a.sequence ≡ q
unfolding find
find-sequence q [] a h = cc
find-sequence q (b ∷ slot) a h = ground (arith, find-sequence q slot a)

-- A write to the list of `k` that changes the entry of `k` alone.
pub waiting-set_slot :
    (c : Client) (k sequence : ℕ) (slot : List ClientSendArg) (entry : Option ClientSendArg)
    → ((q : ℕ)
        → find q slot ≡ (if k == q then entry else find q (c.waiting_hash_slots (hash_of k))))
    → (q : ℕ)
    → waiting
        (record c {
          sequence = sequence;
          waiting_hash_slots = set_slot c.waiting_hash_slots (hash_of k) slot;
        })
        q
      ≡ (if k == q then entry else waiting c q)
unfolding waiting set_slot
waiting-set_slot c k sequence slot entry reads q = elim (Bool-cases (hash_of q == hash_of k)) [
  | inl same ↦ let home : hash_of q ≡ hash_of k = ground arith in rw (same, home) (reads q)
  | inr other ↦ elim (Bool-cases (k == q)) [
    | inl eq ↦
        let this : q ≡ k = ground arith in
        let home : hash_of q ≡ hash_of k = ap hash_of this in absurd (ground arith)
    | inr ne ↦ rw (other, ne) refl
  ]
]

pub set_slot-IsClient :
    (c : Client) (i sequence : ℕ) (slot : List ClientSendArg)
    → IsClient c
    → IsDistinct slot
    → IsClient (record c {
      sequence = sequence;
      waiting_hash_slots = set_slot c.waiting_hash_slots i slot;
    })
unfolding set_slot
set_slot-IsClient c i sequence slot v d j = elim (Bool-cases (j == i)) [
  | inl same ↦ rw same d
  | inr other ↦ rw other (v j)
]
