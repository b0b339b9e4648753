-- ===== src/HashMap/Laws.antt =====
-- The map as a partial function from keys to values: what the operations of
-- corecode/util/MapHashLinked.c promise.
use muti.Common.{
  ℕ, ◌+◌, ◌-◌, ◌^◌, ◌<◌, ◌≡◌, refl, sym, ap, subst, ◌∙◌, Option, none, some, List, [], ◌∷◌, ◌++◌,
  flatten, ok, length, set, get_elem?, All, arith, ◌==◌, if◌then◌else◌, Bool-cases, Option-cases,
  inl, inr, at-get_elem?, get_elem?_total, get_elem?-set_self, get_elem?-set_ne, length-set,
  length-append, length-flatten-set, get_elem?-lt, All-append,
}
use muti.Common.Bits.{bit_and-le}
use muti.HashMap.{MapHashLinkedParam, Map, mask, slot_of, find, assign, unlink, get, put, remove}
use muti.HashMap.Chains.{
  IsLawful, same, matches-same, IsDistinct, find_congr, find-assign, find-append, find-unlink,
  assign-IsDistinct, append-IsDistinct, unlink-IsDistinct, length-assign, length-unlink, All-assign,
  All-unlink,
}

-- one for an entry, none for its absence
abbrev pub found {ℓ} : {V : Type ℓ} → Option V → ℕ
found none = 0
found (some v) = 1

module _ {ℓ} {K V : Type ℓ} (p : MapHashLinkedParam K V) (law : IsLawful p) where
  open law use {code, hash_same}

  -- A slot in place: distinct keys, each of which hashes to it.
  abbrev pub IsPlaced : ℕ → List V → Type ℓ
  IsPlaced i s = IsDistinct p law s × All (λ v. slot_of p (p.key_of v) ≡ i) s

  pub record IsValid (m : Map V) : Type ℓ where
    pub width : length m.slots ≡ p.slot_size
    pub positive : 0 < p.slot_size
    pub sized : p.slot_size < 2 ^ 64
    pub placed : (i : ℕ) (s : List V) → get_elem? m.slots i ≡ some s → IsPlaced i s
    pub counted : m.size ≡ length (flatten m.slots)

  -- The value that the map holds under a key.
  unfoldable pub view : Map V → K → Option V
  view m k = elim (get_elem? m.slots (slot_of p k)) [ none ↦ none | some s ↦ find p k s ]

  pub view_at :
      (m : Map V) (k : K) (s : List V)
      → get_elem? m.slots (slot_of p k) ≡ some s
      → view m k ≡ find p k s
  unfolding view
  view_at m k s here = rw (here, view)

  -- `m'` differs from `m` in the entry of `k` alone, which is `entry`.
  pub record Replaces (m : Map V) (k : K) (entry : Option V) (m' : Map V) : Type ℓ where
    pub valid : IsValid m'
    pub reads : (q : K) → view m' q ≡ (if same p law q k then entry else view m q)
    pub size : m'.size + found (view m k) ≡ m.size + found entry

  pub slot_of-lt : (k : K) → 0 < p.slot_size → p.slot_size < 2 ^ 64 → slot_of p k < p.slot_size
  unfolding slot_of
  slot_of-lt k h b = omega (arith, bit_and-le (p.hash_method k) (mask p.slot_size))

  pub slot_of_congr : (a b : K) → code a ≡ code b → slot_of p a ≡ slot_of p b
  unfolding slot_of
  slot_of_congr a b e = rw (hash_same a b e)

  module _ {m : Map V} (valid : IsValid m) (k : K) where
    slot : (s : List V) × (get_elem? m.slots (slot_of p k) ≡ some s)
    slot =
        get_elem?_total m.slots (slot_of p k)
          (rw valid.width (slot_of-lt k valid.positive valid.sized))

    view_same : (a : K) → code a ≡ code k → view m a ≡ view m k
    view_same a e =
        let (s, here) = slot in
        let home = slot_of_congr k a (sym e) in
        view_at m a s (subst (λ j. get_elem? m.slots j ≡ some s) home here)
        ∙ find_congr p law a k s e
        ∙ sym (view_at m k s here)

    place_slot :
        (new : List V) (i : ℕ) (s : List V)
        → IsPlaced (slot_of p k) new
        → get_elem? (set m.slots (slot_of p k) new) i ≡ some s
        → IsPlaced i s
    place_slot new i s place e = elim (Bool-cases (slot_of p k == i)) [
      | inl eq ↦
          let home : slot_of p k ≡ i = ground arith in
          let written =
            get_elem?-set_self m.slots (slot_of p k) new
              (omega (arith, valid.width, slot_of-lt k valid.positive valid.sized)) in
          let this : new ≡ s = ground arith in
          subst (λ j. IsPlaced j s) home (subst (IsPlaced (slot_of p k)) this place)
      | inr ne ↦
          valid.placed i s (sym (get_elem?-set_ne m.slots (slot_of p k) i new (ground arith)) ∙ e)
    ]

    read_slot :
        (s new : List V) (entry : Option V) (size : ℕ)
        → get_elem? m.slots (slot_of p k) ≡ some s
        → ((q : K) → find p q new ≡ (if same p law q k then entry else find p q s))
        → (q : K)
        → view (record { slots = set m.slots (slot_of p k) new; size = size }) q
          ≡ (if same p law q k then entry else view m q)
    read_slot s new entry size here reads q = elim (Bool-cases (slot_of p k == slot_of p q)) [
      | inl eq ↦
          let home : slot_of p k ≡ slot_of p q = ground arith in
          let written =
            get_elem?-set_self m.slots (slot_of p k) new
              (get_elem?-lt m.slots (slot_of p k) s here) in
          view_at (record { slots = set m.slots (slot_of p k) new; size = size }) q new
            (subst (λ j. get_elem? (set m.slots (slot_of p k) new) j ≡ some new) home written)
          ∙ (reads q)
          ∙ ap (λ f. if same p law q k then entry else f)
              (sym (view_at m q s (subst (λ j. get_elem? m.slots j ≡ some s) home here)))
      | inr ne ↦
          unfold view in
          rw (get_elem?-set_ne m.slots (slot_of p k) (slot_of p q) new (ground arith), view)
            (ground (arith, slot_of_congr q k))
    ]

    -- A write to the slot of `k`.
    write_slot :
        (s new : List V) (entry : Option V) (size : ℕ)
        → get_elem? m.slots (slot_of p k) ≡ some s
        → IsPlaced (slot_of p k) new
        → ((q : K) → find p q new ≡ (if same p law q k then entry else find p q s))
        → size + length s ≡ m.size + length new
        → size + found (find p k s) ≡ m.size + found entry
        → Replaces m k entry (record { slots = set m.slots (slot_of p k) new; size = size })
    unfolding view
    write_slot s new entry size here place reads total step = record {
      valid = record {
        width = length-set m.slots (slot_of p k) new ∙ valid.width;
        positive = valid.positive;
        sized = valid.sized;
        placed = λ i t. place_slot new i t place;
        counted = omega (arith, valid.counted, length-flatten-set m.slots (slot_of p k) s new here);
      };
      reads = read_slot s new entry size here reads;
      size = rw (here, view) step;
    }

    -- `get` does not leave the slot array, and reads the abstract map.
    pub get-view : get p m k ≡ ok (view m k)
    unfolding get
    get-view =
        let (s, here) = slot in
        ground (arith, at-get_elem? m.slots (slot_of p k) s here, view_at m k s here)

    -- `put` of a value under its key gives back the old value and replaces the entry.
    pub put-Replaces :
        (new : V)
        → code (p.key_of new) ≡ code k
        → (m' : Map V) × (put p m k new ≡ ok (view m k, m')) × Replaces m k (some new) m'
    unfolding put
    put-Replaces new e =
        let (s, here) = slot in
        let (distinct, home) = valid.placed (slot_of p k) s here in
        let own = slot_of_congr (p.key_of new) k e in
        elim (Option-cases (find p k s)) [
          | inl absent ↦ (
            _,
            ground (
              arith,
              matches-same p law new k,
              at-get_elem? m.slots (slot_of p k) s here,
              view_at m k s here,
            ),
            write_slot s (s ++ new ∷ []) (some new) (m.size + 1) here
                (
                  append-IsDistinct p law k new s e absent distinct,
                  All-append _ s (new ∷ []) home (own, tt),
                )
                (λ q. find-append p law k q new s e absent)
                (omega (arith, length-append s (new ∷ []))) (rw absent (omega arith)),
          )
          | inr (old, present) ↦ (
            _,
            ground (
              arith,
              matches-same p law new k,
              at-get_elem? m.slots (slot_of p k) s here,
              view_at m k s here,
            ),
            write_slot s (assign p k new s) (some new) m.size here
                (
                  assign-IsDistinct p law k new s old e present distinct,
                  All-assign p _ k new s own home,
                )
                (λ q. find-assign p law k q new s old e present)
                (omega (arith, length-assign p law k new s)) (rw present refl),
          )
        ]

    -- A map with an entry is not empty.
    filled :
        (s : List V)
        → get_elem? m.slots (slot_of p k) ≡ some s
        → (old : V) → find p k s ≡ some old
        → 0 < m.size
    filled s here old present = omega (
      arith,
      length-unlink p law k s old present,
      valid.counted,
      length-flatten-set m.slots (slot_of p k) s [] here,
    )

    -- `_remove` gives back the entry of the key and deletes it.
    pub remove-Replaces : (m' : Map V) × (remove p m k ≡ ok (view m k, m')) × Replaces m k none m'
    unfolding remove
    remove-Replaces =
        let (s, here) = slot in
        let (distinct, home) = valid.placed (slot_of p k) s here in
        elim (Option-cases (find p k s)) [
          | inl absent ↦ (
            m,
            ground (arith, at-get_elem? m.slots (slot_of p k) s here, view_at m k s here),
            record {
              valid = valid;
              reads = λ q. ground (arith, view_at m k s here, view_same q);
              size = ground (arith, view_at m k s here);
            },
          )
          | inr (old, present) ↦ (
            _,
            ground (arith, at-get_elem? m.slots (slot_of p k) s here, view_at m k s here),
            write_slot s (unlink p k s) none (m.size - 1) here
                (unlink-IsDistinct p law k s distinct, All-unlink p _ k s home)
                (λ q. find-unlink p law k q s distinct)
                (omega (arith, length-unlink p law k s old present, filled s here old present))
                (rw present (omega (arith, filled s here old present))),
          )
        ]
