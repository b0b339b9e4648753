-- ===== src/HashMap/Whole.antt =====
-- The operations of corecode/util/MapHashLinked.c on a whole map: its initialisation and `clear`.
use muti.Common.{
  ℕ, ◌^◌, ◌<◌, ◌≡◌, refl, sym, ap, subst, ◌∙◌, none, some, List, [], ◌∷◌, ok, aborted, length,
  replicate, get_elem?, All, arith, get_elem?_total, All-imp, All-and, All-flatten, length-map,
  get_elem?-clear, flatten-clear, get_elem?-replicate, length-replicate, get_elem?-fresh,
  flatten-fresh,
}
use muti.HashMap.{MapHashLinkedParam, Map, slot_of, find, get, clear, init_map_hash_linked}
use muti.HashMap.Chains.{IsLawful, matches-same, IsDistinct, find_congr}
use muti.HashMap.Laws.{IsValid, IsPlaced, view, view_at, slot_of-lt}

module _ {ℓ} {K V : Type ℓ} (p : MapHashLinkedParam K V) (law : IsLawful p) where
  -- What a slot holds is what the map holds.
  distinct_find : (s : List V) → IsDistinct p law s → All (λ v. find p (p.key_of v) s ≡ some v) s
  unfolding find
  distinct_find [] d = tt
  distinct_find (v ∷ s) d = (
    ground (arith, matches-same p law v (p.key_of v)),
    All-imp _ _ s
        (λ w h. ground (
          arith,
          matches-same p law v (p.key_of w),
          find_congr p law (p.key_of v) (p.key_of w) s,
          h,
          d.0,
        ))
        (distinct_find s d.1),
  )

  slot-stored :
      (m : Map V) (i : ℕ) (s : List V)
      → get_elem? m.slots i ≡ some s
      → IsPlaced p law i s
      → All (λ v. view p law m (p.key_of v) ≡ some v) s
  slot-stored m i s here (distinct, home) =
      All-imp (λ v. (find p (p.key_of v) s ≡ some v) × (slot_of p (p.key_of v) ≡ i)) _ s
        (λ v h.
          view_at p law m (p.key_of v) s (subst (λ j. get_elem? m.slots j ≡ some s) (sym h.1) here)
          ∙ h.0)
        (All-and _ _ s (distinct_find s distinct) home)

  view_cleared : (m : Map V) → IsValid p law m → (q : K) → view p law (clear m).1 q ≡ none
  unfolding clear find
  view_cleared m valid q =
      let (s, here) =
        get_elem?_total (clear m).1.slots (slot_of p q) (
          rw (length-map _ m.slots, valid.width) (slot_of-lt p law q valid.positive valid.sized)) in
      view_at p law (clear m).1 q s here
      ∙ ap (find p q) (get_elem?-clear m.slots (slot_of p q) s here)

  -- `clear` hands out each entry once and leaves the empty map.
  pub clear-entries :
      (m : Map V)
      → IsValid p law m
      → IsValid p law (clear m).1
        × ((q : K) → view p law (clear m).1 q ≡ none)
        × (length (clear m).0 ≡ m.size)
        × All (λ v. view p law m (p.key_of v) ≡ some v) (clear m).0
  unfolding clear view find
  clear-entries m valid = (
    record {
      width = length-map _ m.slots ∙ valid.width;
      positive = valid.positive;
      sized = valid.sized;
      placed = λ i s e.
          let gone = get_elem?-clear m.slots i s e in subst (IsPlaced p law i) (sym gone) (tt, tt);
      counted = sym (ap length (flatten-clear m.slots));
    },
    λ q. view_cleared m valid q,
    sym valid.counted,
    All-flatten _ m.slots (λ i s e. slot-stored m i s e (valid.placed i s e)),
  )

  abbrev fresh : Map V
  fresh = record { slots = replicate p.slot_size []; size = 0 }

  view-fresh : 0 < p.slot_size → p.slot_size < 2 ^ 64 → (q : K) → view p law fresh q ≡ none
  unfolding find
  view-fresh pos small q =
      view_at p law fresh q []
        (get_elem?-replicate p.slot_size (slot_of p q) [] (slot_of-lt p law q pos small))

  -- An initialised map with a slot is valid and has no entry.
  pub init_map_hash_linked-IsValid :
      (m : Map V)
      → 0 < p.slot_size
      → p.slot_size < 2 ^ 64
      → init_map_hash_linked p ≡ ok m
      → IsValid p law m × ((q : K) → view p law m q ≡ none) × (m.size ≡ 0)
  unfolding init_map_hash_linked
  init_map_hash_linked-IsValid m pos small h =
      let e : fresh ≡ m = ground arith in
      subst (λ t. IsValid p law t × ((q : K) → view p law t q ≡ none) × (t.size ≡ 0)) e
        (
          record {
            width = length-replicate p.slot_size [];
            positive = pos;
            sized = small;
            placed = λ j s g.
                subst (IsPlaced p law j) (sym (get_elem?-fresh p.slot_size j s g)) (tt, tt);
            counted = sym (ap length (flatten-fresh {A = V} p.slot_size));
          },
          view-fresh pos small,
          refl,
        )

  -- With no slots the map is made all the same, and each lookup leaves the slot array.
  pub get-no_slots :
      (m : Map V) (k : K) → p.slot_size ≡ 0 → init_map_hash_linked p ≡ ok m → get p m k ≡ aborted
  unfolding init_map_hash_linked get
  get-no_slots m k none_left h =
      let e : fresh ≡ m = ground arith in subst (λ t. get p t k ≡ aborted) e (rw none_left refl)
