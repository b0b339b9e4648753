-- ===== src/InitialMap/Ids.antt =====
-- Lists by their elements, and lists of services with the same ids.
use muti.Common.{
  ℕ, zero, suc, ◌+◌, ◌≡◌, refl, ap, subst, ◌∙◌, List, [], ◌∷◌, ◌++◌, map, length, All, get_elem?,
  some, arith,
}
use muti.ClusterMap.{ObjectService}
use muti.ClusterMap.Index.{locate}
use muti.ClusterMap.Codec.Encoding.{IsUnique}

pub All-get_elem? {ℓ κ} :
    {A : Type ℓ} (P : A → Type κ) (xs : List A)
    → ((k : ℕ) (x : A) → get_elem? xs k ≡ some x → P x)
    → All P xs
All-get_elem? P [] h = tt
All-get_elem? P (x ∷ xs) h = (h 0 x refl, All-get_elem? P xs (λ k. h (suc k)))

pub get_elem?-All {ℓ κ} :
    {A : Type ℓ} (P : A → Type κ) (xs : List A) (k : ℕ) (x : A)
    → All P xs
    → get_elem? xs k ≡ some x
    → P x
get_elem?-All P [] k x h e = absurd cc
get_elem?-All P (y ∷ xs) zero x h e = let same : y ≡ x = cc in subst P same h.0
get_elem?-All P (y ∷ xs) (suc k) x h e = get_elem?-All P xs k x h.1 e

-- The ids of services.
abbrev pub ids_of : List ObjectService → List ℕ
ids_of = map {A = ObjectService} (λ os. os.id)

pub ids_of-get_elem? :
    (xs ys : List ObjectService)
    → length xs ≡ length ys
    → ((k : ℕ) (x : ObjectService)
        → get_elem? xs k ≡ some x
        → (y : ObjectService) × (get_elem? ys k ≡ some y) × (x.id ≡ y.id))
    → ids_of xs ≡ ids_of ys
ids_of-get_elem? [] [] e h = refl
ids_of-get_elem? [] (y ∷ ys) e h = absurd (omega arith)
ids_of-get_elem? (x ∷ xs) [] e h = absurd (omega arith)
ids_of-get_elem? (x ∷ xs) (y ∷ ys) e h =
    let rest = ids_of-get_elem? xs ys (omega arith) (λ k. h (suc k)) in
    let (y', f, same) = h 0 x refl in
    let here : x.id ≡ y.id = cc in ap (λ (t : ℕ). t ∷ ids_of xs) here ∙ ap (λ t. y.id ∷ t) rest

locate-ids_of :
    (q p : ℕ) (xs ys : List ObjectService) → ids_of xs ≡ ids_of ys → locate q p xs ≡ locate q p ys
locate-ids_of q p [] [] e = refl
locate-ids_of q p [] (y ∷ ys) e = absurd cc
locate-ids_of q p (x ∷ xs) [] e = absurd cc
locate-ids_of q p (x ∷ xs) (y ∷ ys) e =
    let here : x.id ≡ y.id = cc in
    let rest : ids_of xs ≡ ids_of ys = cc in
    ground (arith, here, locate-ids_of q (p + 1) xs ys rest)

ids_of-append :
    (xs ys : List ObjectService) (x y : ObjectService)
    → ids_of xs ≡ ids_of ys
    → x.id ≡ y.id
    → ids_of (xs ++ x ∷ []) ≡ ids_of (ys ++ y ∷ [])
ids_of-append [] [] x y e f = ap (λ t. t ∷ []) f
ids_of-append [] (y' ∷ ys) x y e f = absurd cc
ids_of-append (x' ∷ xs) [] x y e f = absurd cc
ids_of-append (x' ∷ xs) (y' ∷ ys) x y e f =
    let here : x'.id ≡ y'.id = cc in
    let rest : ids_of xs ≡ ids_of ys = cc in
    ap (λ (t : ℕ). t ∷ ids_of (xs ++ x ∷ [])) here
    ∙ ap (λ t. y'.id ∷ t) (ids_of-append xs ys x y rest f)

pub IsUnique-ids_of :
    (before before' xs ys : List ObjectService)
    → ids_of before ≡ ids_of before'
    → ids_of xs ≡ ids_of ys
    → IsUnique before' ys
    → IsUnique before xs
IsUnique-ids_of before before' [] ys e f h = tt
IsUnique-ids_of before before' (x ∷ xs) [] e f h = absurd cc
IsUnique-ids_of before before' (x ∷ xs) (y ∷ ys) e f h =
    let here : x.id ≡ y.id = cc in
    let rest : ids_of xs ≡ ids_of ys = cc in
    (
      ap (λ t. locate t 0 before) here ∙ locate-ids_of y.id 0 before before' e ∙ h.0,
      IsUnique-ids_of (before ++ x ∷ []) (before' ++ y ∷ []) xs ys
          (ids_of-append before before' x y e here) rest h.1,
    )
