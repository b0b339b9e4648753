-- ===== src/Tests/HashMaps.antt =====
-- The theorems about the hash map, at the parameters of the object service map with two slots.
use muti.Common.{◌≡◌, refl, none, some, [], ◌∷◌, ok, arith}
use muti.HashMap.{Map, put, remove, init_map_hash_linked}
use muti.HashMap.Laws.{IsValid, view, Replaces, put-Replaces, remove-Replaces}
use muti.HashMap.Whole.{init_map_hash_linked-IsValid}
use muti.ClusterMap.{ServiceRef, os_param}
use muti.ClusterMap.Index.{os_law}

abbrev empty : Map ServiceRef
empty = record { slots = [] ∷ [] ∷ []; size = 0 }

abbrev ref : ServiceRef
ref = record { id = 7; place = 0 }

made : init_map_hash_linked (os_param 2) ≡ ok empty
unfolding init_map_hash_linked
made = refl

empty-IsValid : IsValid (os_param 2) (os_law 2) empty
empty-IsValid =
    (init_map_hash_linked-IsValid (os_param 2) (os_law 2) empty (omega arith) (omega arith) made).0

put-Replaces_example :
    (m' : Map ServiceRef) × (put (os_param 2) empty 7 ref
      ≡ ok (view (os_param 2) (os_law 2) empty 7, m'))
    × Replaces (os_param 2) (os_law 2) empty 7 (some ref) m'
put-Replaces_example = put-Replaces (os_param 2) (os_law 2) empty-IsValid 7 ref refl

abbrev filled : Map ServiceRef
filled = (put-Replaces (os_param 2) (os_law 2) empty-IsValid 7 ref refl).0

filled-IsValid : IsValid (os_param 2) (os_law 2) filled
filled-IsValid = (put-Replaces (os_param 2) (os_law 2) empty-IsValid 7 ref refl).2.valid

remove-Replaces_example :
    (m' : Map ServiceRef) × (remove (os_param 2) filled 7
      ≡ ok (view (os_param 2) (os_law 2) filled 7, m'))
    × Replaces (os_param 2) (os_law 2) filled 7 none m'
remove-Replaces_example = remove-Replaces (os_param 2) (os_law 2) filled-IsValid 7
