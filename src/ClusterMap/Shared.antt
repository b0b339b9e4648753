-- ===== src/ClusterMap/Shared.antt =====
-- The reference count of a shared map in libs/cluster/ClusterMap.c: `clusterMapGetObjectServiceMap`,
-- `clusterMapPutObjectServiceMap` and `clusterMapDestroy`, called by any number of threads.
-- A get is one step, since it runs under the read lock. A put is two: the count goes down in one, with
-- the release of the map if it was the last, and a later one takes the lock and resets the pointer.
-- The code marks this gap with a TODO.
use muti.Common.{ℕ, suc, ◌+◌, ◌-◌, ◌<◌, ◌≡◌, ◌⊎◌, Bool, true, false, ◌==◌, if◌then◌else◌, arith}

-- `os_map` of `ClusterMapPrivate` is set or null; `reference` is that of the map; `freed` says whether
-- `clusterMapFreeOSMap` was called on it. Besides: how many threads got the map and did not put it,
-- whether the owner, which made the map with one reference, has it, and how many gets came when the
-- map was freed.
pub record Shared : Type 0 where
  pub os_map : Bool
  pub reference : ℕ
  pub freed : Bool
  pub holders : ℕ
  pub owner : Bool
  pub late : ℕ

-- The map as its initialisation leaves it.
abbrev pub made : Shared
made = record { os_map = true; reference = 1; freed = false; holders = 0; owner = true; late = 0 }

-- `clusterMapGetObjectServiceMap`; it gives null when there is no map.
unfoldable pub get_map : Shared → Shared
get_map s =
    if s.os_map
    then record s {
      reference = s.reference + 1;
      holders = suc s.holders;
      late = if s.freed then suc s.late else s.late;
    }
    else s

-- The first step of `clusterMapPutObjectServiceMap`
unfoldable pub put_map : Shared → Shared
put_map s =
    let left = s.reference - 1 in
    record s { reference = left; freed = if left == 0 then true else s.freed }

-- Its second step, after the map was freed
unfoldable pub reset_map : Shared → Shared
reset_map s = record s { os_map = false }

pub data Step : Shared → Shared → Type 0 where
  got : (s : Shared) → Step s (get_map s)
  put : (s : Shared) → 0 < s.holders → Step s (put_map (record s { holders = s.holders - 1 }))
  destroyed : (s : Shared) → s.owner ≡ true → Step s (put_map (record s { owner = false }))
  reset : (s : Shared) → s.freed ≡ true → Step s (reset_map s)

pub data Reach : Shared → Type 0 where
  start : Reach made
  more : {s t : Shared} → Reach s → Step s t → Reach t

-- Whether the owner has it, as a number.
abbrev owned : Bool → ℕ
owned true = 1
owned false = 0

-- Without a late get: the count is the number of those who have the map, which is freed only when
-- nobody has it, and is there as long as it is not freed.
abbrev pub IsCounted : Shared → Type 0
IsCounted s =
    (0 < s.late)
    ⊎ ((s.reference ≡ owned s.owner + s.holders)
        × (((s.freed ≡ false) × (s.os_map ≡ true) × (0 < s.reference))
            ⊎ ((s.freed ≡ true) × (s.reference ≡ 0))))

got-IsCounted : (s : Shared) → IsCounted s → IsCounted (get_map s)
unfolding get_map
got-IsCounted s h = ground arith

put-IsCounted :
    (s : Shared)
    → 0 < s.holders
    → IsCounted s
    → IsCounted (put_map (record s { holders = s.holders - 1 }))
unfolding put_map
put-IsCounted s pos h = ground arith

destroyed-IsCounted :
    (s : Shared) → s.owner ≡ true → IsCounted s → IsCounted (put_map (record s { owner = false }))
unfolding put_map
destroyed-IsCounted s e h = ground arith

reset-IsCounted : (s : Shared) → s.freed ≡ true → IsCounted s → IsCounted (reset_map s)
unfolding reset_map
reset-IsCounted s e h = ground arith

Step-IsCounted : {s t : Shared} → Step s t → IsCounted s → IsCounted t
Step-IsCounted (got s) h = got-IsCounted s h
Step-IsCounted (put s pos) h = put-IsCounted s pos h
Step-IsCounted (destroyed s e) h = destroyed-IsCounted s e h
Step-IsCounted (reset s e) h = reset-IsCounted s e h

-- Nobody comes late while the owner has the map.
abbrev IsEarly : Shared → Type 0
IsEarly s = (s.owner ≡ false) ⊎ (s.late ≡ 0)

Step-IsEarly : {s t : Shared} → Step s t → IsCounted s → IsEarly s → IsEarly t
unfolding get_map put_map reset_map
Step-IsEarly (got s) h e = ground arith
Step-IsEarly (put s pos) h e = ground arith
Step-IsEarly (destroyed s o) h e = ground arith
Step-IsEarly (reset s o) h e = ground arith

reachable-IsCounted : {s : Shared} → Reach s → IsCounted s × IsEarly s
reachable-IsCounted start = ground arith
reachable-IsCounted (more r st) =
    let (counted, early) = reachable-IsCounted r in
    (Step-IsCounted st counted, Step-IsEarly st counted early)

-- In every run, as long as the owner has the map: the map is not freed, whoever asks for it gets it,
-- and its count is one for the owner and one for each thread that got it and did not put it.
pub owner_keeps :
    {s : Shared}
    → Reach s
    → s.owner ≡ true
    → (s.freed ≡ false) × (s.os_map ≡ true) × (s.reference ≡ 1 + s.holders)
owner_keeps r o = ground (arith, reachable-IsCounted r)

-- In every run in which no thread asked for the map after it was freed: once the owner has put the
-- map, either nobody has it and it is freed, or someone has it, it is not freed, and its count is the
-- number of those who have it.
pub released_last :
    {s : Shared}
    → Reach s
    → s.late ≡ 0
    → s.owner ≡ false
    → ((s.freed ≡ true) × (s.holders ≡ 0))
      ⊎ ((s.freed ≡ false) × (0 < s.holders) × (s.reference ≡ s.holders))
released_last r l o = ground (arith, reachable-IsCounted r)
