-- ===== src/Tests/Sharing.antt =====
-- Two threads and the owner of a shared map.
use muti.Common.{◌+◌, ◌<◌, ◌≡◌, ◌⊎◌, refl, true, false, arith}
use muti.ClusterMap.Shared.{
  Shared, made, got, put, destroyed, Reach, start, more, get_map, put_map, owner_keeps,
  released_last,
}

abbrev two_holders : Shared
two_holders = record {
  os_map = true;
  reference = 3;
  freed = false;
  holders = 2;
  owner = true;
  late = 0;
}

two_holders_run : Reach two_holders
unfolding get_map
two_holders_run = more (more start (got made)) (got _)

owner_keeps_example :
    (two_holders.freed ≡ false)
    × (two_holders.os_map ≡ true)
    × (two_holders.reference ≡ 1 + two_holders.holders)
owner_keeps_example = owner_keeps two_holders_run refl

abbrev one_left : Shared
one_left = record {
  os_map = true;
  reference = 1;
  freed = false;
  holders = 1;
  owner = false;
  late = 0;
}

one_left_run : Reach one_left
unfolding put_map
one_left_run = more (more two_holders_run (put two_holders (omega arith))) (destroyed _ refl)

released_last_example :
    ((one_left.freed ≡ true) × (one_left.holders ≡ 0))
    ⊎ ((one_left.freed ≡ false) × (0 < one_left.holders) × (one_left.reference ≡ one_left.holders))
released_last_example = released_last one_left_run refl refl

-- The gap in the put: a thread gets the map after the last put freed it and before the pointer is
-- reset, and has a freed map.
abbrev late_holder : Shared
late_holder = record {
  os_map = true;
  reference = 1;
  freed = true;
  holders = 1;
  owner = false;
  late = 1;
}

late_holder_run : Reach late_holder
unfolding put_map get_map
late_holder_run = more (more one_left_run (put one_left (omega arith))) (got _)
