-- ===== src/Tests/Starts.antt =====
-- The monitor starts from a configuration with two services.
use muti.Common.{
  ℕ, zero, suc, ◌+◌, ◌-◌, ◌*◌, ◌≡◌, ◌<◌, ap, subst, refl, List, [], ◌∷◌, map, length, get_elem?,
  true, Bool, Option, none, some, ok, arith,
}
use muti.HashMap.{Map}
use muti.Wire.{Bytes}
use muti.ClusterMap.{ObjectService, ServiceRef, ObjectServiceMap, normal}
use muti.ClusterMap.Index.{Indexes}
use muti.InitialMap.Config.{ConfigKey, ConfigLibrary, init_cluster_map_mon}
use muti.InitialMap.Described.{ServiceConfig, service_of, HasService, Describes}
use muti.InitialMap.Kept.{IsService}
use muti.InitialMap.Start.{IsConfig, restart_keeps_map}

-- The items of a text with six bsets of three replicas: the whole, the array, its services, strings.
data Item : Type 0 where
  whole : Item
  services : Item
  service : ℕ → Item
  text : Bytes → Item

-- The digits of a number in its order.
digits_from : ℕ → Bytes → ℕ
digits_from n [] = n
digits_from n (d ∷ ds) = digits_from (n * 10 + (d - 48)) ds

scan : Bytes → Option ℕ
unfolding digits_from
scan [] = none
scan (d ∷ ds) = some (digits_from 0 (d ∷ ds))

item_of : Option Item → ConfigKey → Option Item
item_of (some whole) ConfigKey.bset_length = some (text (b'6' ∷ []))
item_of (some whole) ConfigKey.bset_replica_size = some (text (b'3' ∷ []))
item_of (some whole) ConfigKey.object_services = some services
item_of (some (service n)) ConfigKey.id = some (text ((n + 55) ∷ []))
item_of (some (service n)) ConfigKey.host = some (text (b'h' ∷ []))
item_of (some (service n)) ConfigKey.port = some (text (b'8' ∷ b'0' ∷ []))
item_of object key = none

size_of : ℕ → Option Item → ℕ
size_of n (some services) = n
size_of n array = 0

string_of : Item → Option Bytes
string_of (text s) = some s
string_of item = none

-- `n` is the number of services.
library : ℕ → ConfigLibrary Item
unfolding scan item_of size_of string_of
library n = record {
  parse = λ buffer. some whole;
  get_object_item = item_of;
  get_array_size = size_of n;
  get_array_item = λ array k. some (service k);
  valuestring = string_of;
  scan_u32 = scan;
  scan_u16 = scan;
}

abbrev two : List ServiceConfig
two =
    record { id = 7; host = b'h' ∷ []; port = 80 }
    ∷ record { id = 8; host = b'h' ∷ []; port = 80 }
    ∷ []

described_service :
    (n k : ℕ)
    → k < 3
    → HasService (library n) (some (service k)) (record { id = k + 7; host = b'h' ∷ []; port = 80 })
unfolding library scan item_of string_of digits_from
described_service n k lt = record {
  id = record {
    item = text ((k + 55) ∷ []);
    text = (k + 55) ∷ [];
    found = refl;
    is_string = refl;
    scanned = ap some (omega arith);
  };
  port = record {
    item = text (b'8' ∷ b'0' ∷ []);
    text = b'8' ∷ b'0' ∷ [];
    found = refl;
    is_string = refl;
    scanned = refl;
  };
  host_item = text (b'h' ∷ []);
  host_found = refl;
  host = refl;
}

described : Describes (library 2) [] 6 3 two
unfolding library scan item_of size_of string_of digits_from
described = record {
  root = whole;
  parsed = refl;
  bsets = record {
    item = text (b'6' ∷ []);
    text = b'6' ∷ [];
    found = refl;
    is_string = refl;
    scanned = refl;
  };
  replica = record {
    item = text (b'3' ∷ []);
    text = b'3' ∷ [];
    found = refl;
    is_string = refl;
    scanned = refl;
  };
  array = some services;
  found = refl;
  size = refl;
  each = each;
}
  where
    each :
        (k : ℕ) (s : ServiceConfig)
        → get_elem? two k ≡ some s
        → HasService (library 2) (some (service k)) s
    each zero s e =
        let same : record { id = 7; host = b'h' ∷ []; port = 80 } ≡ s = cc in
        subst (HasService (library 2) (some (service 0))) same (described_service 2 0 (omega arith))
    each (suc zero) s e =
        let same : record { id = 8; host = b'h' ∷ []; port = 80 } ≡ s = cc in
        subst (HasService (library 2) (some (service 1))) same (described_service 2 1 (omega arith))
    each (suc (suc k)) s e = absurd cc

two-IsConfig : IsConfig 0 3 6 3 two
two-IsConfig = record {
  some_service = omega arith;
  some_share = omega arith;
  even = refl;
  fits = omega arith;
  replica = omega arith;
  service_length = omega arith;
  valid = (
    record { id = omega arith; host = (omega arith, omega arith); port = omega arith },
    (record { id = omega arith; host = (omega arith, omega arith); port = omega arith }, tt),
  );
  unique = (refl, (refl, tt));
}

restart_keeps_map_example :
    (m : ObjectServiceMap) × (bin : Bytes) × (os_map : Map ServiceRef) × (init_cluster_map_mon
        (library 2)
        0
        77
        none
        (some [])
        true
      ≡ ok (m, bin))
    × ((k : ℕ) (os : ObjectService)
        → get_elem? m.object_service_list k ≡ some os
        → (s : ObjectService) × (get_elem? (map (service_of 0) two) k ≡ some s) × IsService 6 s os)
    × (length m.object_service_list ≡ 2)
    × ((init : Option Bytes) (writes : Bool)
        → init_cluster_map_mon (library 2) 0 77 (some bin) init writes
          ≡ ok (record m { status = normal; os_map = os_map }, bin))
    × Indexes os_map m.object_service_list
restart_keeps_map_example =
    restart_keeps_map (library 2) 0 77 [] 3 6 3 two (omega arith) described two-IsConfig

empty_described : Describes (library 0) [] 6 3 []
unfolding library scan item_of size_of string_of digits_from
empty_described = record {
  root = whole;
  parsed = refl;
  bsets = record {
    item = text (b'6' ∷ []);
    text = b'6' ∷ [];
    found = refl;
    is_string = refl;
    scanned = refl;
  };
  replica = record {
    item = text (b'3' ∷ []);
    text = b'3' ∷ [];
    found = refl;
    is_string = refl;
    scanned = refl;
  };
  array = some services;
  found = refl;
  size = refl;
  each = λ k s e. absurd cc;
}
