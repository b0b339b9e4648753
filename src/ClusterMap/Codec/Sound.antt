-- ===== src/ClusterMap/Codec/Sound.antt =====
-- What the parser accepts: the bytes of a well-formed object service map, and nothing else.
pub mod Parts
use muti.Common.{
  ℕ, zero, suc, ◌+◌, ◌%◌, ◌^◌, ◌≤◌, ◌≡◌, refl, sym, ap, ◌∙◌, subst, List, [], ◌∷◌, ◌++◌,
  append_assoc, append-nil, none, ok, >>=-eq-ok, Option-cases, inl, inr, ◌⊎◌, All, length,
  length-append, arith,
}
use muti.HashMap.{Map}
use muti.Wire.{
  Bytes, IsByte, sign_extend8, read_u8, read_u16, read_u32, read_bytes, read_words, u16_bytes,
  u32_bytes, words_bytes,
}
use muti.Wire.Laws.{
  Took, joined, read_u8-Took, read_u16-Took, read_u32-Took, read_bytes-Took, read_words-Took,
  sign_extend8_mod,
}
use muti.ClusterMap.{
  ObjectService, BSet, ObjectServiceMap, normal, ServiceRef, cluster_map_init_os_map,
}
use muti.ClusterMap.Index.{
  Indexes, locate, init_os_map-Indexes, init_os_map-le, put_service-Indexes, put_service_duplicate,
}
use muti.ClusterMap.Codec.{
  parse_bset, parse_bsets, parse_service, put_service, parse_services,
  cluster_map_parse_object_service_map,
}
use muti.ClusterMap.Codec.Encoding.{
  bset_bytes, bsets_bytes, service_bytes, services_bytes, map_bytes, IsBSet, IsObjectService,
  IsUnique, IsWellFormed,
}
use muti.ClusterMap.Codec.Sound.Parts.{parse_bset-Took, parse_bsets-Took, parse_service-Took}

-- What the loop over the services has checked when it returns.
record Accepted (before : List ObjectService) (n : ℕ) (buf : Bytes) (services : List ObjectService)
    (m : Map ServiceRef) (rest : Bytes) : Type 0 where
  count : length services ≡ n
  each : All IsObjectService services
  unique : IsUnique before services
  index : Indexes m (before ++ services)
  took : Took services_bytes buf services rest

put_service_inv :
    (m : Map ServiceRef) (before : List ObjectService) (os : ObjectService) (m' : Map ServiceRef)
    → Indexes m before
    → put_service m os (length before) ≡ ok m'
    → (locate os.id 0 before ≡ none) × Indexes m' (before ++ os ∷ [])
put_service_inv m before os m' index run = elim (Option-cases (locate os.id 0 before)) [
  | inl new ↦
      let (made, made_run, made_index) = put_service-Indexes m before os index new in
      let same : made ≡ m' = cc (made_run, run) in
      (new, subst (λ t. Indexes t (before ++ os ∷ [])) same made_index)
  | inr (r, there) ↦
      let stop = put_service_duplicate m before os r index there in absurd (cc (stop, run))
]

parse_services-Accepted :
    (n : ℕ) (before : List ObjectService) (m : Map ServiceRef) (buf : Bytes)
    (services : List ObjectService) (m' : Map ServiceRef) (rest : Bytes)
    → All IsByte buf
    → Indexes m before
    → parse_services n (length before) m buf ≡ ok ((services, m'), rest)
    → Accepted before n buf services m' rest
unfolding parse_services services_bytes
parse_services-Accepted zero before m buf services m' rest h index e =
    let none_read : [] ≡ services = ground arith in
    let end : buf ≡ rest = ground arith in
    let kept : m ≡ m' = ground arith in
    subst (λ s. Accepted before 0 buf s m' rest) none_read
      record {
        count = refl;
        each = tt;
        unique = tt;
        index = rw append-nil (subst (λ t. Indexes t before) kept index);
        took = record { split = end; left = subst (All IsByte) end h };
      }
parse_services-Accepted (suc n) before m buf services m' rest h index e =
    let ((os, buf₁), run₁, e₁) = >>=-eq-ok (parse_service buf) _ e in
    let (os_ok, t₁) = parse_service-Took buf os buf₁ h run₁ in
    let (m₁, run₂, e₂) = >>=-eq-ok (put_service m os (length before)) _ e₁ in
    let (new, index₁) = put_service_inv m before os m₁ index run₂ in
    let (((others, m₂), buf₂), run₃, e₃) =
      >>=-eq-ok (parse_services n (length before + 1) m₁ buf₁) _ e₂ in
    let next : length before + 1 ≡ length (before ++ os ∷ []) =
      sym (length-append before (os ∷ [])) in
    let run₃' = subst (λ k. parse_services n k m₁ buf₁ ≡ ok ((others, m₂), buf₂)) next run₃ in
    let a =
      parse_services-Accepted n (before ++ os ∷ []) m₁ buf₁ others m₂ buf₂ t₁.left index₁ run₃' in
    let whole : os ∷ others ≡ services = ground arith in
    let end : buf₂ ≡ rest = ground arith in
    let kept : m₂ ≡ m' = ground arith in
    subst (λ s. Accepted before (suc n) buf s m' rest) whole
      record {
        count = ap suc a.count;
        each = (os_ok, a.each);
        unique = (new, a.unique);
        index = subst (λ t. Indexes t (before ++ os ∷ others)) kept (rw append_assoc at a.index);
        took = record {
          split =
              joined (service_bytes os) (services_bytes others) rest t₁.split
                (a.took.split ∙ ap (λ r. services_bytes others ++ r) end);
          left = subst (All IsByte) end a.took.left;
        };
      }

-- The same from the map that `clusterMapInitOSMap` makes, which has no slot for no service.
record Started (n : ℕ) (buf : Bytes) (services : List ObjectService) (m : Map ServiceRef)
    (rest : Bytes) : Type 0 where
  count : length services ≡ n
  each : All IsObjectService services
  unique : IsUnique [] services
  index : (n ≡ 0) ⊎ Indexes m services
  took : Took services_bytes buf services rest

parse_services-Started :
    (n : ℕ) (start : Map ServiceRef) (buf : Bytes) (services : List ObjectService)
    (m : Map ServiceRef) (rest : Bytes)
    → All IsByte buf
    → n ≤ 2 ^ 30
    → cluster_map_init_os_map n ≡ ok start
    → parse_services n 0 start buf ≡ ok ((services, m), rest)
    → Started n buf services m rest
unfolding parse_services services_bytes
parse_services-Started zero start buf services m rest h few made e =
    let none_read : [] ≡ services = ground arith in
    let end : buf ≡ rest = ground arith in
    subst (λ s. Started 0 buf s m rest) none_read
      record {
        count = refl;
        each = tt;
        unique = tt;
        index = inl refl;
        took = record { split = end; left = subst (All IsByte) end h };
      }
parse_services-Started (suc n) start buf services m rest h few made e =
    let (first, first_run, index) = init_os_map-Indexes (suc n) few in
    let same : first ≡ start = cc (first_run, made) in
    let start_index : Indexes start [] = subst (λ t. Indexes t []) same (index (omega arith)) in
    let a = parse_services-Accepted (suc n) [] start buf services m rest h start_index e in
    record { count = a.count; each = a.each; unique = a.unique; index = inr a.index; took = a.took }

map_split :
    (m : ObjectServiceMap) (rest : Bytes) {buf buf₁ buf₂ buf₃ buf₄ buf₅ : Bytes}
    → buf ≡ u32_bytes m.version ++ buf₁
    → buf₁ ≡ u32_bytes m.bset_length ++ buf₂
    → buf₂ ≡ u16_bytes m.bset_replica_size ++ buf₃
    → buf₃ ≡ u32_bytes m.object_service_length ++ buf₄
    → buf₄ ≡ bsets_bytes m.bset ++ buf₅
    → buf₅ ≡ services_bytes m.object_service_list ++ rest
    → buf ≡ map_bytes m ++ rest
unfolding map_bytes
map_split m rest e₁ e₂ e₃ e₄ e₅ e₆ = joined (u32_bytes m.version) _ rest e₁ (
    joined (u32_bytes m.bset_length) _ rest e₂ (
      joined (u16_bytes m.bset_replica_size) _ rest e₃ (
        joined (u32_bytes m.object_service_length) _ rest e₄
          (joined (bsets_bytes m.bset) (services_bytes m.object_service_list) rest e₅ e₆))))

abbrev Sound : Bytes → Bytes → ObjectServiceMap → Type 0
Sound buf rest m =
    IsWellFormed m
    × (m.status ≡ normal)
    × (buf ≡ map_bytes m ++ rest)
    × ((m.object_service_length ≡ 0) ⊎ Indexes m.os_map m.object_service_list)

-- If the parser succeeds on a buffer of bytes, the map that it returns is well-formed, with normal
-- status; what it took off the buffer is the bytes of that map; and the map has no service, or its
-- `os_map` is an index of its services.
pub cluster_map_parse_sound :
    (buf : Bytes) (m : ObjectServiceMap) (rest : Bytes)
    → All IsByte buf
    → cluster_map_parse_object_service_map buf ≡ ok (m, rest)
    → IsWellFormed m
      × (m.status ≡ normal)
      × (buf ≡ map_bytes m ++ rest)
      × ((m.object_service_length ≡ 0) ⊎ Indexes m.os_map m.object_service_list)
unfolding cluster_map_parse_object_service_map
cluster_map_parse_sound buf m rest h e =
    let ((version, buf₁), run₁, e₁) = >>=-eq-ok (read_u32 buf) _ e in
    let (version_ok, t₁) = read_u32-Took buf version buf₁ h run₁ in
    let ((bset_length, buf₂), run₂, e₂) = >>=-eq-ok (read_u32 buf₁) _ e₁ in
    let (bset_length_ok, t₂) = read_u32-Took buf₁ bset_length buf₂ t₁.left run₂ in
    let ((replica, buf₃), run₃, e₃) = >>=-eq-ok (read_u16 buf₂) _ e₂ in
    let (replica_ok, t₃) = read_u16-Took buf₂ replica buf₃ t₂.left run₃ in
    let ((count, buf₄), run₄, e₄) = >>=-eq-ok (read_u32 buf₃) _ e₃ in
    let (count_ok, t₄) = read_u32-Took buf₃ count buf₄ t₃.left run₄ in
    let (start, run₅, e₅) = >>=-eq-ok (cluster_map_init_os_map count) _ e₄ in
    let few = init_os_map-le count start run₅ in
    let ((bsets, buf₅), run₆, e₆) = >>=-eq-ok (parse_bsets replica bset_length buf₄) _ e₅ in
    let (bset_count, bsets_ok, t₅) =
      parse_bsets-Took replica bset_length buf₄ bsets buf₅ t₄.left run₆ in
    let (((services, os_map), buf₆), run₇, e₇) =
      >>=-eq-ok (parse_services count 0 start buf₅) _ e₆ in
    let s = parse_services-Started count start buf₅ services os_map buf₆ t₅.left few run₅ run₇ in
    let read : ObjectServiceMap = record {
      version = version;
      status = normal;
      object_service_length = count;
      object_service_list = services;
      os_map = os_map;
      bset_length = bset_length;
      bset = bsets;
      bset_replica_size = replica;
    } in
    let same : read ≡ m = ground arith in
    let end : buf₆ ≡ rest = ground arith in
    subst (Sound buf rest) same (
      record {
        version = version_ok;
        replica = replica_ok;
        bset_length = bset_length_ok;
        bset_count = bset_count;
        bsets = bsets_ok;
        service_length = few;
        service_count = s.count;
        services = s.each;
        unique = s.unique;
      },
      refl,
      map_split read rest t₁.split t₂.split t₃.split t₄.split t₅.split
          (s.took.split ∙ ap (λ r. services_bytes services ++ r) end),
      s.index,
    )
