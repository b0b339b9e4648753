-- ===== src/InitialMap/Described.antt =====
-- A configuration that describes a cluster, and what the loop over its services makes of it.
use muti.Common.{
  ℕ, suc, ◌+◌, ◌-◌, ◌≤◌, ◌≡◌, refl, sym, ap, subst, ◌∙◌, List, [], ◌∷◌, ◌++◌, map, length,
  replicate, append_assoc, append-nil, >>=-eq-ok, length-append, get_elem?, All, Option, none, some,
  ok, arith,
}
use muti.HashMap.{Map, put}
use muti.Wire.{Bytes, IsByte}
use muti.ClusterMap.{ObjectService, ServiceRef, to_int, offline, network_host_len, param_of}
use muti.ClusterMap.Codec.{put_service}
use muti.ClusterMap.Codec.Encoding.{IsU32, IsUnique}
use muti.ClusterMap.Index.{Indexes, locate, put_service-Indexes}
use muti.InitialMap.Config.{
  ConfigKey, ConfigLibrary, string_of, scan_item, copy_host, put_new_service, parse_config_service,
  parse_config_services, required,
}

-- What the configuration says of a service.
pub record ServiceConfig : Type 0 where
  pub id : ℕ
  pub host : Bytes
  pub port : ℕ

module _ (junk_byte : ℕ) where
  -- The service before it has bsets.
  abbrev pub service_of : ServiceConfig → ObjectService
  service_of s = record {
    id = s.id;
    status = to_int offline;
    host = s.host ++ 0 ∷ replicate (network_host_len - length s.host) junk_byte;
    port = s.port;
    bset_length = 0;
    bset_ids = [];
  }

-- The numbers and the host fit their fields.
pub record IsServiceConfig (s : ServiceConfig) : Type 0 where
  pub id : IsU32 s.id
  pub host : (length s.host ≤ network_host_len) × All IsByte s.host
  pub port : IsU32 s.port

-- Where `put_service` returns, the id was new.
put_new_service-ok :
    (m m' : Map ServiceRef) (os : ObjectService) (place : ℕ)
    → put_service m os place ≡ ok m'
    → put_new_service m os place ≡ ok m'
unfolding put_service put_new_service
put_new_service-ok m m' os place e =
    let (x, run, e₁) =
      >>=-eq-ok (put (param_of m) m os.id (record { id = os.id; place = place })) _ e in
    ground (arith, run, e₁)

put_new_service-Indexes :
    (m : Map ServiceRef) (services : List ObjectService) (os : ObjectService)
    → Indexes m services
    → locate os.id 0 services ≡ none
    → (m' : Map ServiceRef) × (put_new_service m os (length services) ≡ ok m')
      × Indexes m' (services ++ os ∷ [])
put_new_service-Indexes m services os index new =
    let (m', run, index') = put_service-Indexes m services os index new in
    (m', put_new_service-ok m m' os (length services) run, index')

module _ {J : Type 0} (lib : ConfigLibrary J) where
  -- An item is a string, from which a number is read.
  pub record HasNumber (object : Option J) (key : ConfigKey) (scan : Bytes → Option ℕ) (v : ℕ)
      : Type 0 where
    pub item : J
    pub text : Bytes
    pub found : lib.get_object_item object key ≡ some item
    pub is_string : lib.valuestring item ≡ some text
    pub scanned : scan text ≡ some v

  pub record HasService (object : Option J) (s : ServiceConfig) : Type 0 where
    pub id : HasNumber object ConfigKey.id lib.scan_u32 s.id
    pub port : HasNumber object ConfigKey.port lib.scan_u32 s.port
    pub host_item : J
    pub host_found : lib.get_object_item object ConfigKey.host ≡ some host_item
    pub host : lib.valuestring host_item ≡ some s.host

  -- The text of a configuration with these numbers and services, as cJSON and `sscanf` read it.
  pub record Describes (buffer : Bytes) (bset_length replicas : ℕ) (services : List ServiceConfig)
      : Type 0 where
    pub root : J
    pub parsed : lib.parse buffer ≡ some root
    pub bsets : HasNumber (some root) ConfigKey.bset_length lib.scan_u32 bset_length
    pub replica : HasNumber (some root) ConfigKey.bset_replica_size lib.scan_u16 replicas
    pub array : Option J
    pub found : lib.get_object_item (some root) ConfigKey.object_services ≡ array
    pub size : lib.get_array_size array ≡ length services
    pub each :
        (k : ℕ) (s : ServiceConfig)
        → get_elem? services k ≡ some s
        → HasService (lib.get_array_item array k) s

  pub scan_item-HasNumber :
      {object : Option J} {key : ConfigKey} {scan : Bytes → Option ℕ} {v : ℕ}
      (h : HasNumber object key scan v)
      → scan_item lib scan h.item ≡ ok v
  unfolding scan_item string_of required
  scan_item-HasNumber h = ground (arith, h.is_string, h.scanned)

  module _ (junk_byte : ℕ) where
    parse_service-HasService :
        (object : Option J) (s : ServiceConfig)
        → HasService object s
        → IsServiceConfig s
        → parse_config_service lib junk_byte object ≡ ok (service_of junk_byte s)
    unfolding parse_config_service string_of copy_host required
    parse_service-HasService object s h v = ground (
      arith,
      h.id.found,
      h.port.found,
      h.host_found,
      h.host,
      v.host.0,
      scan_item-HasNumber h.id,
      scan_item-HasNumber h.port,
    )

    pub parse_services-HasService :
        (array : Option J) (before : List ObjectService) (services : List ServiceConfig)
        (m : Map ServiceRef)
        → ((k : ℕ) (s : ServiceConfig)
            → get_elem? services k ≡ some s
            → HasService (lib.get_array_item array (length before + k)) s)
        → All IsServiceConfig services
        → IsUnique before (map (service_of junk_byte) services)
        → Indexes m before
        → (m' : Map ServiceRef) × (parse_config_services lib junk_byte
              (length services)
              (length before)
              m
              array
            ≡ ok (map (service_of junk_byte) services, m'))
          × Indexes m' (before ++ map (service_of junk_byte) services)
    unfolding parse_config_services
    parse_services-HasService array before [] m each valid unique index =
        (m, refl, subst (Indexes m) (sym (append-nil before)) index)
    parse_services-HasService array before (s ∷ services) m each valid unique index =
        let os = service_of junk_byte s in
        let read =
          parse_service-HasService (lib.get_array_item array (length before)) s
            (subst (λ t. HasService (lib.get_array_item array t) s) (omega arith) (each 0 s refl))
            valid.0 in
        let (m₁, run₁, index₁) = put_new_service-Indexes m before os index unique.0 in
        let longer : length (before ++ os ∷ []) ≡ length before + 1 =
          length-append before (os ∷ []) in
        let (m₂, run₂, index₂) =
          parse_services-HasService array (before ++ os ∷ []) services m₁
            (λ k s' e.
              subst (λ t. HasService (lib.get_array_item array t) s') (omega (arith, longer))
                (each (suc k) s' e))
            valid.1 unique.1 index₁ in
        let run₂' : parse_config_services lib junk_byte (length services) (length before + 1) m₁
              array
            ≡ ok (map (service_of junk_byte) services, m₂) =
          ap (λ t. parse_config_services lib junk_byte (length services) t m₁ array) (sym longer)
          ∙ run₂ in
        (
          m₂,
          rw (read, run₁, run₂') refl,
          subst (Indexes m₂) (append_assoc before (os ∷ []) (map (service_of junk_byte) services))
              index₂,
        )
