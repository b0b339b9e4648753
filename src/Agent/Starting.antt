-- ===== src/Agent/Starting.antt =====
-- The start of an object service, `initClusterMapObjectService` of
-- libs/cluster/ClusterMapObjectService.c: it reads its map from its own file, or fetches it from the
-- monitor and writes that file. What `initClient` and `sendRequest` return, the response that comes
-- and whether the file can be written are arguments; a file that can not be written stops the service,
-- as a write through a pointer that is not set does.
use muti.Common.{
  ℕ, ◌≡◌, ◌<◌, refl, length, Option, none, some, Bool, true, ◌⊎◌, inl, inr, >>=-eq-ok,
  Outcome-cases, Option-cases, false, Outcome, ok, failed, aborted, ◌>>=◌, ltb, ◌==◌, if◌then◌else◌,
  arith,
}
use muti.Wire.{Bytes}
use muti.ClusterMap.{ObjectServiceMap, ObjectServiceStatus, ready_to_join}
use muti.ClusterMap.Codec.{
  cluster_map_dump_object_service_map, cluster_map_dump_object_service_map_length,
  cluster_map_parse_object_service_map,
}
use muti.Messages.{latest_map, ClusterResponse}

-- What a start leaves: what the function returns, `os_map` and the count of its references, none
-- where these are not set, `req_status`, whether the keep-alive worker was added, and the file.
pub record Started : Type 0 where
  pub rc : Bool
  pub os_map : Option ObjectServiceMap
  pub reference : Option ℕ
  pub req_status : Option ObjectServiceStatus
  pub keeps_alive : Bool
  pub file : Option Bytes

-- `clusterMapFetchOSMapCallback`: what it leaves in `rc` of its argument, and the map if it sets one.
-- `is_null` says whether `os_map` is a null pointer.
unfoldable pub fetch_callback : Bool → ClusterResponse → Outcome (Option ObjectServiceMap)
fetch_callback is_null resp =
    if resp.header.error_id == 0
    then elim resp.body [ latest_map m ↦ if is_null then ok (some m) else aborted | _ ↦ aborted ]
    else ok none

-- `clusterMapFetchOSMapFromMon`: the map and its file, or none where it returns false.
unfoldable pub fetch_from_mon :
    Bool → Bool → ClusterResponse → Bool → Outcome (Option (ObjectServiceMap × Bytes))
unfolding fetch_callback
fetch_from_mon is_null sends resp writes =
    let called_back = (do
      fetched ← fetch_callback is_null resp
      elim fetched [
        | none ↦ ok none
        | some m ↦ do
          buffer ←
              cluster_map_dump_object_service_map m (cluster_map_dump_object_service_map_length m)
          if writes then ok (some (m, buffer)) else aborted
      ]) in
    if sends then called_back else ok none

-- The end of the function, where the map is set.
abbrev pub ready : ObjectServiceMap → Bytes → Started
ready m file = record {
  rc = true;
  os_map = some m;
  reference = some 1;
  req_status = some ready_to_join;
  keeps_alive = true;
  file = some file;
}

-- A return before that.
abbrev pub returned : Bool → Option ObjectServiceMap → Option Bytes → Started
returned rc m file = record {
  rc = rc;
  os_map = m;
  reference = none;
  req_status = none;
  keeps_alive = false;
  file = file;
}

-- The map is fetched since there is no file: where this fails, the code goes on and sets the reference
-- of a map that is not there.
unfoldable pub start_without_file : Bool → Bool → ClusterResponse → Bool → Outcome Started
unfolding fetch_from_mon
start_without_file is_null sends resp writes = do
  fetched ← fetch_from_mon is_null sends resp writes
  elim fetched [ none ↦ aborted | some (m, file) ↦ ok (ready m file) ]

-- The return with what was fetched, at a file that did not parse.
abbrev fetched_again : Bytes → Option (ObjectServiceMap × Bytes) → Started
fetched_again buffer none = returned false none (some buffer)
fetched_again buffer (some (m, file)) = returned true (some m) (some file)

-- The map is fetched since its file did not parse. The parser has freed the map already: behind the
-- header of 14 bytes it has bsets, which are now freed again.
unfoldable pub start_again : Bytes → Bool → ClusterResponse → Bool → Outcome Started
unfolding fetch_from_mon
start_again buffer sends resp writes =
    let fetched_then = (do
      fetched ← fetch_from_mon true sends resp writes
      ok (fetched_again buffer fetched)) in
    if ltb (length buffer) 14 then fetched_then else aborted

-- `initClusterMapObjectService`; `is_null` says whether malloc left a null pointer in `os_map`.
unfoldable pub init_cluster_map_object_service :
    Bool → Bool → Option Bytes → Bool → ClusterResponse → Bool → Outcome Started
unfolding start_without_file start_again
init_cluster_map_object_service is_null connects file sends resp writes =
    let from_file : Outcome Started = elim file [
      | none ↦ start_without_file is_null sends resp writes
      | some buffer ↦ elim (cluster_map_parse_object_service_map buffer) [
        | ok (m, rest) ↦ ok (ready m buffer)
        | failed ↦ start_again buffer sends resp writes
        | aborted ↦ aborted
      ]
    ] in
    if connects then from_file else ok (returned false none file)

-- A start that is ready, with whatever map and file.
abbrev IsReady : Started → Type 0
IsReady s = (m : ObjectServiceMap) × (bin : Bytes) × (s ≡ ready m bin)

start_without_file-IsReady :
    (is_null sends writes : Bool) (resp : ClusterResponse) (s : Started)
    → start_without_file is_null sends resp writes ≡ ok s
    → IsReady s
unfolding start_without_file
start_without_file-IsReady is_null sends writes resp s e =
    let (fetched, run, r) = >>=-eq-ok (fetch_from_mon is_null sends resp writes) _ e in
    elim (Option-cases fetched) [
      | inl missing ↦ absurd (ground (arith, missing, r))
      | inr ((m, bin), there) ↦ (m, bin, ground (arith, there, r))
    ]

fetched_again-keeps_alive :
    (buffer : Bytes) (fetched : Option (ObjectServiceMap × Bytes))
    → (fetched_again buffer fetched).keeps_alive ≡ false
fetched_again-keeps_alive buffer none = refl
fetched_again-keeps_alive buffer (some fetched) = refl

start_again-cut_off :
    (buffer : Bytes) (sends writes : Bool) (resp : ClusterResponse) (s : Started)
    → start_again buffer sends resp writes ≡ ok s
    → (s.keeps_alive ≡ false) × (length buffer < 14)
unfolding start_again
start_again-cut_off buffer sends writes resp s e =
    elim (Outcome-cases (fetch_from_mon true sends resp writes)) [
      | inl (fetched, run) ↦
          (ground (arith, e, run, fetched_again-keeps_alive buffer fetched), ground (arith, e))
      | inr (inl run) ↦ absurd (ground (arith, e, run))
      | inr (inr run) ↦ absurd (ground (arith, e, run))
    ]

-- Whatever malloc left, the client and the monitor do: a start that returns has set up everything for
-- the map that it has, or it has not added the keep-alive; that is where the client did not start, or
-- the service's file is cut off inside of its header.
pub complete_or_cut_off :
    (is_null connects sends writes : Bool) (file : Option Bytes) (resp : ClusterResponse)
    (s : Started)
    → init_cluster_map_object_service is_null connects file sends resp writes ≡ ok s
    → IsReady s
      ⊎ ((s.keeps_alive ≡ false)
          × ((connects ≡ false) ⊎ ((bin : Bytes) × (file ≡ some bin) × (length bin < 14))))
unfolding init_cluster_map_object_service
complete_or_cut_off is_null false sends writes file resp s e = inr (ground (arith, e), inl refl)
complete_or_cut_off is_null true sends writes none resp s e =
    inl (start_without_file-IsReady is_null sends writes resp s e)
complete_or_cut_off is_null true sends writes (some buffer) resp s e =
    elim (Outcome-cases (cluster_map_parse_object_service_map buffer)) [
      | inl ((m, rest), run) ↦ inl (m, buffer, ground (arith, e, run))
      | inr (inl run) ↦
          let again : start_again buffer sends resp writes ≡ ok s = ground (arith, e, run) in
          let (off, short) = start_again-cut_off buffer sends writes resp s again in
          inr (off, inr (buffer, refl, short))
      | inr (inr run) ↦ absurd (ground (arith, e, run))
    ]
