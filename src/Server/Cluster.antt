-- ===== src/Server/Cluster.antt =====
-- The decoders of the monitor, services/mon/server/cluster/ClusterHandler.c, as a request handler of
-- corecode/server/Server.c.
use muti.Common.{
  ℕ, zero, suc, subst, ap, ◌<◌, ◌≤◌, ◌≡◌, List, [], ◌∷◌, ◌++◌, length, Option, some, Outcome, ok,
  failed, aborted, ◌>>=◌, >>=-eq-ok, arith,
}
use muti.Wire.{Bytes, Reader, read_u16, read_u32}
use muti.Messages.{
  ClusterRequest, ClusterRequestId, read_request_header, read_plain, read_keep_alive,
  cluster_request_decoder, cluster_request_id, get_object_service_map_latest_version,
  get_latest_object_service_map, add_object_service, remove_object_service,
  keep_alive_object_service, keep_alive_client, get_object_service_map_change_log, cluster_status,
  stop,
}
use muti.Server.{decoder_of}
use muti.Server.Rounds.{IsStable, IsHandled}

-- The monitor's table of request handlers: the cluster resource is its only one.
unfoldable pub monitor_decoders : ℕ → Option (Reader ClusterRequest)
unfolding cluster_request_decoder
monitor_decoders request_id =
    some (λ buf. do id ← cluster_request_id request_id; cluster_request_decoder id buf)

abbrev pub monitor_request_handler : List (Option (ℕ → Option (Reader ClusterRequest)))
monitor_request_handler = some monitor_decoders ∷ []

-- A read that takes no more than there is, and does not look at what follows.
record IsTake {ℓ} {A : Type ℓ} (read : Reader A) : Type ℓ where
  further :
      (buf rest extra : Bytes) (a : A)
      → read buf ≡ ok (a, rest)
      → read (buf ++ extra) ≡ ok (a, rest ++ extra)
  no_longer : (buf rest : Bytes) (a : A) → read buf ≡ ok (a, rest) → length rest ≤ length buf

return-IsTake {ℓ} : {A : Type ℓ} (a : A) → IsTake {A = A} (λ buf. ok (a, buf))
return-IsTake a = record {
  further = λ buf rest extra b e. cc;
  no_longer = λ buf rest b e. ground (arith, e);
}

IsStable-IsTake {ℓ} : {A : Type ℓ} {read : Reader A} → IsStable read → IsTake read
IsStable-IsTake h = record {
  further = h.more;
  no_longer = λ buf rest a e. omega (arith, h.shorter buf rest a e);
}

>>=-IsStable {ℓ κ} :
    {A : Type ℓ} {B : Type κ} {first : Reader A} {next : A → Reader B}
    → IsStable first
    → ((a : A) → IsTake (next a))
    → IsStable (λ buf. first buf >>= λ (a, rest). next a rest)
>>=-IsStable {first = first} {next} h k = record {
  more = λ buf rest extra b e.
      let ((a, mid), run, step) = >>=-eq-ok (first buf) _ e in
      rw (h.more buf mid extra a run) ((k a).further mid rest extra b step);
  shorter = λ buf rest b e.
      let ((a, mid), run, step) = >>=-eq-ok (first buf) _ e in
      omega (arith, h.shorter buf mid a run, (k a).no_longer mid rest b step);
}

read_u16-IsStable : IsStable read_u16
unfolding read_u16
read_u16-IsStable = record { more = longer; shorter = less }
  where
    longer :
        (buf rest extra : Bytes) (a : ℕ)
        → read_u16 buf ≡ ok (a, rest)
        → read_u16 (buf ++ extra) ≡ ok (a, rest ++ extra)
    longer [] rest extra a e = absurd cc
    longer (b0 ∷ []) rest extra a e = absurd cc
    longer (b0 ∷ b1 ∷ buf) rest extra a e = cc

    less : (buf rest : Bytes) (a : ℕ) → read_u16 buf ≡ ok (a, rest) → length rest < length buf
    less [] rest a e = absurd cc
    less (b0 ∷ []) rest a e = absurd cc
    less (b0 ∷ b1 ∷ buf) rest a e = let same : buf ≡ rest = cc in rw⁻¹ same (omega arith)

read_u32-IsStable : IsStable read_u32
unfolding read_u32
read_u32-IsStable = record { more = longer; shorter = less }
  where
    longer :
        (buf rest extra : Bytes) (a : ℕ)
        → read_u32 buf ≡ ok (a, rest)
        → read_u32 (buf ++ extra) ≡ ok (a, rest ++ extra)
    longer (b0 ∷ b1 ∷ b2 ∷ b3 ∷ buf) rest extra a e = cc
    longer [] rest extra a e = absurd cc
    longer (b0 ∷ []) rest extra a e = absurd cc
    longer (b0 ∷ b1 ∷ []) rest extra a e = absurd cc
    longer (b0 ∷ b1 ∷ b2 ∷ []) rest extra a e = absurd cc

    less : (buf rest : Bytes) (a : ℕ) → read_u32 buf ≡ ok (a, rest) → length rest < length buf
    less (b0 ∷ b1 ∷ b2 ∷ b3 ∷ buf) rest a e = let same : buf ≡ rest = cc in rw⁻¹ same (omega arith)
    less [] rest a e = absurd cc
    less (b0 ∷ []) rest a e = absurd cc
    less (b0 ∷ b1 ∷ []) rest a e = absurd cc
    less (b0 ∷ b1 ∷ b2 ∷ []) rest a e = absurd cc

read_request_header-IsStable : IsStable read_request_header
unfolding read_request_header
read_request_header-IsStable = >>=-IsStable read_u16-IsStable (λ resource_id. IsStable-IsTake (
    >>=-IsStable read_u16-IsStable (λ request_id.
      IsStable-IsTake (>>=-IsStable read_u32-IsStable (λ sequence. return-IsTake _)))))

read_plain-IsStable : IsStable read_plain
unfolding read_plain
read_plain-IsStable = >>=-IsStable read_request_header-IsStable (λ header. return-IsTake _)

read_keep_alive-IsStable : IsStable read_keep_alive
unfolding read_keep_alive
read_keep_alive-IsStable = >>=-IsStable read_request_header-IsStable (λ header. IsStable-IsTake (
    >>=-IsStable read_u32-IsStable (λ v. IsStable-IsTake (
      >>=-IsStable read_u32-IsStable
        (λ os_id. IsStable-IsTake (>>=-IsStable read_u32-IsStable (λ stat. return-IsTake _)))))))

failed-IsStable {ℓ} : {A : Type ℓ} → IsStable {R = A} (λ buf. failed)
failed-IsStable = record { more = λ buf rest extra a e. cc; shorter = λ buf rest a e. absurd cc }

cluster_request_decoder-IsStable : (id : ClusterRequestId) → IsStable (cluster_request_decoder id)
unfolding cluster_request_decoder
cluster_request_decoder-IsStable get_object_service_map_latest_version = read_plain-IsStable
cluster_request_decoder-IsStable get_latest_object_service_map = read_plain-IsStable
cluster_request_decoder-IsStable add_object_service = failed-IsStable
cluster_request_decoder-IsStable remove_object_service = failed-IsStable
cluster_request_decoder-IsStable keep_alive_object_service = read_keep_alive-IsStable
cluster_request_decoder-IsStable keep_alive_client = read_plain-IsStable
cluster_request_decoder-IsStable get_object_service_map_change_log = failed-IsStable
cluster_request_decoder-IsStable cluster_status = read_plain-IsStable
cluster_request_decoder-IsStable stop = read_plain-IsStable

picked-IsStable :
    (m : Outcome ClusterRequestId) → IsStable (λ buf. m >>= λ id. cluster_request_decoder id buf)
picked-IsStable (ok id) = cluster_request_decoder-IsStable id
picked-IsStable failed = failed-IsStable
picked-IsStable aborted = record {
  more = λ buf rest extra a e. cc;
  shorter = λ buf rest a e. absurd cc;
}

found {ℓ} : {A : Type ℓ} → A → Outcome (Option A) → A
found default (ok (some a)) = a
found default _ = default

pub monitor-IsHandled : IsHandled monitor_request_handler
unfolding monitor_decoders decoder_of found
monitor-IsHandled = record { stable = picked }
  where
    picked :
        (resource_id request_id : ℕ) (read : Reader ClusterRequest)
        → decoder_of monitor_request_handler resource_id request_id ≡ ok (some read)
        → IsStable read
    picked zero request_id read e =
        let same : (λ buf. cluster_request_id request_id >>= λ id. cluster_request_decoder id buf)
            ≡ read =
          ap (found (λ _. failed)) e in
        subst IsStable same (picked-IsStable (cluster_request_id request_id))
    picked (suc zero) request_id read e = absurd cc
    picked (suc (suc n)) request_id read e = absurd (ground (arith, e))
