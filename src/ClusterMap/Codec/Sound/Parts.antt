-- ===== src/ClusterMap/Codec/Sound/Parts.antt =====
-- What the parser accepts as a bset and as an object service.
use muti.Common.{
  ℕ, zero, suc, ◌%◌, ◌≡◌, refl, sym, ap, ◌∙◌, subst, List, [], ◌∷◌, ◌++◌, ok, >>=-eq-ok, All,
  length, arith,
}
use muti.Wire.{
  Bytes, IsByte, sign_extend8, read_u8, read_u32, read_bytes, read_words, u32_bytes, words_bytes,
}
use muti.Wire.Laws.{
  Took, joined, read_u8-Took, read_u32-Took, read_bytes-Took, read_words-Took, sign_extend8_mod,
}
use muti.ClusterMap.{ObjectService, BSet}
use muti.ClusterMap.Codec.{parse_bset, parse_bsets, parse_service}
use muti.ClusterMap.Codec.Encoding.{bset_bytes, bsets_bytes, service_bytes, IsBSet, IsObjectService}

pub parse_bset-Took :
    (replica : ℕ) (buf : Bytes) (b : BSet) (rest : Bytes)
    → All IsByte buf
    → parse_bset replica buf ≡ ok (b, rest)
    → IsBSet replica b × Took bset_bytes buf b rest
unfolding parse_bset bset_bytes
parse_bset-Took replica buf b rest h e =
    let ((id, buf₁), run₁, e₁) = >>=-eq-ok (read_u32 buf) _ e in
    let (small, t₁) = read_u32-Took buf id buf₁ h run₁ in
    let ((ids, buf₂), run₂, e₂) = >>=-eq-ok (read_words replica buf₁) _ e₁ in
    let (size, words, t₂) = read_words-Took replica buf₁ ids buf₂ t₁.left run₂ in
    let same : record { id = id; object_service_ids = ids } ≡ b = ground arith in
    let end : buf₂ ≡ rest = ground arith in
    subst (λ b. IsBSet replica b × Took bset_bytes buf b rest) same
      (
        record { id = small; replicas = size; services = words },
        record {
          split =
              joined (u32_bytes id) (words_bytes ids) rest t₁.split
                (t₂.split ∙ ap (λ r. words_bytes ids ++ r) end);
          left = subst (All IsByte) end t₂.left;
        },
      )

pub parse_bsets-Took :
    (replica n : ℕ) (buf : Bytes) (bs : List BSet) (rest : Bytes)
    → All IsByte buf
    → parse_bsets replica n buf ≡ ok (bs, rest)
    → (length bs ≡ n) × All (IsBSet replica) bs × Took bsets_bytes buf bs rest
unfolding parse_bsets bsets_bytes
parse_bsets-Took replica zero buf bs rest h e =
    let none_read : [] ≡ bs = ground arith in
    let end : buf ≡ rest = ground arith in
    subst (λ bs. (length bs ≡ 0) × All (IsBSet replica) bs × Took bsets_bytes buf bs rest) none_read
      (refl, tt, record { split = end; left = subst (All IsByte) end h })
parse_bsets-Took replica (suc n) buf bs rest h e =
    let ((b, buf₁), run₁, e₁) = >>=-eq-ok (parse_bset replica buf) _ e in
    let (bset, t₁) = parse_bset-Took replica buf b buf₁ h run₁ in
    let ((bs', buf₂), run₂, e₂) = >>=-eq-ok (parse_bsets replica n buf₁) _ e₁ in
    let (size, bsets, t₂) = parse_bsets-Took replica n buf₁ bs' buf₂ t₁.left run₂ in
    let whole : b ∷ bs' ≡ bs = ground arith in
    let end : buf₂ ≡ rest = ground arith in
    subst (λ bs. (length bs ≡ suc n) × All (IsBSet replica) bs × Took bsets_bytes buf bs rest) whole
      (
        ap suc size,
        (bset, bsets),
        record {
          split =
              joined (bset_bytes b) (bsets_bytes bs') rest t₁.split
                (t₂.split ∙ ap (λ r. bsets_bytes bs' ++ r) end);
          left = subst (All IsByte) end t₂.left;
        },
      )

service_split :
    (os : ObjectService) (rest : Bytes) {status : ℕ} {buf buf₁ buf₂ buf₃ buf₄ buf₅ : Bytes}
    → status ≡ os.status % 256
    → buf ≡ u32_bytes os.id ++ buf₁
    → buf₁ ≡ os.host ++ buf₂
    → buf₂ ≡ u32_bytes os.port ++ buf₃
    → buf₃ ≡ (status ∷ []) ++ buf₄
    → buf₄ ≡ u32_bytes os.bset_length ++ buf₅
    → buf₅ ≡ words_bytes os.bset_ids ++ rest
    → buf ≡ service_bytes os ++ rest
unfolding service_bytes
service_split os rest low e₁ e₂ e₃ e₄ e₅ e₆ =
    let tail = u32_bytes os.bset_length ++ words_bytes os.bset_ids in
    joined (u32_bytes os.id) _ rest e₁ (
      joined os.host _ rest e₂ (
        joined (u32_bytes os.port) ((os.status % 256) ∷ tail) rest e₃ (
          joined ((os.status % 256) ∷ []) tail rest (rw low at e₄)
            (joined (u32_bytes os.bset_length) (words_bytes os.bset_ids) rest e₅ e₆))))

pub parse_service-Took :
    (buf : Bytes) (os : ObjectService) (rest : Bytes)
    → All IsByte buf
    → parse_service buf ≡ ok (os, rest)
    → IsObjectService os × Took service_bytes buf os rest
unfolding parse_service service_bytes
parse_service-Took buf os rest h e =
    let ((id, buf₁), run₁, e₁) = >>=-eq-ok (read_u32 buf) _ e in
    let (id_ok, t₁) = read_u32-Took buf id buf₁ h run₁ in
    let ((host, buf₂), run₂, e₂) = >>=-eq-ok (read_bytes 128 buf₁) _ e₁ in
    let (host_length, host_ok, t₂) = read_bytes-Took 128 buf₁ host buf₂ t₁.left run₂ in
    let ((port, buf₃), run₃, e₃) = >>=-eq-ok (read_u32 buf₂) _ e₂ in
    let (port_ok, t₃) = read_u32-Took buf₂ port buf₃ t₂.left run₃ in
    let ((status, buf₄), run₄, e₄) = >>=-eq-ok (read_u8 buf₃) _ e₃ in
    let (status_ok, t₄) = read_u8-Took buf₃ status buf₄ t₃.left run₄ in
    let ((count, buf₅), run₅, e₅) = >>=-eq-ok (read_u32 buf₄) _ e₄ in
    let (count_ok, t₅) = read_u32-Took buf₄ count buf₅ t₄.left run₅ in
    let ((ids, buf₆), run₆, e₆) = >>=-eq-ok (read_words count buf₅) _ e₅ in
    let (size, ids_ok, t₆) = read_words-Took count buf₅ ids buf₆ t₅.left run₆ in
    let low = sign_extend8_mod status status_ok in
    let end : buf₆ ≡ rest = ground arith in
    let read : ObjectService = record {
      id = id;
      status = sign_extend8 status;
      host = host;
      port = port;
      bset_length = count;
      bset_ids = ids;
    } in
    let same : read ≡ os = ground arith in
    subst (λ os. IsObjectService os × Took service_bytes buf os rest) same
      (
        record {
          id = id_ok;
          host = (host_length, host_ok);
          port = port_ok;
          status = ap sign_extend8 low;
          bset_length = count_ok;
          bset_count = size;
          bsets = ids_ok;
        },
        record {
          split =
              service_split read rest (sym low) t₁.split t₂.split t₃.split t₄.split t₅.split
                (t₆.split ∙ ap (λ r. words_bytes ids ++ r) end);
          left = subst (All IsByte) end t₆.left;
        },
      )
