-- ===== src/Client/Headers.antt =====
-- The header of a response at the front of a buffer.
use muti.Common.{
  ℕ, ◌+◌, ◌≤◌, ◌≡◌, ap, ◌∙◌, [], ◌∷◌, length, ok, >>=-eq-ok, Bool-cases, inl, inr, ◌==◌, arith,
}
use muti.Wire.{Bytes, Reader, read_u32}
use muti.Messages.{
  ClusterResponse, ResponseHeader, ResponseBody, empty, ClusterRequestId, cluster_response_decoder,
  read_response_header, decode_with, get_object_service_map_latest_version,
  get_latest_object_service_map, add_object_service, remove_object_service,
  keep_alive_object_service, keep_alive_client, get_object_service_map_change_log, cluster_status,
  stop,
}

length-read_u32 :
    (buf : Bytes) (v : ℕ) (rest : Bytes)
    → read_u32 buf ≡ ok (v, rest)
    → length buf ≡ 4 + length rest
unfolding read_u32
length-read_u32 [] v rest e = cc
length-read_u32 (b0 ∷ []) v rest e = cc
length-read_u32 (b0 ∷ b1 ∷ []) v rest e = cc
length-read_u32 (b0 ∷ b1 ∷ b2 ∷ []) v rest e = cc
length-read_u32 (b0 ∷ b1 ∷ b2 ∷ b3 ∷ bs) v rest e = ground arith

-- A header takes 8 bytes.
pub length-read_response_header :
    (buf : Bytes) (h : ResponseHeader) (rest : Bytes)
    → read_response_header buf ≡ ok (h, rest)
    → 8 ≤ length buf
unfolding read_response_header
length-read_response_header buf h rest e =
    let ((error_id, buf₁), run₁, e₁) = >>=-eq-ok (read_u32 buf) _ e in
    let ((sequence, buf₂), run₂, e₂) = >>=-eq-ok (read_u32 buf₁) _ e₁ in
    omega (arith, length-read_u32 buf error_id buf₁ run₁, length-read_u32 buf₁ sequence buf₂ run₂)

header_of :
    (read_body : Reader ResponseBody) (buf : Bytes) (resp : ClusterResponse) (rest : Bytes)
    → decode_with read_body buf ≡ ok (resp, rest)
    → (buf₁ : Bytes) × (read_response_header buf ≡ ok (resp.header, buf₁))
unfolding decode_with
header_of read_body buf resp rest e =
    let ((h, buf₁), run, e₁) = >>=-eq-ok (read_response_header buf) _ e in
    elim (Bool-cases (h.error_id == 0)) [
      | inl good ↦
          let whole = rw good at e₁ in
          let ((body, buf₂), run₂, e₂) = >>=-eq-ok (read_body buf₁) _ whole in
          let same : h ≡ resp.header = ground arith in (buf₁, run ∙ ap (λ t. ok (t, buf₁)) same)
      | inr bad ↦
          let short = rw bad at e₁ in
          let same : h ≡ resp.header = ground arith in (buf₁, run ∙ ap (λ t. ok (t, buf₁)) same)
    ]

-- A response that was decoded has the header that stands at the front of the buffer.
pub decoded_header :
    (id : ClusterRequestId) (buf : Bytes) (resp : ClusterResponse) (rest : Bytes)
    → cluster_response_decoder id buf ≡ ok (resp, rest)
    → (buf₁ : Bytes) × (read_response_header buf ≡ ok (resp.header, buf₁))
unfolding cluster_response_decoder
decoded_header get_object_service_map_latest_version buf resp rest e = header_of _ buf resp rest e
decoded_header get_latest_object_service_map buf resp rest e = header_of _ buf resp rest e
decoded_header add_object_service buf resp rest e = cc
decoded_header remove_object_service buf resp rest e = cc
decoded_header keep_alive_object_service buf resp rest e = header_of _ buf resp rest e
decoded_header keep_alive_client buf resp rest e = header_of _ buf resp rest e
decoded_header get_object_service_map_change_log buf resp rest e = cc
decoded_header cluster_status buf resp rest e = header_of _ buf resp rest e
decoded_header stop buf resp rest e = header_of (λ left. ok (empty, left)) buf resp rest e
