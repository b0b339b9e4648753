-- ===== src/Objects/Wrapped.antt =====
-- A put whose sum of lengths wraps around to nothing, in the decoding loop of
-- corecode/server/Server.c.
use muti.Common.{
  ℕ, zero, suc, ◌+◌, ◌-◌, ◌%◌, ◌^◌, ◌≤◌, ◌≡◌, refl, ap, ◌∙◌, List, [], ◌∷◌, ◌++◌, false, length,
  length-append, take, Option, some, ok, failed, ◌>>=◌, ltb, arith,
}
use muti.Wire.{Bytes, Reader, read_u16, u16_bytes}
use muti.ClusterMap.Codec.Encoding.{IsU32}
use muti.Messages.{RequestHeader, request_header_bytes}
use muti.Messages.RoundTrip.{read_request_header-bytes}
use muti.Server.{front_decoder, decode_loop}
use muti.Server.Rounds.{loop-request}
use muti.Objects.{
  Object, ObjectRequest, put_object, object_put, object_request_id, object_struct_bytes, read_put,
  object_request_decoder,
}
use muti.Objects.RoundTrip.{IsStruct, read_object_struct-bytes, length-request_header_bytes}

-- The object service's table of request handlers: the object resource is its only one.
unfoldable pub object_decoders : ℕ → ℕ → Option (Reader ObjectRequest)
unfolding object_request_decoder
object_decoders data_address request_id =
    some (λ buf. do id ← object_request_id request_id; object_request_decoder data_address id buf)

abbrev pub object_request_handler : ℕ → List (Option (ℕ → Option (Reader ObjectRequest)))
object_request_handler data_address = some (object_decoders data_address) ∷ []

abbrev pub put_header : ℕ → RequestHeader
put_header sequence = record { resource_id = 0; request_id = 1; sequence = sequence }

-- The bytes of a put with this object, and what its decoder makes of them.
abbrev pub put_buffer : ℕ → Object → Bytes → Bytes
put_buffer sequence o rest =
    request_header_bytes (put_header sequence) ++ (object_struct_bytes o ++ rest)

abbrev pub endless_put : ℕ → ℕ → Object → Bytes → ObjectRequest
endless_put data_address sequence o rest = record {
  header = put_header sequence;
  body = put_object (record o { path = data_address; data_bytes = take o.path_length rest });
}

module _ (data_address sequence : ℕ) (o : Object) (rest : Bytes) (small : IsU32 sequence)
    (fields : IsStruct o) (wraps : o.path_length ≡ 2 ^ 64 - 48) where
  abbrev buf : Bytes
  buf = put_buffer sequence o rest

  abbrev endless : ObjectRequest
  endless = endless_put data_address sequence o rest

  read_put-endless : read_put data_address buf ≡ ok (endless, buf)
  unfolding read_put
  read_put-endless =
      let header =
        read_request_header-bytes (put_header sequence) (object_struct_bytes o ++ rest)
          (record { resource_id = omega arith; request_id = omega arith; sequence = small }) in
      let req_len : (48 + o.path_length) % 2 ^ 64 ≡ 0 = ap (λ t. (48 + t) % 2 ^ 64) wraps in
      let enough : ltb (length buf) 0 ≡ false = ground arith in
      rw (header, read_object_struct-bytes o rest fields, req_len, enough) refl

  front_decoder-put :
      front_decoder (object_request_handler data_address) buf
      ≡ ok (some (λ b. object_request_decoder data_address object_put b))
  unfolding front_decoder request_header_bytes u16_bytes read_u16 object_decoders object_request_id
  front_decoder-put = refl

  -- If the path length of a put is the one for which the sum of the lengths wraps around to 0, each
  -- round of the decoding loop of the object service finds the decoder of a put at the front of the
  -- buffer, and this decodes a request and takes nothing off the buffer: the loop does not stop and
  -- uses up whatever number of rounds it is given.
  pub put_never_ends :
      (rounds : ℕ)
      → (read : Reader ObjectRequest) × (front_decoder (object_request_handler data_address) buf
          ≡ ok (some read))
        × (read buf ≡ ok (endless, buf))
        × (decode_loop (object_request_handler data_address) rounds buf ≡ failed)
  unfolding decode_loop object_request_decoder
  put_never_ends rounds =
      let four : 4 ≤ length buf = omega (
        arith,
        length-append (request_header_bytes (put_header sequence)) (object_struct_bytes o ++ rest),
        length-request_header_bytes (put_header sequence),
      ) in
      (read_put data_address, front_decoder-put, read_put-endless, used_up four rounds)
    where
      used_up :
          4 ≤ length buf
          → (n : ℕ) → decode_loop (object_request_handler data_address) n buf ≡ failed
      used_up four zero = refl
      used_up four (suc n) =
          loop-request (object_request_handler data_address) n buf buf (read_put data_address)
            endless four front_decoder-put read_put-endless
          ∙ rw (used_up four n) refl
