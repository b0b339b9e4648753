-- ===== src/Objects/Answers.antt =====
-- The responses of the object resource: the actions and the encoders of
-- services/os/server/object/ObjectHandler.c, and the decoders of
-- services/os/client/object/ObjectSender.c.
use muti.Common.{
  ℕ, zero, suc, ◌+◌, ◌-◌, ◌*◌, ◌%◌, ◌^◌, List, [], ◌∷◌, ◌++◌, length, take, drop, Outcome, ok,
  failed, aborted, ◌>>=◌, assert, ltb, leb, ◌==◌, if◌then◌else◌,
}
use muti.Wire.{Bytes, Reader, read_u32, u32_bytes}
use muti.Messages.{response_header_bytes, read_response_header}
use muti.Objects.{
  Object, ObjectRequestId, ObjectRequest, ObjectResponse, ObjectResponseBody, nothing, got_object,
  listed, object_get, object_put, object_list, object_delete, object_stop, object_bytes,
  read_object_struct,
}

-- The header of each answer; -1 as an int32_t's bit pattern.
abbrev pub not_done : ℕ
not_done = 2 ^ 32 - 1

abbrev pub reply : ObjectRequest → ℕ → ObjectResponseBody → ObjectResponse
reply r error_id body = record {
  header = record { error_id = error_id; sequence = r.header.sequence };
  body = body;
}

-- `ObjectActions[request_id]`: no object is found or stored, and the list is empty.
unfoldable pub object_action : ObjectRequestId → ObjectRequest → ObjectResponse
object_action object_get r = reply r not_done nothing
object_action object_put r = reply r not_done nothing
object_action object_list r = reply r 0 (listed 0 [])
object_action object_delete r = reply r not_done nothing
object_action object_stop r = reply r 0 nothing

-- The loop of `ObjectResponseEncoderList`: past the last object the list's head would be read.
unfoldable pub object_list_bytes : ℕ → List Object → Outcome Bytes
unfolding object_bytes
object_list_bytes zero objects = ok []
object_list_bytes (suc n) [] = aborted
object_list_bytes (suc n) (o ∷ objects) = do
  first ← object_bytes o
  rest ← object_list_bytes n objects
  ok (first ++ rest)

-- `ObjectResponseEncoder[request_id]`. The list goes into a buffer with 1024 bytes for each path.
unfoldable pub object_response_encoder : ObjectRequestId → ObjectResponse → Outcome Bytes
unfolding object_bytes object_list_bytes
object_response_encoder object_get r = elim r.body [
  | got_object o ↦ object_bytes o >>= λ bytes. ok (response_header_bytes r.header ++ bytes)
  | _ ↦ aborted
]
object_response_encoder object_put r = ok (response_header_bytes r.header)
object_response_encoder object_list r = elim r.body [
  | listed n objects ↦ do
    bytes ← object_list_bytes n objects
    _ ← assert (leb (length bytes) (n * (40 + 1024)))
    ok (response_header_bytes r.header ++ (u32_bytes n ++ bytes))
  | _ ↦ aborted
]
object_response_encoder object_delete r = ok (response_header_bytes r.header)
object_response_encoder object_stop r = ok (response_header_bytes r.header)

-- `ErrorResponseEncoder` for an error, else the encoder of the request.
unfoldable pub encode_object_response : ObjectRequestId → ObjectResponse → Outcome Bytes
unfolding object_response_encoder
encode_object_response request_id r =
    if r.header.error_id == 0
    then object_response_encoder request_id r
    else ok (response_header_bytes r.header)

-- An `Object` with the path behind it; `start` is its place in the response, whose sums of lengths
-- are size_t. A place past the end of the buffer is not reached.
unfoldable pub read_object : ℕ → Bytes → Outcome (Object × ℕ)
unfolding read_object_struct
read_object start buf = do
  (object, rest) ← read_object_struct (drop start buf)
  let len = (start + 40 + object.path_length) % 2 ^ 64
  if ltb (length buf) len
      then failed
      else ok (record object { data_bytes = take object.path_length rest }, len)

-- The loop of `ObjectResponseDecoderList`. `listAddTail` overwrites the links of each object in the
-- response: `head` is the address of the list's head, `buffer` that of the response, and `prev` that of
-- the object before.
unfoldable pub read_objects : ℕ → ℕ → ℕ → ℕ → ℕ → Bytes → Outcome (List Object × ℕ)
unfolding read_object
read_objects head buffer zero prev start buf = ok ([], start)
read_objects head buffer (suc n) prev start buf = do
  (object, len) ← read_object start buf
  (objects, len') ← read_objects head buffer n (buffer + start) len buf
  let next = if n == 0 then head else buffer + len
  ok (record object { next = next; prev = prev } ∷ objects, len')

-- The body of each response that is no error, with the length of the response.
unfoldable pub read_object_body : ℕ → ℕ → ObjectRequestId → Bytes → Outcome (ObjectResponseBody × ℕ)
unfolding read_object read_objects
read_object_body head buffer object_get buf = do
  (object, len) ← read_object 8 buf
  ok (got_object object, len)
read_object_body head buffer object_list buf = do
  (n, rest) ← read_u32 (drop 8 buf)
  (objects, len) ← read_objects head buffer n head 12 buf
  ok (listed n objects, len)
read_object_body head buffer _ buf = ok (nothing, 8)

-- `ObjectResponseDecoder[request_id]`: behind an error there is nothing.
unfoldable pub object_response_decoder : ℕ → ℕ → ObjectRequestId → Reader ObjectResponse
unfolding read_object_body
object_response_decoder head buffer request_id buf = do
  (header, rest) ← read_response_header buf
  let whole = do
    (body, len) ← read_object_body head buffer request_id buf
    ok (record { header = header; body = body }, drop len buf)
  if header.error_id == 0 then whole else ok (record { header = header; body = nothing }, rest)
