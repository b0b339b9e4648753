-- ===== src/Objects.antt =====
-- The requests and the responses of the object resource, services/os/share/Object.h: the client's
-- side in services/os/client/object/ObjectSender.c, the object service's side in
-- services/os/server/object/ObjectHandler.c. Structs go over the connection with their pointers, as
-- numbers of 8 bytes. The actions are those of the source, which has no store yet.
pub mod Answers
pub mod RoundTrip
pub mod Wrapped
pub mod Lists
use muti.Common.{
  ℕ, zero, suc, ◌+◌, ◌*◌, ◌%◌, ◌^◌, List, [], ◌∷◌, ◌++◌, length, take, drop, at, Outcome, ok,
  failed, aborted, ◌>>=◌, assert, ltb, leb, ◌==◌, if◌then◌else◌, Option, some,
}
use muti.Wire.{Bytes, Reader, read_u32, read_bytes, u32_bytes}
use muti.Wire.Long.{u64_bytes, read_u64}
use muti.Messages.{
  RequestHeader, ResponseHeader, request_header_bytes, read_request_header, response_header_bytes,
  read_response_header,
}

-- `Object`: `next` and `prev` are the pointers of `element`; `data` is the flexible array.
pub record Object : Type 0 where
  pub next : ℕ
  pub prev : ℕ
  pub path_length : ℕ
  pub path : ℕ
  pub size : ℕ
  pub data_bytes : Bytes

-- `ObjectRequestId`, and its numbers in each table.
pub data ObjectRequestId : Type 0 where
  object_get : ObjectRequestId
  object_put : ObjectRequestId
  object_list : ObjectRequestId
  object_delete : ObjectRequestId
  object_stop : ObjectRequestId

unfoldable pub object_request_id : ℕ → Outcome ObjectRequestId
object_request_id = at (object_get ∷ object_put ∷ object_list ∷ object_delete ∷ object_stop ∷ [])

-- What follows the header of a request; a path is its length and a pointer.
pub data ObjectRequestBody : Type 0 where
  get_path : ℕ → ℕ → ObjectRequestBody
  put_object : Object → ObjectRequestBody
  list_page : ℕ → ℕ → ℕ → ℕ → ObjectRequestBody
  delete_path : ℕ → ℕ → ObjectRequestBody
  stop_service : ObjectRequestBody

pub record ObjectRequest : Type 0 where
  pub header : RequestHeader
  pub body : ObjectRequestBody

-- What follows the header of a response; the list has its length beside it.
pub data ObjectResponseBody : Type 0 where
  nothing : ObjectResponseBody
  got_object : Object → ObjectResponseBody
  listed : ℕ → List Object → ObjectResponseBody

pub record ObjectResponse : Type 0 where
  pub header : ResponseHeader
  pub body : ObjectResponseBody

-- `sizeof(Object)` bytes
unfoldable pub object_struct_bytes : Object → Bytes
object_struct_bytes o =
    u64_bytes o.next
    ++ (u64_bytes o.prev ++ (u64_bytes o.path_length ++ (u64_bytes o.path ++ u64_bytes o.size)))

-- With the path behind it; a shorter array is read past its end.
unfoldable pub object_bytes : Object → Outcome Bytes
unfolding object_struct_bytes
object_bytes o = elim (read_bytes o.path_length o.data_bytes) [
  | ok (path, rest) ↦ ok (object_struct_bytes o ++ path)
  | _ ↦ aborted
]

-- `ObjectRequestEncoder[request_id]`
unfoldable pub object_request_encoder : ObjectRequestId → ObjectRequest → Outcome Bytes
unfolding object_bytes
object_request_encoder object_get r = elim r.body [
  | get_path path_length path ↦
      ok (request_header_bytes r.header ++ (u64_bytes path_length ++ u64_bytes path))
  | _ ↦ aborted
]
object_request_encoder object_put r = elim r.body [
  | put_object o ↦ object_bytes o >>= λ bytes. ok (request_header_bytes r.header ++ bytes)
  | _ ↦ aborted
]
object_request_encoder object_list r = elim r.body [
  | list_page prefix_path_length prefix_path page page_size ↦ ok (
      request_header_bytes r.header
      ++ (u64_bytes prefix_path_length
          ++ (u64_bytes prefix_path ++ (u32_bytes page ++ u32_bytes page_size))))
  | _ ↦ aborted
]
object_request_encoder object_delete r = elim r.body [
  | delete_path path_length path ↦
      ok (request_header_bytes r.header ++ (u64_bytes path_length ++ u64_bytes path))
  | _ ↦ aborted
]
object_request_encoder object_stop r = ok (request_header_bytes r.header)

unfoldable pub read_object_struct : Reader Object
read_object_struct buf = do
  (next, buf₁) ← read_u64 buf
  (prev, buf₂) ← read_u64 buf₁
  (path_length, buf₃) ← read_u64 buf₂
  (path, buf₄) ← read_u64 buf₃
  (size, buf₅) ← read_u64 buf₄
  ok (
    record {
      next = next;
      prev = prev;
      path_length = path_length;
      path = path;
      size = size;
      data_bytes = [];
    },
    buf₅,
  )

unfoldable pub read_path_request : (ℕ → ℕ → ObjectRequestBody) → Reader ObjectRequest
read_path_request body buf = do
  (header, buf₁) ← read_request_header buf
  (path_length, buf₂) ← read_u64 buf₁
  (path, buf₃) ← read_u64 buf₂
  ok (record { header = header; body = body path_length path }, buf₃)

-- `ObjectRequestDecoderPut`: the sum of the lengths is a size_t and wraps around. The path points into
-- the buffer, to an address `data_address`.
unfoldable pub read_put : ℕ → Reader ObjectRequest
unfolding read_object_struct
read_put data_address buf = do
  (header, buf₁) ← read_request_header buf
  (object, buf₂) ← read_object_struct buf₁
  let req_len = (48 + object.path_length) % 2 ^ 64
  let put = record object { path = data_address; data_bytes = take object.path_length buf₂ }
  if ltb (length buf) req_len
      then failed
      else ok (record { header = header; body = put_object put }, drop req_len buf)

unfoldable pub read_list : Reader ObjectRequest
read_list buf = do
  (header, buf₁) ← read_request_header buf
  (prefix_path_length, buf₂) ← read_u64 buf₁
  (prefix_path, buf₃) ← read_u64 buf₂
  (page, buf₄) ← read_u32 buf₃
  (page_size, buf₅) ← read_u32 buf₄
  ok (
    record { header = header; body = list_page prefix_path_length prefix_path page page_size },
    buf₅,
  )

unfoldable pub read_stop : Reader ObjectRequest
read_stop buf = do
  (header, buf₁) ← read_request_header buf
  ok (record { header = header; body = stop_service }, buf₁)

-- `ObjectRequestDecoder[request_id]`
unfoldable pub object_request_decoder : ℕ → ObjectRequestId → Reader ObjectRequest
unfolding read_path_request read_put read_list read_stop
object_request_decoder data_address object_get buf = read_path_request get_path buf
object_request_decoder data_address object_put buf = read_put data_address buf
object_request_decoder data_address object_list buf = read_list buf
object_request_decoder data_address object_delete buf = read_path_request delete_path buf
object_request_decoder data_address object_stop buf = read_stop buf
