-- ===== src/Objects/RoundTrip.antt =====
-- Requests of the object resource that were encoded decode to themselves.
use muti.Common.{
  ℕ, ◌+◌, ◌%◌, ◌^◌, ◌<◌, ◌≡◌, refl, sym, ap, ◌∙◌, [], ◌∷◌, ◌++◌, append_assoc, append-nil, false,
  length, length-append, take, drop, ok, ltb, arith,
}
use native.Mathlib.Nat.{mod-eq_of_lt}
use muti.Wire.{Bytes, read_bytes, u16_bytes, u32_bytes}
use muti.Wire.Laws.{read_u32-u32_bytes, read_bytes_of}
use muti.Wire.Long.{u64_bytes, read_u64-u64_bytes}
use muti.ClusterMap.Codec.Encoding.{IsU32}
use muti.Messages.{RequestHeader, request_header_bytes, read_request_header}
use muti.Messages.RoundTrip.{IsRequestHeader, read_request_header-bytes}
use muti.Objects.{
  Object, ObjectRequestId, ObjectRequestBody, get_path, put_object, list_page, delete_path,
  stop_service, object_get, object_put, object_list, object_delete, object_stop, object_bytes,
  object_struct_bytes, read_object_struct, read_put, read_path_request, read_list, read_stop,
  object_request_encoder, object_request_decoder,
}

-- The fields of an object in the ranges of pointers and of a size_t.
pub record IsStruct (o : Object) : Type 0 where
  pub next : o.next < 2 ^ 64
  pub prev : o.prev < 2 ^ 64
  pub path_length : o.path_length < 2 ^ 64
  pub path : o.path < 2 ^ 64
  pub size : o.size < 2 ^ 64

-- An object whose array is its path, of a length that fits into a request.
pub record IsObject (o : Object) : Type 0 where
  pub fields : IsStruct o
  pub whole : o.path_length ≡ length o.data_bytes
  pub short : 48 + o.path_length < 2 ^ 64

-- The body that the encoder of an id expects, and what its decoder makes of it: the path of an object
-- points into the buffer.
pub data IsRead (data_address : ℕ)
    : ObjectRequestId → ObjectRequestBody → ObjectRequestBody → Type 0 where
  get_request :
      (path_length path : ℕ)
      → path_length < 2 ^ 64
      → path < 2 ^ 64
      → IsRead data_address object_get (get_path path_length path) (get_path path_length path)
  put_request :
      (o : Object)
      → IsObject o
      → IsRead data_address object_put
          (put_object o)
          (put_object (record o { path = data_address }))
  list_request :
      (prefix_path_length prefix_path page page_size : ℕ)
      → prefix_path_length < 2 ^ 64
      → prefix_path < 2 ^ 64
      → IsU32 page
      → IsU32 page_size
      → IsRead data_address object_list
          (list_page prefix_path_length prefix_path page page_size)
          (list_page prefix_path_length prefix_path page page_size)
  delete_request :
      (path_length path : ℕ)
      → path_length < 2 ^ 64
      → path < 2 ^ 64
      → IsRead data_address object_delete
          (delete_path path_length path)
          (delete_path path_length path)
  stop_request : IsRead data_address object_stop stop_service stop_service

pub read_object_struct-bytes :
    (o : Object) (rest : Bytes)
    → IsStruct o
    → read_object_struct (object_struct_bytes o ++ rest) ≡ ok (record o { data_bytes = [] }, rest)
unfolding read_object_struct object_struct_bytes
read_object_struct-bytes o rest v = simp (
  append_assoc,
  read_u64-u64_bytes o.next
      (u64_bytes o.prev
        ++ (u64_bytes o.path_length ++ (u64_bytes o.path ++ (u64_bytes o.size ++ rest))))
      v.next,
  read_u64-u64_bytes o.prev
      (u64_bytes o.path_length ++ (u64_bytes o.path ++ (u64_bytes o.size ++ rest))) v.prev,
  read_u64-u64_bytes o.path_length (u64_bytes o.path ++ (u64_bytes o.size ++ rest)) v.path_length,
  read_u64-u64_bytes o.path (u64_bytes o.size ++ rest) v.path,
  read_u64-u64_bytes o.size rest v.size,
)

pub take-append : (xs ys : Bytes) → take (length xs) (xs ++ ys) ≡ xs
take-append [] ys = refl
take-append (x ∷ xs) ys = ap (λ t. x ∷ t) (take-append xs ys)

pub drop-append : (xs ys : Bytes) → drop (length xs) (xs ++ ys) ≡ ys
drop-append [] ys = refl
drop-append (x ∷ xs) ys = drop-append xs ys

pub length-request_header_bytes : (h : RequestHeader) → length (request_header_bytes h) ≡ 8
unfolding request_header_bytes u16_bytes u32_bytes
length-request_header_bytes h = refl

pub length-object_struct_bytes : (o : Object) → length (object_struct_bytes o) ≡ 40
unfolding object_struct_bytes u64_bytes u32_bytes
length-object_struct_bytes o = refl

pub object_bytes-whole :
    (o : Object) → IsObject o → object_bytes o ≡ ok (object_struct_bytes o ++ o.data_bytes)
unfolding object_bytes
object_bytes-whole o v =
    let whole : read_bytes o.path_length o.data_bytes ≡ ok (o.data_bytes, []) =
      ap (read_bytes o.path_length) (sym (append-nil o.data_bytes))
      ∙ read_bytes_of o.path_length o.data_bytes [] (sym v.whole) in
    rw (object_bytes, whole) refl

-- The bytes of a put.
abbrev put_bytes : RequestHeader → Object → Bytes
put_bytes h o = request_header_bytes h ++ (object_struct_bytes o ++ o.data_bytes)

read_put-bytes :
    (data_address : ℕ) (h : RequestHeader) (o : Object) (rest : Bytes)
    → IsRequestHeader h
    → IsObject o
    → read_put data_address (put_bytes h o ++ rest)
      ≡ ok (record { header = h; body = put_object (record o { path = data_address }) }, rest)
unfolding read_put
read_put-bytes data_address h o rest v w =
    let size : length (put_bytes h o) ≡ 48 + o.path_length = omega (
      arith,
      length-append (request_header_bytes h) (object_struct_bytes o ++ o.data_bytes),
      length-append (object_struct_bytes o) o.data_bytes,
      length-request_header_bytes h,
      length-object_struct_bytes o,
      w.whole,
    ) in
    let req_len : (48 + o.path_length) % 2 ^ 64 ≡ length (put_bytes h o) =
      mod-eq_of_lt w.short ∙ sym size in
    let enough : ltb (length (put_bytes h o ++ rest)) (length (put_bytes h o)) ≡ false =
      ground (arith, length-append (put_bytes h o) rest) in
    let left = drop-append (put_bytes h o) rest in
    let path = ap (λ n. take n (o.data_bytes ++ rest)) w.whole ∙ take-append o.data_bytes rest in
    let apart : put_bytes h o ++ rest
        ≡ request_header_bytes h ++ (object_struct_bytes o ++ (o.data_bytes ++ rest)) =
      simp (append_assoc) in
    let header =
      ap read_request_header apart
      ∙ read_request_header-bytes h (object_struct_bytes o ++ (o.data_bytes ++ rest)) v in
    rw
      (
        header,
        read_object_struct-bytes o (o.data_bytes ++ rest) w.fields,
        req_len,
        enough,
        left,
        path,
      )
      refl

read_path_request-bytes :
    (body : ℕ → ℕ → ObjectRequestBody) (h : RequestHeader) (path_length path : ℕ) (rest : Bytes)
    → IsRequestHeader h
    → path_length < 2 ^ 64
    → path < 2 ^ 64
    → read_path_request body
        ((request_header_bytes h ++ (u64_bytes path_length ++ u64_bytes path)) ++ rest)
      ≡ ok (record { header = h; body = body path_length path }, rest)
unfolding read_path_request
read_path_request-bytes body h path_length path rest v l q = simp (
  append_assoc,
  read_request_header-bytes h (u64_bytes path_length ++ (u64_bytes path ++ rest)) v,
  read_u64-u64_bytes path_length (u64_bytes path ++ rest) l,
  read_u64-u64_bytes path rest q,
)

read_list-bytes :
    (h : RequestHeader) (l q page page_size : ℕ) (rest : Bytes)
    → IsRequestHeader h
    → l < 2 ^ 64
    → q < 2 ^ 64
    → IsU32 page
    → IsU32 page_size
    → read_list (
        (request_header_bytes h
          ++ (u64_bytes l ++ (u64_bytes q ++ (u32_bytes page ++ u32_bytes page_size))))
        ++ rest)
      ≡ ok (record { header = h; body = list_page l q page page_size }, rest)
unfolding read_list
read_list-bytes h l q page page_size rest v bl bq bp bs = simp (
  append_assoc,
  read_request_header-bytes h
      (u64_bytes l ++ (u64_bytes q ++ (u32_bytes page ++ (u32_bytes page_size ++ rest)))) v,
  read_u64-u64_bytes l (u64_bytes q ++ (u32_bytes page ++ (u32_bytes page_size ++ rest))) bl,
  read_u64-u64_bytes q (u32_bytes page ++ (u32_bytes page_size ++ rest)) bq,
  read_u32-u32_bytes page (u32_bytes page_size ++ rest) bp,
  read_u32-u32_bytes page_size rest bs,
)

-- A request of the object resource with fields in range, and with the body that the encoder of its id
-- expects, is encoded to bytes from whose front the decoder of that id reads the same request and
-- leaves the rest. An object comes with its path, if its array is that path and its length does not
-- reach the end of the range of a size_t, and then the path points to its bytes in the buffer.
pub object_request_decoder-encoder :
    (data_address : ℕ) (id : ObjectRequestId) (h : RequestHeader) (body read : ObjectRequestBody)
    (rest : Bytes)
    → IsRequestHeader h
    → IsRead data_address id body read
    → (buf : Bytes) × (object_request_encoder id (record { header = h; body = body }) ≡ ok buf)
      × (object_request_decoder data_address id (buf ++ rest)
          ≡ ok (record { header = h; body = read }, rest))
unfolding object_request_encoder object_request_decoder read_stop
object_request_decoder-encoder a _ h _ _ rest v (get_request path_length path l q) =
    (_, refl, read_path_request-bytes get_path h path_length path rest v l q)
object_request_decoder-encoder a _ h _ _ rest v (put_request o w) =
    (_, rw (object_bytes-whole o w) refl, read_put-bytes a h o rest v w)
object_request_decoder-encoder a _ h _ _ rest v (list_request l q page page_size bl bq bp bs) =
    (_, refl, read_list-bytes h l q page page_size rest v bl bq bp bs)
object_request_decoder-encoder a _ h _ _ rest v (delete_request path_length path l q) =
    (_, refl, read_path_request-bytes delete_path h path_length path rest v l q)
object_request_decoder-encoder a _ h _ _ rest v stop_request =
    (_, refl, rw (read_request_header-bytes h rest v) refl)
