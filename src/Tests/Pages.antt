-- ===== src/Tests/Pages.antt =====
-- Messages of the object resource.
use muti.Common.{
  ℕ, ◌≡◌, ◌≤◌, ◌^◌, ◌-◌, refl, [], ◌∷◌, ◌++◌, length, length-append, ok, failed, some, arith,
}
use muti.Wire.{Bytes, Reader}
use muti.Server.{decode_loop, front_decoder}
use muti.Objects.{
  Object, ObjectRequest, put_object, listed, object_put, object_list, object_struct_bytes,
  object_request_encoder, object_request_decoder,
}
use muti.Objects.Answers.{encode_object_response, object_response_decoder}
use muti.Objects.RoundTrip.{
  IsObject, length-object_struct_bytes, put_request, object_request_decoder-encoder,
}
use muti.Objects.Wrapped.{
  object_request_handler, put_header, put_buffer, endless_put, put_never_ends,
}
use muti.Objects.Lists.{objects_bytes, object_list-decoder-encoder}

abbrev object : ℕ → Bytes → Object
object path_length path = record {
  next = 1;
  prev = 2;
  path_length = path_length;
  path = 3;
  size = 4;
  data_bytes = path;
}

object-IsObject : IsObject (object 2 (65 ∷ 66 ∷ []))
object-IsObject = record {
  fields = record {
    next = omega arith;
    prev = omega arith;
    path_length = omega arith;
    path = omega arith;
    size = omega arith;
  };
  whole = refl;
  short = omega arith;
}

object_request_decoder-encoder_example :
    (buf : Bytes) × (object_request_encoder object_put
        (record { header = put_header 5; body = put_object (object 2 (65 ∷ 66 ∷ [])) })
      ≡ ok buf)
    × (object_request_decoder 4096 object_put (buf ++ 9 ∷ [])
        ≡ ok (
          record {
            header = put_header 5;
            body = put_object (record (object 2 (65 ∷ 66 ∷ [])) { path = 4096 });
          },
          9 ∷ [],
        ))
object_request_decoder-encoder_example =
    object_request_decoder-encoder 4096 object_put (put_header 5) _ _ (9 ∷ [])
      (record { resource_id = omega arith; request_id = omega arith; sequence = omega arith })
      (put_request (object 2 (65 ∷ 66 ∷ [])) object-IsObject)

put_never_ends_example :
    (read : Reader ObjectRequest) × (front_decoder
        (object_request_handler 4096)
        (put_buffer 5 (object (2 ^ 64 - 48) []) [])
      ≡ ok (some read))
    × (read (put_buffer 5 (object (2 ^ 64 - 48) []) [])
        ≡ ok (
          endless_put 4096 5 (object (2 ^ 64 - 48) []) [],
          put_buffer 5 (object (2 ^ 64 - 48) []) [],
        ))
    × (decode_loop (object_request_handler 4096) 1000 (put_buffer 5 (object (2 ^ 64 - 48) []) [])
        ≡ failed)
put_never_ends_example =
    put_never_ends 4096 5 (object (2 ^ 64 - 48) []) [] (omega arith)
      (record {
        next = omega arith;
        prev = omega arith;
        path_length = omega arith;
        path = omega arith;
        size = omega arith;
      })
      refl 1000

page-fits : length (objects_bytes (object 2 (65 ∷ 66 ∷ []) ∷ [])) ≤ 1064
page-fits = omega (
  arith,
  length-append (object_struct_bytes (object 2 (65 ∷ 66 ∷ [])) ++ 65 ∷ 66 ∷ []) [],
  length-append (object_struct_bytes (object 2 (65 ∷ 66 ∷ []))) (65 ∷ 66 ∷ []),
  length-object_struct_bytes (object 2 (65 ∷ 66 ∷ [])),
)

object_list-decoder-encoder_example :
    (buf : Bytes) × (encode_object_response object_list (record {
      header = record { error_id = 0; sequence = 5 };
      body = listed 1 (object 2 (65 ∷ 66 ∷ []) ∷ []);
    })
      ≡ ok buf)
    × (object_response_decoder 16 4096 object_list (buf ++ 9 ∷ [])
        ≡ ok (
          record {
            header = record { error_id = 0; sequence = 5 };
            body = listed 1 (record (object 2 (65 ∷ 66 ∷ [])) { next = 16; prev = 16 } ∷ []);
          },
          9 ∷ [],
        ))
object_list-decoder-encoder_example =
    object_list-decoder-encoder 16 4096 5 (object 2 (65 ∷ 66 ∷ []) ∷ []) (9 ∷ []) (omega arith)
      (omega arith) (object-IsObject, tt) page-fits
