-- ===== src/Objects/Lists.antt =====
-- A list of objects goes through the encoder and the decoder of its response.
use muti.Common.{
  ℕ, ◌+◌, ◌*◌, ◌%◌, ◌^◌, ◌<◌, ◌≤◌, ◌≡◌, refl, sym, ap, ◌∙◌, List, [], ◌∷◌, ◌++◌, append_assoc,
  append-nil, true, false, All, length, length-append, take, drop, ok, ltb, leb, ◌==◌,
  if◌then◌else◌, arith,
}
use native.Mathlib.Nat.{mod-eq_of_lt}
use muti.Wire.{Bytes, u32_bytes}
use muti.Wire.Laws.{read_u32-u32_bytes, length-u32_bytes}
use muti.ClusterMap.Codec.Encoding.{IsU32}
use muti.Messages.{ResponseHeader, response_header_bytes, read_response_header}
use muti.Messages.Exchange.{read_response_header-bytes}
use muti.Objects.{Object, listed, object_list, object_struct_bytes}
use muti.Objects.Answers.{
  object_list_bytes, encode_object_response, read_object, read_objects, object_response_decoder,
}
use muti.Objects.RoundTrip.{
  IsObject, read_object_struct-bytes, length-object_struct_bytes, take-append, drop-append,
  object_bytes-whole,
}

-- The bytes of the objects, one after another.
abbrev pub objects_bytes : List Object → Bytes
objects_bytes [] = []
objects_bytes (o ∷ objects) = (object_struct_bytes o ++ o.data_bytes) ++ objects_bytes objects

object_list_bytes-whole :
    (objects : List Object)
    → All IsObject objects
    → object_list_bytes (length objects) objects ≡ ok (objects_bytes objects)
unfolding object_list_bytes
object_list_bytes-whole [] v = refl
object_list_bytes-whole (o ∷ objects) v =
    rw (object_bytes-whole o v.0, object_list_bytes-whole objects v.1) refl

-- An object behind some bytes.
read_object-bytes :
    (front : Bytes) (o : Object) (rest : Bytes)
    → IsObject o
    → length front + 40 + o.path_length < 2 ^ 64
    → read_object (length front) (front ++ ((object_struct_bytes o ++ o.data_bytes) ++ rest))
      ≡ ok (o, length (front ++ (object_struct_bytes o ++ o.data_bytes)))
unfolding read_object
read_object-bytes front o rest v small =
    let whole = front ++ ((object_struct_bytes o ++ o.data_bytes) ++ rest) in
    let behind : drop (length front) whole ≡ object_struct_bytes o ++ (o.data_bytes ++ rest) =
      drop-append front ((object_struct_bytes o ++ o.data_bytes) ++ rest)
      ∙ append_assoc (object_struct_bytes o) o.data_bytes rest in
    let len : (length front + 40 + o.path_length) % 2 ^ 64
        ≡ length (front ++ (object_struct_bytes o ++ o.data_bytes)) =
      mod-eq_of_lt small
      ∙ omega (
        arith,
        length-append front (object_struct_bytes o ++ o.data_bytes),
        length-append (object_struct_bytes o) o.data_bytes,
        length-object_struct_bytes o,
        v.whole,
      ) in
    let enough : ltb (length whole) (length (front ++ (object_struct_bytes o ++ o.data_bytes)))
        ≡ false =
      ground (
        arith,
        length-append front (object_struct_bytes o ++ o.data_bytes),
        length-append front ((object_struct_bytes o ++ o.data_bytes) ++ rest),
        length-append (object_struct_bytes o ++ o.data_bytes) rest,
      ) in
    let path = ap (λ n. take n (o.data_bytes ++ rest)) v.whole ∙ take-append o.data_bytes rest in
    rw (behind, read_object_struct-bytes o (o.data_bytes ++ rest) v.fields, len, enough, path) refl

-- The objects with the links that the list gives them, where the first is at `start` in the response.
abbrev pub linked : ℕ → ℕ → ℕ → ℕ → List Object → List Object
linked head buffer prev start [] = []
linked head buffer prev start (o ∷ objects) =
    let end = start + 40 + o.path_length in
    record o { next = if length objects == 0 then head else buffer + end; prev = prev }
    ∷ linked head buffer (buffer + start) end objects

read_objects-bytes :
    (head buffer prev : ℕ) (objects : List Object) (front rest : Bytes)
    → All IsObject objects
    → length front + length (objects_bytes objects) < 2 ^ 64
    → read_objects head buffer
        (length objects)
        prev
        (length front)
        (front ++ (objects_bytes objects ++ rest))
      ≡ ok (linked head buffer prev (length front) objects, length (front ++ objects_bytes objects))
unfolding read_objects
read_objects-bytes head buffer prev [] front rest v small =
    ap (λ t. ok ([], length t)) (sym (append-nil front))
read_objects-bytes head buffer prev (o ∷ objects) front rest v small =
    let here = object_struct_bytes o ++ o.data_bytes in
    let later = objects_bytes objects in
    let whole = front ++ ((here ++ later) ++ rest) in
    let size : length front + 40 + o.path_length + length later < 2 ^ 64 = omega (
      arith,
      small,
      length-append here later,
      length-append (object_struct_bytes o) o.data_bytes,
      length-object_struct_bytes o,
      v.0.whole,
    ) in
    let e₁ : whole ≡ front ++ (here ++ (later ++ rest)) =
      ap (λ t. front ++ t) (append_assoc here later rest) in
    let e₂ : whole ≡ (front ++ here) ++ (later ++ rest) =
      e₁ ∙ sym (append_assoc front here (later ++ rest)) in
    let first : read_object (length front) whole ≡ ok (o, length (front ++ here)) =
      ap (read_object (length front)) e₁
      ∙ read_object-bytes front o (later ++ rest) v.0 (omega (arith, size)) in
    let size' : length (front ++ here) + length later < 2 ^ 64 =
      omega (arith, small, length-append here later, length-append front here) in
    let mine = buffer + length front in
    let others : read_objects head buffer (length objects) mine (length (front ++ here)) whole
        ≡ ok (
          linked head buffer mine (length (front ++ here)) objects,
          length (front ++ (here ++ later)),
        ) =
      ap (read_objects head buffer (length objects) mine (length (front ++ here))) e₂
      ∙ read_objects-bytes head buffer mine objects (front ++ here) rest v.1 size'
      ∙ ap (λ t. ok (linked head buffer mine (length (front ++ here)) objects, length t))
          (append_assoc front here later) in
    let end : length (front ++ here) ≡ length front + 40 + o.path_length = omega (
      arith,
      length-append front here,
      length-append (object_struct_bytes o) o.data_bytes,
      length-object_struct_bytes o,
      v.0.whole,
    ) in
    rw (first, others)
      (ap
        (λ t. ok (
          record o { next = if length objects == 0 then head else buffer + t; prev = prev }
              ∷ linked head buffer mine t objects,
          length (front ++ (here ++ later)),
        ))
        end)

length-response_header_bytes : (h : ResponseHeader) → length (response_header_bytes h) ≡ 8
unfolding response_header_bytes u32_bytes
length-response_header_bytes h = refl

module _ (head buffer sequence : ℕ) (objects : List Object) (rest : Bytes) (s : IsU32 sequence)
    (n : IsU32 (length objects)) (v : All IsObject objects)
    (fits : length (objects_bytes objects) ≤ length objects * (40 + 1024)) where
  abbrev page_header : ResponseHeader
  page_header = record { error_id = 0; sequence = sequence }

  abbrev page_front : Bytes
  page_front = response_header_bytes page_header ++ u32_bytes (length objects)

  page_buf : Bytes
  page_buf = page_front ++ (objects_bytes objects ++ rest)

  length-page_front : length page_front ≡ 12
  length-page_front = omega (
    arith,
    length-append (response_header_bytes page_header) (u32_bytes (length objects)),
    length-response_header_bytes page_header,
    length-u32_bytes (length objects),
  )

  object_response_decoder-page :
      object_response_decoder head buffer object_list page_buf
      ≡ ok (
        record {
          header = page_header;
          body = listed (length objects) (linked head buffer head 12 objects);
        },
        rest,
      )
  unfolding object_response_decoder page_buf
  object_response_decoder-page =
      let behind = u32_bytes (length objects) ++ (objects_bytes objects ++ rest) in
      let apart : page_buf ≡ response_header_bytes page_header ++ behind =
        append_assoc (response_header_bytes page_header) (u32_bytes (length objects))
          (objects_bytes objects ++ rest) in
      let header =
        ap read_response_header apart
        ∙ read_response_header-bytes page_header behind (omega arith) s in
      let body : drop 8 page_buf ≡ behind =
        ap (drop 8) apart
        ∙ ap (λ t. drop t (response_header_bytes page_header ++ behind))
            (sym (length-response_header_bytes page_header))
        ∙ drop-append (response_header_bytes page_header) behind in
      let number = read_u32-u32_bytes (length objects) (objects_bytes objects ++ rest) n in
      let all : read_objects head buffer (length objects) head 12 page_buf
          ≡ ok (linked head buffer head 12 objects, length (page_front ++ objects_bytes objects)) =
        ap (λ t. read_objects head buffer (length objects) head t page_buf) (sym length-page_front)
        ∙ read_objects-bytes head buffer head objects page_front rest v
            (omega (arith, length-page_front, fits, n))
        ∙ ap
            (λ t.
              ok (linked head buffer head t objects, length (page_front ++ objects_bytes objects)))
            length-page_front in
      let left : drop (length (page_front ++ objects_bytes objects)) page_buf ≡ rest =
        ap (drop (length (page_front ++ objects_bytes objects)))
          (sym (append_assoc page_front (objects_bytes objects) rest))
        ∙ drop-append (page_front ++ objects_bytes objects) rest in
      rw (header, body, number, all, left) refl

  object_response_encoder-page :
      encode_object_response object_list
        (record { header = page_header; body = listed (length objects) objects })
      ≡ ok (
          response_header_bytes page_header
          ++ (u32_bytes (length objects) ++ objects_bytes objects))
  unfolding encode_object_response
  object_response_encoder-page =
      let room : leb (length (objects_bytes objects)) (length objects * (40 + 1024)) ≡ true =
        ground arith in
      rw (object_list_bytes-whole objects v, room) refl

  -- A page of objects whose arrays are their paths, with 1024 bytes for each path on average at most, is
  -- encoded without an overflow of the buffer, to bytes from whose front the client's decoder reads
  -- the same page and leaves the rest, with the links of the objects set to those of the list that it
  -- builds: to the objects' places in the response, and to the head of the list at both ends.
  pub object_list-decoder-encoder :
      (buf : Bytes) × (encode_object_response object_list
          (record { header = page_header; body = listed (length objects) objects })
        ≡ ok buf)
      × (object_response_decoder head buffer object_list (buf ++ rest)
          ≡ ok (
            record {
              header = page_header;
              body = listed (length objects) (linked head buffer head 12 objects);
            },
            rest,
          ))
  unfolding page_buf
  object_list-decoder-encoder =
      let whole : (response_header_bytes page_header
              ++ (u32_bytes (length objects) ++ objects_bytes objects))
            ++ rest
          ≡ page_buf =
        simp (append_assoc) in
      (
        _,
        object_response_encoder-page,
        ap (object_response_decoder head buffer object_list) whole ∙ object_response_decoder-page,
      )
