-- ===== src/Server/Rounds.antt =====
-- The rounds of the decoding loop of a server, as a relation.
use muti.Common.{
  ℕ, zero, suc, ◌<◌, ◌≤◌, ◌≡◌, refl, sym, ◌∙◌, subst, List, [], ◌∷◌, ◌++◌, length, true, false,
  Option, none, some, ok, failed, aborted, ◌>>=◌, >>=-eq-ok, ltb, lt→ltb, Outcome-cases, Bool-cases,
  inl, inr, ◌⊎◌, arith,
}
use muti.Wire.{Bytes, Reader, read_u16}
use muti.Server.{Decoded, decoder_of, front_decoder, decode_loop}

-- A decoder takes a byte at least, and what it reads off a buffer it reads off a longer one too.
pub record IsStable {ℓ} {R : Type ℓ} (read : Reader R) : Type ℓ where
  pub more :
      (buf rest extra : Bytes) (r : R)
      → read buf ≡ ok (r, rest)
      → read (buf ++ extra) ≡ ok (r, rest ++ extra)
  pub shorter : (buf rest : Bytes) (r : R) → read buf ≡ ok (r, rest) → length rest < length buf

module _ {ℓ} {R : Type ℓ} (request_handler : List (Option (ℕ → Option (Reader R)))) where
  -- The handlers' decoders are such.
  pub record IsHandled : Type ℓ where
    pub stable :
        (resource_id request_id : ℕ) (read : Reader R)
        → decoder_of request_handler resource_id request_id ≡ ok (some read)
        → IsStable read

  -- The decoder is picked by the first four bytes.
  pub front_decoder-append :
      (buf extra : Bytes)
      → 4 ≤ length buf
      → front_decoder request_handler (buf ++ extra) ≡ front_decoder request_handler buf
  unfolding front_decoder read_u16
  front_decoder-append [] extra h = absurd (omega arith)
  front_decoder-append (b0 ∷ []) extra h = absurd (omega arith)
  front_decoder-append (b0 ∷ b1 ∷ []) extra h = absurd (omega arith)
  front_decoder-append (b0 ∷ b1 ∷ b2 ∷ []) extra h = absurd (omega arith)
  front_decoder-append (b0 ∷ b1 ∷ b2 ∷ b3 ∷ buf) extra h = refl

  pub front_decoder-IsStable :
      IsHandled
      → (buf : Bytes) (read : Reader R) → front_decoder request_handler buf ≡ ok (some read)
      → IsStable read
  unfolding front_decoder
  front_decoder-IsStable h buf read e =
      let ((resource_id, buf₁), run₁, e₁) = >>=-eq-ok (read_u16 buf) _ e in
      let ((request_id, buf₂), run₂, e₂) = >>=-eq-ok (read_u16 buf₁) _ e₁ in
      h.stable resource_id request_id read e₂

  -- One round of the loop, by what the front of the buffer asks for.
  loop-short :
      (fuel : ℕ) (buf : Bytes)
      → length buf < 4
      → decode_loop request_handler (suc fuel) buf
        ≡ ok (record { requests = []; left = buf; is_open = true })
  unfolding decode_loop
  loop-short fuel buf h = rw (lt→ltb (length buf) 4 h) refl

  loop-closed :
      (fuel : ℕ) (buf : Bytes)
      → 4 ≤ length buf
      → front_decoder request_handler buf ≡ ok none
      → decode_loop request_handler (suc fuel) buf
        ≡ ok (record { requests = []; left = buf; is_open = false })
  unfolding decode_loop
  loop-closed fuel buf h e =
      let long : ltb (length buf) 4 ≡ false = ground arith in rw (long, e) refl

  loop-failed :
      (fuel : ℕ) (buf : Bytes) (read : Reader R)
      → 4 ≤ length buf
      → front_decoder request_handler buf ≡ ok (some read)
      → read buf ≡ failed
      → decode_loop request_handler (suc fuel) buf
        ≡ ok (record { requests = []; left = buf; is_open = true })
  unfolding decode_loop
  loop-failed fuel buf read h e f =
      let long : ltb (length buf) 4 ≡ false = ground arith in ground (arith, long, e, f)

  pub loop-request :
      (fuel : ℕ) (buf rest : Bytes) (read : Reader R) (r : R)
      → 4 ≤ length buf
      → front_decoder request_handler buf ≡ ok (some read)
      → read buf ≡ ok (r, rest)
      → decode_loop request_handler (suc fuel) buf ≡ (
          decode_loop request_handler fuel rest >>= λ d.
          ok (record d { requests = r ∷ d.requests }))
  unfolding decode_loop
  loop-request fuel buf rest read r h e f =
      let long : ltb (length buf) 4 ≡ false = ground arith in ground (arith, long, e, f)

  -- The rounds of a loop that did not abort.
  pub data Rounds : Bytes → Decoded R → Type ℓ where
    short :
        (buf : Bytes)
        → length buf < 4
        → Rounds buf (record { requests = []; left = buf; is_open = true })
    closed :
        (buf : Bytes)
        → 4 ≤ length buf
        → front_decoder request_handler buf ≡ ok none
        → Rounds buf (record { requests = []; left = buf; is_open = false })
    waits :
        (buf : Bytes) (read : Reader R)
        → 4 ≤ length buf
        → front_decoder request_handler buf ≡ ok (some read)
        → read buf ≡ failed
        → Rounds buf (record { requests = []; left = buf; is_open = true })
    takes :
        (buf rest : Bytes) (read : Reader R) (r : R) (d : Decoded R)
        → 4 ≤ length buf
        → front_decoder request_handler buf ≡ ok (some read)
        → read buf ≡ ok (r, rest)
        → Rounds rest d
        → Rounds buf (record d { requests = r ∷ d.requests })

  -- With fuel for each byte and one more, the loop makes its rounds.
  pub Rounds-loop :
      IsHandled
      → (fuel : ℕ) (buf : Bytes) (d : Decoded R) → length buf < fuel
      → Rounds buf d
      → decode_loop request_handler fuel buf ≡ ok d
  Rounds-loop h zero buf d lt r = absurd (omega arith)
  Rounds-loop h (suc fuel) buf d lt (short _ s) = loop-short fuel buf s
  Rounds-loop h (suc fuel) buf d lt (closed _ l e) = loop-closed fuel buf l e
  Rounds-loop h (suc fuel) buf d lt (waits _ read l e f) = loop-failed fuel buf read l e f
  Rounds-loop h (suc fuel) buf d lt (takes _ rest read r d' l e f q) =
      let less = (front_decoder-IsStable h buf read e).shorter buf rest r f in
      let tail = Rounds-loop h fuel rest d' (omega arith) q in
      loop-request fuel buf rest read r l e f ∙ rw tail refl

  loop-stuck :
      (fuel : ℕ) (buf : Bytes)
      → 4 ≤ length buf
      → (front_decoder request_handler buf ≡ failed) ⊎ (front_decoder request_handler buf ≡ aborted)
      → (d : Decoded R) → decode_loop request_handler (suc fuel) buf ≡ ok d
      → Rounds buf d
  unfolding decode_loop
  loop-stuck fuel buf h (inl e) d f =
      let long : ltb (length buf) 4 ≡ false = ground arith in absurd (ground (arith, long, e, f))
  loop-stuck fuel buf h (inr e) d f =
      let long : ltb (length buf) 4 ≡ false = ground arith in absurd (ground (arith, long, e, f))

  loop-aborted :
      (fuel : ℕ) (buf : Bytes) (read : Reader R)
      → 4 ≤ length buf
      → front_decoder request_handler buf ≡ ok (some read)
      → read buf ≡ aborted
      → decode_loop request_handler (suc fuel) buf ≡ aborted
  unfolding decode_loop
  loop-aborted fuel buf read h e f =
      let long : ltb (length buf) 4 ≡ false = ground arith in ground (arith, long, e, f)

  -- A loop that did not abort made such rounds.
  pub loop-Rounds :
      (fuel : ℕ) (buf : Bytes) (d : Decoded R)
      → decode_loop request_handler fuel buf ≡ ok d
      → Rounds buf d
  unfolding decode_loop
  loop-Rounds zero buf d e = cc
  loop-Rounds (suc fuel) buf d e = elim (Bool-cases (ltb (length buf) 4)) [
    | inl s ↦
        let same : record { requests = []; left = buf; is_open = true } ≡ d =
          ground (arith, s, e) in
        subst (Rounds buf) same (short buf (ground arith))
    | inr l ↦
        let long : 4 ≤ length buf = ground arith in
        elim (Outcome-cases (front_decoder request_handler buf)) [
          | inr stuck ↦ loop-stuck fuel buf long stuck d e
          | inl (none, f) ↦
              let done = sym (loop-closed fuel buf long f) ∙ e in
              let same : record { requests = []; left = buf; is_open = false } ≡ d = cc in
              subst (Rounds buf) same (closed buf long f)
          | inl (some read, f) ↦ elim (Outcome-cases (read buf)) [
            | inr (inl g) ↦
                let done = sym (loop-failed fuel buf read long f g) ∙ e in
                let same : record { requests = []; left = buf; is_open = true } ≡ d = cc in
                subst (Rounds buf) same (waits buf read long f g)
            | inr (inr g) ↦ let done = sym (loop-aborted fuel buf read long f g) ∙ e in absurd cc
            | inl ((r, rest), g) ↦
                let done = sym (loop-request fuel buf rest read r long f g) ∙ e in
                let (d', run, step) = >>=-eq-ok (decode_loop request_handler fuel rest) _ done in
                let same : record d' { requests = r ∷ d'.requests } ≡ d = cc in
                subst (Rounds buf) same
                  (takes buf rest read r d' long f g (loop-Rounds fuel rest d' run))
          ]
        ]
  ]
