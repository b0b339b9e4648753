-- ===== src/Server/Stream.antt =====
-- The requests of a byte stream do not depend on how the reads cut it.
use muti.Common.{
  Option-cases, some, ltb, suc, zero, ℕ, suc, ◌≤◌, ◌≡◌, sym, ap, ◌∙◌, subst, List, [], ◌∷◌, ◌++◌,
  append_assoc, append-nil, length, length-append, flatten, true, Option, Outcome, ok, ◌>>=◌,
  >>=-eq-ok, if◌then◌else◌, Bool-cases, inl, inr, arith,
}
use muti.Wire.{Bytes, Reader}
use muti.Server.{front_decoder, decode_one, decode_refused, Decoded, decode_requests}
use muti.Server.Rounds.{
  front_decoder-IsStable, IsHandled, front_decoder-append, front_decoder-IsStable, Rounds, short,
  closed, waits, takes, Rounds-loop, loop-Rounds,
}

module _ {ℓ} {R : Type ℓ} (request_handler : List (Option (ℕ → Option (Reader R)))) where
  -- More bytes behind a buffer whose rounds ended open: the same requests come first, and the loop
  -- goes on with what was left.
  Rounds-append :
      IsHandled request_handler
      → {buf : Bytes} {d : Decoded R} (extra : Bytes) (d' : Decoded R)
      → Rounds request_handler buf d
      → d.is_open ≡ true
      → Rounds request_handler (d.left ++ extra) d'
      → Rounds request_handler (buf ++ extra) (record d' { requests = d.requests ++ d'.requests })
  Rounds-append h extra d' (short buf s) o next = next
  Rounds-append h extra d' (closed buf l e) o next = absurd cc
  Rounds-append h extra d' (waits buf read l e f) o next = next
  Rounds-append h extra d' (takes buf rest read r d l e f q) o next =
      let stable = front_decoder-IsStable request_handler h buf read e in
      takes (buf ++ extra) (rest ++ extra) read r _ (omega (arith, length-append buf extra))
        (front_decoder-append request_handler buf extra l ∙ e) (stable.more buf rest extra r f)
        (Rounds-append h extra d' q o next)

  -- The reads of an open connection one after another: each adds its bytes to what the last one left.
  unfoldable pub decode_reads : Bytes → List Bytes → Outcome (Decoded R)
  unfolding decode_requests
  decode_reads left [] = ok (record { requests = []; left = left; is_open = true })
  decode_reads left (bytes ∷ reads) = do
    d ← decode_requests request_handler (left ++ bytes)
    let rest = do
      d' ← decode_reads d.left reads
      ok (record d' { requests = d.requests ++ d'.requests })
    if d.is_open then rest else ok d

  -- What is left of an open loop is not enough for a round.
  Rounds-left :
      {buf : Bytes} {d : Decoded R}
      → Rounds request_handler buf d
      → Rounds request_handler d.left (record d { requests = [] })
  Rounds-left (short buf s) = short buf s
  Rounds-left (closed buf l e) = closed buf l e
  Rounds-left (waits buf read l e f) = waits buf read l e f
  Rounds-left (takes buf rest read r d l e f q) = Rounds-left q

  -- The loop leaves a part of what there was.
  Rounds-shorter :
      IsHandled request_handler
      → {buf : Bytes} {d : Decoded R} → Rounds request_handler buf d
      → length d.left ≤ length buf
  Rounds-shorter h (short buf s) = omega arith
  Rounds-shorter h (closed buf l e) = omega arith
  Rounds-shorter h (waits buf read l e f) = omega arith
  Rounds-shorter h (takes buf rest read r d l e f q) = omega (
    arith,
    (front_decoder-IsStable request_handler h buf read e).shorter buf rest r f,
    Rounds-shorter h q,
  )

  pub decode_requests-shorter :
      IsHandled request_handler
      → (buf : Bytes) (d : Decoded R) → decode_requests request_handler buf ≡ ok d
      → length d.left ≤ length buf
  unfolding decode_requests
  decode_requests-shorter h buf d e =
      Rounds-shorter h (loop-Rounds request_handler (suc (length buf)) buf d e)

  Rounds-reads :
      IsHandled request_handler
      → (reads : List Bytes) (left : Bytes) (d : Decoded R)
      → Rounds request_handler left (record { requests = []; left = left; is_open = true })
      → decode_reads left reads ≡ ok d
      → d.is_open ≡ true
      → Rounds request_handler (left ++ flatten reads) d
  unfolding decode_reads decode_requests flatten
  Rounds-reads h [] left d q e o =
      let same : record { requests = []; left = left; is_open = true } ≡ d = cc in
      subst (λ b. Rounds request_handler b d) (sym (append-nil left))
        (subst (Rounds request_handler left) same q)
  Rounds-reads h (bytes ∷ reads) left d q e o =
      let (d₁, run, step) = >>=-eq-ok (decode_requests request_handler (left ++ bytes)) _ e in
      let first : Rounds request_handler (left ++ bytes) d₁ =
        loop-Rounds request_handler (suc (length (left ++ bytes))) (left ++ bytes) d₁ run in
      elim (Bool-cases d₁.is_open) [
        | inr shut ↦ absurd (ground (arith, shut, step, o))
        | inl up ↦
            let rest = rw up at step in
            let (d₂, run₂, step₂) = >>=-eq-ok (decode_reads d₁.left reads) _ rest in
            let same : record d₂ { requests = d₁.requests ++ d₂.requests } ≡ d = cc in
            let waiting : Rounds request_handler d₁.left
                (record { requests = []; left = d₁.left; is_open = true }) =
              subst
                (λ t.
                  Rounds request_handler d₁.left
                    (record { requests = []; left = d₁.left; is_open = t }))
                up (Rounds-left first) in
            let up₂ : d₂.is_open ≡ true = ap (λ (t : Decoded R). t.is_open) same ∙ o in
            let later = Rounds-reads h reads d₁.left d₂ waiting run₂ up₂ in
            subst (Rounds request_handler (left ++ (bytes ++ flatten reads))) same (
              subst
                (λ b.
                  Rounds request_handler b (record d₂ { requests = d₁.requests ++ d₂.requests }))
                (append_assoc left bytes (flatten reads))
                (Rounds-append h (flatten reads) d₂ first up later))
      ]

  decode_one-shorter :
      IsHandled request_handler
      → (buf rest : Bytes) (r : R) → decode_one request_handler buf ≡ ok (r, rest)
      → length rest ≤ length buf
  unfolding decode_one
  decode_one-shorter h buf rest r e = elim (Bool-cases (ltb (length buf) 4)) [
    | inl low ↦ absurd (ground (arith, low, e))
    | inr long ↦
        let whole = rw long at e in
        let (decoder, run, step) = >>=-eq-ok (front_decoder request_handler buf) _ whole in
        elim (Option-cases decoder) [
          | inl missing ↦ absurd (ground (arith, missing, step))
          | inr (read, there) ↦
              let picked : front_decoder request_handler buf ≡ ok (some read) =
                ground (arith, run, there) in
              let stable = front_decoder-IsStable request_handler h buf read picked in
              omega (arith, stable.shorter buf rest r (ground (arith, there, step)))
        ]
  ]

  pub decode_refused-shorter :
      IsHandled request_handler
      → (n : ℕ) (buf : Bytes) (requests : List R) (left : Bytes)
      → decode_refused request_handler n buf ≡ ok (requests, left)
      → length left ≤ length buf
  unfolding decode_refused
  decode_refused-shorter h zero buf requests left e =
      let ((r, rest), run, step) = >>=-eq-ok (decode_one request_handler buf) _ e in
      ground (arith, decode_one-shorter h buf rest r run, step)
  decode_refused-shorter h (suc n) buf requests left e =
      let ((r, rest), run, step) = >>=-eq-ok (decode_one request_handler buf) _ e in
      let ((rs, left'), run', step') = >>=-eq-ok (decode_refused request_handler n rest) _ step in
      ground (
        arith,
        decode_one-shorter h buf rest r run,
        decode_refused-shorter h n rest rs left' run',
        step',
      )

  -- For handlers whose decoders take a byte at least, and read off a longer buffer what they read off
  -- its front: if a connection stays open over some reads, the requests that were decoded from them
  -- and the bytes that stay are those of one read that brings all the bytes.
  pub reads-together :
      IsHandled request_handler
      → (reads : List Bytes) (d : Decoded R) → decode_reads [] reads ≡ ok d
      → d.is_open ≡ true
      → decode_requests request_handler (flatten reads) ≡ ok d
  unfolding decode_requests
  reads-together h reads d e o =
      let rounds = Rounds-reads h reads [] d (short [] (omega arith)) e o in
      Rounds-loop request_handler h (suc (length (flatten reads))) (flatten reads) d (omega arith)
        rounds
