-- ===== src/Server/Buffers/Runs.antt =====
-- What holds of a connection after any callbacks in any order.
use muti.Common.{
  ℕ, ◌≤◌, ◌≡◌, refl, sym, subst, ◌+◌, ◌∙◌, List, [], ◌∷◌, ◌++◌, length-append, inl, inr, length,
  count, drop_one, if◌then◌else◌, true, false, Option, none, Outcome, ok, failed, aborted, ◌>>=◌,
  arith, Option-cases,
}
use muti.Wire.{Bytes, Reader}
use muti.Server.{
  ServerParam, SConnection, server_on_connect, server_read_callback, server_read_refused,
  decode_refused, after_decoding, decode_requests, Decoded, server_read_failed,
  server_do_action_callback, server_on_close, server_write_callback,
}
use muti.Common.Live.{live, refers, live-none}
use muti.Server.Buffers.{
  Event, read_came, read_refused, read_failed, acted, written, closed, handle, IsEnabled, Reach,
  connected, happened,
}
use muti.Server.Buffers.Sound.{IsSound}
use muti.Server.Buffers.Steps.{
  server_on_connect-IsSound, after_decoding-IsSound, refused-IsSound, server_read_failed-IsSound,
  server_do_action_callback-IsSound, server_on_close-IsSound,
}
use muti.Server.Rounds.{IsHandled}
use muti.Server.Stream.{decode_requests-shorter, decode_refused-shorter}
use muti.Server.Buffers.Room.{
  IsRoomy, same-IsRoomy, after_decoding-IsRoomy, free_read_buffer-IsRoomy,
}
use muti.Server.Buffers.Tallies.{
  IsTallied, refused-IsTallied, after_decoding-IsTallied, server_read_failed-IsTallied,
  server_do_action_callback-IsTallied, server_write_callback-IsTallied, server_on_close-IsTallied,
}

length-none : (xs : List ℕ) → length xs ≡ 0 → (k : ℕ) → count k xs ≡ 0
length-none [] e k = refl
length-none (x ∷ xs) e k = absurd (omega (arith, e))

pass_on {ℓ κ} :
    {A : Type ℓ} {B : Type κ} (m : Outcome A) (b : B)
    → (◌>>=◌ {B = B × A} m (λ a. ok (b, a)) >>= λ r. ok r.1) ≡ m
pass_on (ok a) b = refl
pass_on failed b = refl
pass_on aborted b = refl

counted_on {ℓ κ} :
    {A : Type ℓ} {B : Type κ} (m : Outcome A) (f : A → A) (b : B) (a' : A)
    → (◌>>=◌ {B = B × A} m (λ a. ok (b, f a)) >>= λ r. ok r.1) ≡ ok a'
    → (a : A) × (m ≡ ok a) × (f a ≡ a')
counted_on (ok a) f b a' e = (a, refl, cc)
counted_on failed f b a' e = cc
counted_on aborted f b a' e = cc

close_keeps_writes :
    (c : SConnection)
    → ((server_on_close c).write_counter ≡ c.write_counter)
      × ((server_on_close c).write_done_counter ≡ c.write_done_counter)
unfolding server_on_close
close_keeps_writes c = ground arith

-- A close handler leaves no parked buffer.
closed_holds_none :
    (c : SConnection)
    → c.reading ≡ none
    → length c.inflight ≡ 0
    → (k : ℕ)
    → count k (server_on_close c).inflight
        + refers (server_on_close c).reading k
        + refers (server_on_close c).to_read_buf k
      ≡ 0
unfolding server_on_close
closed_holds_none c e none_left k = elim (Option-cases c.to_read_buf) [
  | inl f ↦ ground (arith, f, e, none_left, length-none c.inflight none_left k)
  | inr (b, f) ↦ ground (arith, f, e, none_left, length-none c.inflight none_left k)
]

module _ {R : Type 0} (p : ServerParam) (request_handler : List (Option (ℕ → Option (Reader R))))
    (two : 2 ≤ p.max_read_buffer_counter) where
  handle-IsSound :
      (e : Event) (c : SConnection)
      → IsEnabled p request_handler e c
      → IsSound p [] c
      → (c' : SConnection) × (handle p request_handler e c ≡ ok c') × IsSound p [] c'
  unfolding handle server_read_callback server_read_refused server_write_callback
  handle-IsSound (read_came b bytes) c (reading, fits, (d, decoded)) h =
      let (c', run, sound) = after_decoding-IsSound p two b (length bytes) d c reading h in
      (c', rw (decoded, run) refl, sound)
  handle-IsSound (read_refused b bytes n) c (reading, fits, (requests, left, decoded)) h =
      let d : Decoded R = record { requests = requests; left = left; is_open = false } in
      let (c', run, sound) = after_decoding-IsSound p two b (length bytes) d c reading h in
      (
        _,
        rw (decoded, run) refl,
        refused-IsSound p two (c'.received_request_counter + 1) (c'.sent_request_counter + 1) c'
            sound,
      )
  handle-IsSound (read_failed b) c reading h = server_read_failed-IsSound p two b c reading h
  handle-IsSound (acted b rc) c some_request h =
      server_do_action_callback-IsSound p two b rc c some_request h
  handle-IsSound written c some_write h = (
    server_write_callback c,
    refl,
    record {
      references = h.references;
      fresh = h.fresh;
      counter = h.counter;
      limit = h.limit;
      reads = h.reads;
      parks = h.parks;
    },
  )
  handle-IsSound closed c all h = (server_on_close c, refl, server_on_close-IsSound p two c h)

  -- The callback of a read, once its requests are decoded.
  read_came-handle :
      (b : ℕ) (bytes : Bytes) (c : SConnection) (d : Decoded R)
      → decode_requests request_handler (c.content ++ bytes) ≡ ok d
      → handle p request_handler (read_came b bytes) c ≡ after_decoding p b (length bytes) true c d
  unfolding handle server_read_callback
  read_came-handle b bytes c d decoded =
      rw decoded (pass_on (after_decoding p b (length bytes) true c d) d.requests)

  -- The callback of a read with a refused job, once the requests before it are decoded.
  read_refused-handle :
      (b n : ℕ) (bytes : Bytes) (c c' : SConnection) (requests : List R) (left : Bytes)
      → decode_refused request_handler n (c.content ++ bytes) ≡ ok (requests, left)
      → handle p request_handler (read_refused b bytes n) c ≡ ok c'
      → (c₁ : SConnection) × (after_decoding p b
            (length bytes)
            true
            c
            (record { requests = requests; left = left; is_open = false })
          ≡ ok c₁)
        × (record c₁ {
          received_request_counter = c₁.received_request_counter + 1;
          sent_request_counter = c₁.sent_request_counter + 1;
        }
            ≡ c')
  unfolding handle server_read_refused
  read_refused-handle b n bytes c c' requests left decoded e =
      let d : Decoded R = record { requests = requests; left = left; is_open = false } in
      counted_on (after_decoding p b (length bytes) true c d)
        (λ c₁. record c₁ {
          received_request_counter = c₁.received_request_counter + 1;
          sent_request_counter = c₁.sent_request_counter + 1;
        })
        requests c' (rw decoded at e)

  handle-IsTallied :
      (e : Event) (c c' : SConnection)
      → IsEnabled p request_handler e c
      → handle p request_handler e c ≡ ok c'
      → IsTallied c
      → IsTallied c'
  unfolding handle server_read_callback
  handle-IsTallied (read_came b bytes) c c' (reading, fits, (d, decoded)) e h =
      after_decoding-IsTallied p b (length bytes) true c c' d
        (sym (read_came-handle b bytes c d decoded) ∙ e) h
  handle-IsTallied (read_refused b bytes n) c c' (reading, fits, (requests, left, decoded)) e h =
      let (c₁, run, same) = read_refused-handle b n bytes c c' requests left decoded e in
      subst IsTallied same (
        refused-IsTallied c₁ (
          after_decoding-IsTallied p b (length bytes) true c c₁
            (record { requests = requests; left = left; is_open = false }) run h))
  handle-IsTallied (read_failed b) c c' reading e h = server_read_failed-IsTallied p b c c' e h
  handle-IsTallied (acted b rc) c c' some_request e h =
      server_do_action_callback-IsTallied p b rc c c' some_request e h
  handle-IsTallied written c c' some_write e h =
      let same : server_write_callback c ≡ c' = cc in
      subst IsTallied same (server_write_callback-IsTallied c some_write h)
  handle-IsTallied closed c c' all e h =
      let same : server_on_close c ≡ c' = cc in subst IsTallied same (server_on_close-IsTallied c h)

  reachable-IsSound : {c : SConnection} → Reach p request_handler c → IsSound p [] c
  reachable-IsSound connected = server_on_connect-IsSound p two
  reachable-IsSound (happened {c} {c'} e r enabled run) =
      let (c₁, run₁, sound) = handle-IsSound e c enabled (reachable-IsSound r) in
      let same : c₁ ≡ c' = cc in subst (IsSound p []) same sound

  handle-IsRoomy :
      IsHandled request_handler
      → (e : Event) (c c' : SConnection) → IsSound p [] c
      → IsEnabled p request_handler e c
      → handle p request_handler e c ≡ ok c'
      → IsRoomy p c
      → IsRoomy p c'
  unfolding handle server_read_failed server_do_action_callback server_write_callback
      server_on_close
  handle-IsRoomy stable (read_came b bytes) c c' h (reading, fits, (d, decoded)) e roomy =
      let less = decode_requests-shorter request_handler stable (c.content ++ bytes) d decoded in
      after_decoding-IsRoomy p b (length bytes) c c' d (h.reads b reading).0 fits
        (omega (arith, less, length-append c.content bytes))
        (sym (read_came-handle b bytes c d decoded) ∙ e)
  handle-IsRoomy stable (read_refused b bytes n) c c' h (reading, fits, (requests, left, decoded)) e
        roomy =
      let (c₁, run, same) = read_refused-handle b n bytes c c' requests left decoded e in
      let less =
        decode_refused-shorter request_handler stable n (c.content ++ bytes) requests left
          decoded in
      subst (IsRoomy p) same (
        same-IsRoomy p c₁ _ refl refl (inr refl) (inr refl) (
          after_decoding-IsRoomy p b (length bytes) c c₁
            (record { requests = requests; left = left; is_open = false }) (h.reads b reading).0
            fits (omega (arith, less, length-append c.content bytes)) run))
  handle-IsRoomy stable (read_failed b) c c' h reading e roomy =
      free_read_buffer-IsRoomy p b (record c { reading = none }) c' e
        (same-IsRoomy p c (record c { reading = none }) refl refl (inl refl) (inr refl) roomy)
  handle-IsRoomy stable (acted b rc) c c' h some_request e roomy =
      let c₁ = record c { inflight = drop_one b c.inflight; write_counter = c.write_counter + 1 } in
      let c₂ = record c₁ {
        sent_request_counter = c.sent_request_counter + 1;
        write_done_counter = c.write_done_counter + 1;
      } in
      free_read_buffer-IsRoomy p b (if rc then c₁ else c₂) c' e (
        same-IsRoomy p c (if rc then c₁ else c₂) (ground arith) (ground arith) (inr (ground arith))
          (inr (ground arith)) roomy)
  handle-IsRoomy stable written c c' h some_write e roomy =
      let same : server_write_callback c ≡ c' = cc in
      subst (IsRoomy p) same
        (same-IsRoomy p c (server_write_callback c) refl refl (inr refl) (inr refl) roomy)
  handle-IsRoomy stable closed c c' h all e roomy =
      let same : server_on_close c ≡ c' = cc in
      subst (IsRoomy p) same (
        same-IsRoomy p c (server_on_close c) (ground arith) (ground arith) (ground arith)
          (ground arith) roomy)

  reachable-IsTallied : {c : SConnection} → Reach p request_handler c → IsTallied c
  unfolding server_on_connect
  reachable-IsTallied connected = record {
    refused = 0;
    received = refl;
    sent = refl;
    done = omega arith;
  }
  reachable-IsTallied (happened {c} {c'} e r enabled run) =
      handle-IsTallied e c c' enabled run (reachable-IsTallied r)

  -- After any callbacks of a connection, one after another, whose reads start when they are asked for
  -- and bring no more bytes than they have room for, of a server that allows two read buffers at least: there are no
  -- more read buffers than the server allows, and its counter has their number.
  pub read_buffers_bounded :
      {c : SConnection}
      → Reach p request_handler c
      → (c.read_counter ≡ live c.next_buffer c.reference)
        × (c.read_counter ≤ p.max_read_buffer_counter)
  read_buffers_bounded r = let h = reachable-IsSound r in (h.counter, h.limit)

  -- After any callbacks of a connection, one after another, whose reads start when they are asked for
  -- and bring no more bytes than they have room for, of a server that allows two read buffers at least: once its
  -- read has come back and as many answers were sent as requests were received, neither loop of its
  -- close handler waits.
  pub close_does_not_wait :
      {c : SConnection}
      → Reach p request_handler c
      → c.reading ≡ none
      → c.sent_request_counter ≡ c.received_request_counter
      → ((server_on_close c).read_counter ≡ 0)
        × ((server_on_close c).write_counter ≡ (server_on_close c).write_done_counter)
  close_does_not_wait {c} r e drained =
      let tallied = reachable-IsTallied r in
      let closed_sound = server_on_close-IsSound p two c (reachable-IsSound r) in
      let unheld =
        closed_holds_none c e
          (ground (arith, tallied.received, tallied.sent, tallied.done, drained)) in
      let all_freed =
        live-none (server_on_close c).next_buffer (server_on_close c).reference
          (λ k. ground (arith, closed_sound.references k, unheld k)) in
      (
        closed_sound.counter ∙ all_freed,
        ground (arith, tallied.received, tallied.sent, tallied.done, drained, close_keeps_writes c),
      )

  -- After any callbacks of a connection, one after another, whose reads start when they are asked for
  -- and bring no more bytes than they have room for, of a server that allows two read buffers at least: every
  -- handler that can run next returns, so that it frees no read buffer that was freed and parks none
  -- where one is parked.
  pub handlers_return :
      {c : SConnection} (e : Event)
      → Reach p request_handler c
      → IsEnabled p request_handler e c
      → (c' : SConnection) × (handle p request_handler e c ≡ ok c')
  handlers_return e r enabled =
      let (c', run, sound) = handle-IsSound e _ enabled (reachable-IsSound r) in (c', run)

  -- After any callbacks of a connection, one after another, whose reads start when they are asked for
  -- and bring no more bytes than they have room for, of a server that allows two read buffers at least: if each
  -- decoder takes a byte at least, and reads off a longer buffer what it reads off its front, the bytes before the place where the next read starts are within a
  -- buffer, and a read that runs or waits has room for a byte, unless none of those bytes is processed.
  pub reads_have_room :
      {c : SConnection} → IsHandled request_handler → Reach p request_handler c → IsRoomy p c
  unfolding server_on_connect
  reads_have_room stable connected = record { within = omega arith; spare = inr (inr refl) }
  reads_have_room stable (happened {c} {c'} e r enabled run) =
      handle-IsRoomy stable e c c' (reachable-IsSound r) enabled run (reads_have_room stable r)
