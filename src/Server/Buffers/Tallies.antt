-- ===== src/Server/Buffers/Tallies.antt =====
-- Each handler of a connection keeps the tally of the requests.
use muti.Common.{
  set_reference, ℕ, suc, ◌+◌, ◌-◌, ◌<◌, ◌≤◌, ◌≡◌, ◌∙◌, List, [], ◌∷◌, inl, inr, length, replicate,
  length-append, length-replicate, count, drop_one, Bool, true, false, none, ok, ◌>>=◌, >>=-eq-ok,
  ◌==◌, if◌then◌else◌, arith, Bool-cases, ltb,
}
use muti.Server.{
  ServerParam, SConnection, Decoded, free_read_buffer, queue_requests, read_into, park_or_read,
  server_read, read_out, after_decoding, server_read_failed, server_do_action_callback,
  server_write_callback, server_on_close,
}

length-drop_one : (b : ℕ) (xs : List ℕ) → 0 < count b xs → suc (length (drop_one b xs)) ≡ length xs
length-drop_one b [] pos = absurd (omega arith)
length-drop_one b (x ∷ xs) pos = ground (arith, length-drop_one b xs)

-- What the counters say of the requests, some of which the worker pool refused.
pub record IsTallied (c : SConnection) : Type 0 where
  pub refused : ℕ
  pub received : c.received_request_counter ≡ length c.inflight + c.write_counter + refused
  pub sent : c.sent_request_counter ≡ c.write_done_counter + refused
  pub done : c.write_done_counter ≤ c.write_counter

pub refused-IsTallied :
    (c : SConnection)
    → IsTallied c
    → IsTallied (record c {
      received_request_counter = c.received_request_counter + 1;
      sent_request_counter = c.sent_request_counter + 1;
    })
refused-IsTallied c h = record {
  refused = h.refused + 1;
  received = omega (arith, h.received);
  sent = omega (arith, h.sent);
  done = h.done;
}

-- What that depends on, which the handling of the buffers leaves as it is.
abbrev tally : SConnection → List ℕ × ((ℕ × ℕ) × (ℕ × ℕ))
tally c = (
  c.inflight,
  ((c.received_request_counter, c.sent_request_counter), (c.write_counter, c.write_done_counter)),
)

tally-IsTallied : (c c' : SConnection) → tally c ≡ tally c' → IsTallied c → IsTallied c'
tally-IsTallied c c' e h = record {
  refused = h.refused;
  received = ground (arith, h.received, e);
  sent = ground (arith, h.sent, e);
  done = ground (arith, h.done, e);
}

module _ (p : ServerParam) where
  free_read_buffer-tally :
      (b : ℕ) (c c' : SConnection) → free_read_buffer p b c ≡ ok c' → tally c ≡ tally c'
  unfolding free_read_buffer
  free_read_buffer-tally b c c' e = ground (arith, e)

  free_twice-tally :
      (b : ℕ) (c c' : SConnection)
      → (free_read_buffer p b c >>= free_read_buffer p b) ≡ ok c'
      → tally c ≡ tally c'
  free_twice-tally b c c' e =
      let (c₁, run, step) = >>=-eq-ok (free_read_buffer p b c) _ e in
      free_read_buffer-tally b c c₁ run ∙ free_read_buffer-tally b c₁ c' step

  read_into-tally :
      (b : ℕ) (rc : Bool) (c c' : SConnection) → read_into p b rc c ≡ ok c' → tally c ≡ tally c'
  unfolding read_into
  read_into-tally b true c c' e = ground (arith, e)
  read_into-tally b false c c' e = free_twice-tally b c c' e

  park_or_read-tally :
      (b : ℕ) (rc : Bool) (c c' : SConnection) → park_or_read p b rc c ≡ ok c' → tally c ≡ tally c'
  unfolding park_or_read
  park_or_read-tally b rc c c' e =
      let counted = record c { read_counter = c.read_counter + 1 } in
      elim (Bool-cases (c.read_counter + 1 == p.max_read_buffer_counter)) [
        | inl full ↦ ground (arith, full, e)
        | inr room ↦ read_into-tally b rc counted c' (ground (arith, room, e))
      ]

  server_read-tally :
      (b : ℕ) (rc : Bool) (c c' : SConnection) → server_read p b rc c ≡ ok c' → tally c ≡ tally c'
  unfolding server_read
  server_read-tally b rc c c' e =
      elim (Bool-cases (ltb (c.processed + length c.content) p.read_buffer_size)) [
        | inl space ↦ read_into-tally b rc c c' (ground (arith, space, e))
        | inr full ↦
            let made = record c {
              reference = set_reference c.reference c.next_buffer 1;
              next_buffer = suc c.next_buffer;
              processed = 0;
            } in
            let (c₁, run, step) =
              >>=-eq-ok (free_read_buffer p b made) (park_or_read p c.next_buffer rc)
                (ground (arith, full, e)) in
            free_read_buffer-tally b made c₁ run ∙ park_or_read-tally c.next_buffer rc c₁ c' step
      ]

  pub after_decoding-IsTallied {ℓ} :
      {R : Type ℓ} (b size : ℕ) (rc : Bool) (c c' : SConnection) (d : Decoded R)
      → after_decoding p b size rc c d ≡ ok c'
      → IsTallied c
      → IsTallied c'
  unfolding after_decoding queue_requests read_out
  after_decoding-IsTallied b size rc c c' d e h =
      let n = length d.requests in
      let held = record c {
        reference = set_reference c.reference b (c.reference b + 1);
        reading = none;
      } in
      let c₁ = record (queue_requests p b n held) {
        processed = c.processed + (length c.content + size - length d.left);
        content = d.left;
      } in
      let queued : IsTallied c₁ = record {
        refused = h.refused;
        received =
            omega
              (arith, h.received, length-append (replicate n b) c.inflight, length-replicate n b);
        sent = h.sent;
        done = h.done;
      } in
      let same : tally c₁ ≡ tally c' = elim (Bool-cases d.is_open) [
        | inl up ↦
            let (c₂, run, step) =
              >>=-eq-ok (server_read p b rc c₁) (free_read_buffer p b) (ground (arith, up, e)) in
            server_read-tally b rc c₁ c₂ run ∙ free_read_buffer-tally b c₂ c' step
        | inr shut ↦ free_twice-tally b c₁ c' (ground (arith, shut, e))
      ] in
      tally-IsTallied c₁ c' same queued

  pub server_read_failed-IsTallied :
      (b : ℕ) (c c' : SConnection) → server_read_failed p b c ≡ ok c' → IsTallied c → IsTallied c'
  unfolding server_read_failed
  server_read_failed-IsTallied b c c' e h =
      tally-IsTallied c c' (free_read_buffer-tally b (record c { reading = none }) c' e) h

  pub server_do_action_callback-IsTallied :
      (b : ℕ) (rc : Bool) (c c' : SConnection)
      → 0 < count b c.inflight
      → server_do_action_callback p b rc c ≡ ok c'
      → IsTallied c
      → IsTallied c'
  unfolding server_do_action_callback
  server_do_action_callback-IsTallied b rc c c' some_request e h =
      let c₁ = record c { inflight = drop_one b c.inflight; write_counter = c.write_counter + 1 } in
      let c₂ = record c₁ {
        sent_request_counter = c.sent_request_counter + 1;
        write_done_counter = c.write_done_counter + 1;
      } in
      let fewer = length-drop_one b c.inflight some_request in
      let answered : IsTallied (if rc then c₁ else c₂) = record {
        refused = h.refused;
        received = ground (arith, h.received, fewer);
        sent = ground (arith, h.sent);
        done = ground (arith, h.done);
      } in
      tally-IsTallied (if rc then c₁ else c₂) c'
        (free_read_buffer-tally b (if rc then c₁ else c₂) c' e) answered

pub server_write_callback-IsTallied :
    (c : SConnection)
    → c.write_done_counter < c.write_counter
    → IsTallied c
    → IsTallied (server_write_callback c)
unfolding server_write_callback
server_write_callback-IsTallied c some_write h = record {
  refused = h.refused;
  received = h.received;
  sent = omega (arith, h.sent);
  done = omega (arith, some_write);
}

pub server_on_close-IsTallied : (c : SConnection) → IsTallied c → IsTallied (server_on_close c)
unfolding server_on_close
server_on_close-IsTallied c h = tally-IsTallied c (server_on_close c) (ground arith) h
