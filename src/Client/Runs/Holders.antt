-- ===== src/Client/Runs/Holders.antt =====
-- Who holds the read buffers of a connection, and how its handlers keep that.
use muti.Common.{
  ℕ, suc, ◌+◌, ◌-◌, ◌<◌, ◌≤◌, ◌≡◌, refl, sym, ap, ◌∙◌, List, [], ◌∷◌, ◌++◌, map, length, count,
  count-append, inl, inr, set_reference, Bool, true, false, none, some, Outcome, ok, ◌>>=◌, ltb,
  ◌==◌, if◌then◌else◌, Bool-cases, arith,
}
use muti.Common.Live.{live, refers, live-set-above, live-set-positive, live-set-zero}
use muti.Client.{ClientSendArg, Received}
use muti.Messages.{ClusterResponse}
use muti.Client.Handlers.{
  ClientJob, CConnection, client_on_connect, client_free_read_buffer, start_read, read_on,
  queue_jobs, after_reading,
}

-- The buffers that jobs hold.
abbrev pub rbufs_of : List ClientJob → List ℕ
rbufs_of = map (λ j. j.rbuf)

-- Each buffer has as many references as there are holders: those of the running callback, the jobs,
-- the responses that callbacks keep, and the connection's read.
pub record IsHeld (held : List ℕ) (c : CConnection) : Type 0 where
  pub references :
      (k : ℕ)
      → c.reference k
        ≡ count k held
          + count k (rbufs_of c.requests.jobs)
          + count k (rbufs_of c.requests.kept)
          + refers c.reading k
  pub fresh : (k : ℕ) → c.next_buffer ≤ k → c.reference k ≡ 0
  pub counter : c.read_counter ≡ live c.next_buffer c.reference + c.read_done_counter

-- A buffer without one reference.
abbrev given_up : ℕ → CConnection → CConnection
given_up b c =
    let left = c.reference b - 1 in
    record c {
      reference = set_reference c.reference b left;
      read_done_counter = if left == 0 then c.read_done_counter + 1 else c.read_done_counter;
    }

free-given_up :
    (b : ℕ) (c : CConnection) → 0 < c.reference b → client_free_read_buffer b c ≡ ok (given_up b c)
unfolding client_free_read_buffer
free-given_up b c h = ground arith

given_up-IsHeld :
    (b : ℕ) (held : List ℕ) (c : CConnection) → IsHeld (b ∷ held) c → IsHeld held (given_up b c)
unfolding set_reference
given_up-IsHeld b held c h =
    let made : b < c.next_buffer = ground (arith, h.fresh b, h.references b) in
    record {
      references = λ k. ground (arith, h.references k, h.references b);
      fresh = λ k le. ground (arith, h.fresh k le, h.references b);
      counter = elim (Bool-cases (c.reference b - 1 == 0)) [
        | inl last ↦
            ground (
              arith,
              last,
              h.counter,
              h.references b,
              live-set-zero c.next_buffer b c.reference made,
            )
        | inr more ↦ ground (
          arith,
          more,
          h.counter,
          h.references b,
          live-set-positive c.next_buffer b (c.reference b - 1) c.reference made,
        )
      ];
    }

-- What returns with the holders right and the requests as they were.
abbrev Keeps : List ℕ → CConnection → Outcome CConnection → Type 0
Keeps held c m = (c' : CConnection) × (m ≡ ok c') × IsHeld held c' × (c'.requests ≡ c.requests)

-- A reference that the callback holds can be given up: the buffer was not freed before.
pub client_free_read_buffer-IsHeld :
    (b : ℕ) (held : List ℕ) (c : CConnection)
    → IsHeld (b ∷ held) c
    → (c' : CConnection) × (client_free_read_buffer b c ≡ ok c')
      × IsHeld held c'
      × (c'.requests ≡ c.requests)
client_free_read_buffer-IsHeld b held c h = (
  given_up b c,
  free-given_up b c (ground (arith, h.references b)),
  given_up-IsHeld b held c h,
  refl,
)

start_read-IsHeld :
    (b : ℕ) (rc : Bool) (held : List ℕ) (c : CConnection)
    → c.reading ≡ none
    → IsHeld (b ∷ held) c
    → Keeps held c (start_read b rc c)
unfolding start_read
start_read-IsHeld b false held c e h = client_free_read_buffer-IsHeld b held c h
start_read-IsHeld b true held c e h = (
  record c { reading = some b },
  refl,
  record {
    references = λ k. ground (arith, h.references k, e);
    fresh = h.fresh;
    counter = h.counter;
  },
  refl,
)

-- The new buffer, which its reader holds and the counter does not have yet.
made_new : CConnection → CConnection
made_new c = record c {
  reference = set_reference c.reference c.next_buffer 1;
  next_buffer = suc c.next_buffer;
  processed = 0;
}

replaced-IsHeld :
    (b : ℕ) (c : CConnection)
    → c.reading ≡ none
    → IsHeld (b ∷ b ∷ []) c
    → let c₁ = given_up b (made_new c) in
      (0 < (made_new c).reference b)
      × (c₁.reading ≡ none)
      × IsHeld (c.next_buffer ∷ b ∷ []) (record c₁ { read_counter = c₁.read_counter + 1 })
unfolding set_reference made_new
replaced-IsHeld b c e h =
    let n = c.next_buffer in
    let made : (b < n) × (1 < c.reference b) = ground (arith, h.fresh b, h.references b) in
    let new = set_reference c.reference n 1 in
    let above = live-set-above n n 1 c.reference (omega arith) in
    let same =
      live-set-positive n b (c.reference b - 1) new made.0 (ground (arith, made))
        (omega (arith, made.1)) in
    (
      ground (arith, made),
      e,
      record {
        references =
            λ k. ground (arith, h.references k, h.fresh n (omega arith), h.references n, made, e);
        fresh = λ k le. ground (arith, h.fresh k (omega arith), made);
        counter = ground (arith, h.counter, above, same, made);
      },
    )

read_on-IsHeld :
    (read_buffer_size b : ℕ) (rc : Bool) (c : CConnection)
    → c.reading ≡ none
    → IsHeld (b ∷ b ∷ []) c
    → Keeps (b ∷ []) c (read_on read_buffer_size b rc c)
unfolding read_on made_new
read_on-IsHeld size b rc c e h =
    let (some_reference, idle, held) = replaced-IsHeld b c e h in
    elim (Bool-cases (ltb (c.processed + length c.content) size)) [
      | inl space ↦
          let (c', run, sound, same) = start_read-IsHeld b rc (b ∷ []) c e h in
          (c', rw space run, sound, same)
      | inr full ↦
          let (c', run, sound, same) = start_read-IsHeld c.next_buffer rc (b ∷ []) _ idle held in
          (c', rw (full, free-given_up b (made_new c) some_reference) run, sound, same)
    ]

rbufs_of-queued :
    (b k : ℕ) (delivered : List (ClientSendArg × ClusterResponse))
    → count k (rbufs_of (map (λ d. record { send_arg = d.0; response = d.1; rbuf = b }) delivered))
      ≡ (if k == b then length delivered else 0)
rbufs_of-queued b k [] = ground arith
rbufs_of-queued b k (d ∷ delivered) = ground (arith, rbufs_of-queued b k delivered)

rbufs_of-append : (xs ys : List ClientJob) → rbufs_of (xs ++ ys) ≡ rbufs_of xs ++ rbufs_of ys
rbufs_of-append [] ys = refl
rbufs_of-append (x ∷ xs) ys = ap (◌∷◌ x.rbuf) (rbufs_of-append xs ys)

-- The callback's own reference and those of the jobs, behind the read that is over.
queue_jobs-IsHeld :
    (b size : ℕ) (r : Received) (c : CConnection)
    → c.reading ≡ some b
    → IsHeld [] c
    → IsHeld (b ∷ b ∷ []) (queue_jobs b size r c)
unfolding queue_jobs set_reference
queue_jobs-IsHeld b size r c e h =
    let jobs : List ClientJob =
      map (λ d. record { send_arg = d.0; response = d.1; rbuf = b }) r.delivered in
    let n = 1 + length r.delivered in
    let made : (b < c.next_buffer) × (0 < c.reference b) =
      ground (arith, h.fresh b, h.references b, e) in
    record {
      references = λ k. ground (
        arith,
        h.references k,
        e,
        rbufs_of-append c.requests.jobs jobs,
        count-append k (rbufs_of c.requests.jobs) (rbufs_of jobs),
        rbufs_of-queued b k r.delivered,
      );
      fresh = λ k le. ground (arith, h.fresh k le, made);
      counter =
          h.counter
          ∙ ap (λ t. t + c.read_done_counter)
              (sym (
                live-set-positive c.next_buffer b (c.reference b + n) c.reference made.0 made.1
                  (omega arith)));
    }

queue_jobs-reading :
    (b size : ℕ) (r : Received) (c : CConnection) → (queue_jobs b size r c).reading ≡ none
unfolding queue_jobs
queue_jobs-reading b size r c = refl

-- A read's callback: each reference that it gives up is its own.
pub after_reading-IsHeld :
    (read_buffer_size b size : ℕ) (rc : Bool) (r : Received) (c : CConnection)
    → c.reading ≡ some b
    → IsHeld [] c
    → (c' : CConnection) × (after_reading read_buffer_size b size rc r c ≡ ok c')
      × IsHeld [] c'
      × (c'.requests ≡ (queue_jobs b size r c).requests)
unfolding after_reading
after_reading-IsHeld read_buffer_size b size rc r c e h =
    let queued = queue_jobs b size r c in
    let held = queue_jobs-IsHeld b size r c e h in
    let branch : Bool → Outcome CConnection = λ up.
      if up
      then (read_on read_buffer_size b rc queued >>= client_free_read_buffer b)
      else (client_free_read_buffer b queued >>= client_free_read_buffer b) in
    elim (Bool-cases r.is_open) [
      | inl up ↦
          let (c₁, run₁, held₁, same₁) =
            read_on-IsHeld read_buffer_size b rc queued (queue_jobs-reading b size r c) held in
          let (c₂, run₂, held₂, same₂) = client_free_read_buffer-IsHeld b [] c₁ held₁ in
          (c₂, ap branch up ∙ rw run₁ run₂, held₂, same₂ ∙ same₁)
      | inr shut ↦
          let (c₁, run₁, held₁, same₁) = client_free_read_buffer-IsHeld b (b ∷ []) queued held in
          let (c₂, run₂, held₂, same₂) = client_free_read_buffer-IsHeld b [] c₁ held₁ in
          (c₂, ap branch shut ∙ rw run₁ run₂, held₂, same₂ ∙ same₁)
    ]

pub client_on_connect-IsHeld : IsHeld [] client_on_connect
unfolding client_on_connect set_reference
client_on_connect-IsHeld = record {
  references = λ k. ground arith;
  fresh = λ k le. ground arith;
  counter = refl;
}
