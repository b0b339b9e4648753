-- ===== src/Client/Runs/Accounts.antt =====
-- Where each request of a client is, how many references its entry has, and how the handlers of
-- responses keep that.
use muti.Common.{
  ℕ, zero, suc, ◌+◌, ◌-◌, ◌≤◌, ◌≡◌, refl, ap, ◌∙◌, List, [], ◌∷◌, ◌++◌, map, length, count,
  count-append, count-remove_at, get_elem?, remove_at, set_reference, some, ok, arith,
}
use muti.Client.{ClientSendArg, Client, Received, client_read, init_client}
use muti.Messages.{ClusterResponse}
use muti.Client.Handlers.{
  ClientJob, Requests, CConnection, client_on_connect, release, queue_jobs, entries_below,
  client_waiting_hash_len,
}
use muti.Client.Runs.Waits.{waits, client_read-waits, delivered_args}

-- The requests of jobs, of callbacks, and of writes.
abbrev pub job_args : List ClientJob → List ℕ
job_args = map (λ j. j.send_arg.arg)

abbrev pub called_args : List (ℕ × ℕ) → List ℕ
called_args = map (λ p. p.0)

abbrev pub writing_args : List (ℕ × ℕ) → List ℕ
writing_args = map (λ w. w.1)

-- A request that `sendRequest` took waits, or is in the worker pool, or was called back. Its entry has
-- a reference for its write, one for its response, and those that the running callback has.
pub record IsAccounted (held : List ℕ) (s : Requests) : Type 0 where
  pub refs :
      (n : ℕ)
      → s.ref n
        ≡ count n held
          + count n (writing_args s.writing)
          + waits s.client n
          + count n (job_args s.jobs)
          + count n (job_args s.kept)
  pub once :
      (n : ℕ)
      → waits s.client n + count n (job_args s.jobs) + count n (called_args s.called_back)
        ≡ count n s.sent
  pub single : (n : ℕ) → count n s.sent ≤ 1
  pub unsent : (n : ℕ) → s.next_arg ≤ n → count n s.sent ≡ 0
  pub writes : (n : ℕ) → count n (writing_args s.writing) ≤ count n s.sent
  pub keeps : (n : ℕ) → count n (job_args s.kept) ≤ count n (called_args s.called_back)
  pub write_count : s.write_counter ≡ length s.writing + s.write_done_counter

-- A reference that the callback holds can be given up: the entry was not freed before.
pub release-IsAccounted :
    (n : ℕ) (held : List ℕ) (s : Requests)
    → IsAccounted (n ∷ held) s
    → (s' : Requests) × (release n s ≡ ok s')
      × IsAccounted held s'
      × (s' ≡ record s { ref = set_reference s.ref n (s.ref n - 1) })
unfolding release set_reference
release-IsAccounted n held s h = (
  record s { ref = set_reference s.ref n (s.ref n - 1) },
  ground (arith, h.refs n),
  record {
    refs = λ k. ground (arith, h.refs k);
    once = h.once;
    single = h.single;
    unsent = h.unsent;
    writes = h.writes;
    keeps = h.keeps;
    write_count = h.write_count;
  },
  refl,
)

job_args-queued :
    (b : ℕ) (delivered : List (ClientSendArg × ClusterResponse))
    → job_args (map (λ d. record { send_arg = d.0; response = d.1; rbuf = b }) delivered)
      ≡ delivered_args delivered
job_args-queued b [] = refl
job_args-queued b (d ∷ delivered) = ap (◌∷◌ d.0.arg) (job_args-queued b delivered)

job_args-append : (xs ys : List ClientJob) → job_args (xs ++ ys) ≡ job_args xs ++ job_args ys
job_args-append [] ys = refl
job_args-append (x ∷ xs) ys = ap (◌∷◌ x.send_arg.arg) (job_args-append xs ys)

pub called_args-append :
    (n : ℕ) (xs ys : List (ℕ × ℕ))
    → count n (called_args (xs ++ ys)) ≡ count n (called_args xs) + count n (called_args ys)
called_args-append n [] ys = omega arith
called_args-append n (x ∷ xs) ys = ground (arith, called_args-append n xs ys)

-- The requests whose responses were read go to the worker pool.
pub queue_jobs-IsAccounted :
    (fuel : ℕ) (buf : List ℕ) (b size : ℕ) (r : Received) (c : CConnection)
    → client_read fuel c.requests.client buf ≡ ok r
    → IsAccounted [] c.requests
    → IsAccounted [] (queue_jobs b size r c).requests
unfolding queue_jobs
queue_jobs-IsAccounted fuel buf b size r c e h =
    let s = c.requests in
    let jobs : List ClientJob =
      map (λ d. record { send_arg = d.0; response = d.1; rbuf = b }) r.delivered in
    let moved = (client_read-waits fuel s.client buf r e).1 in
    let queued : (n : ℕ)
        → count n (job_args (s.jobs ++ jobs))
          ≡ count n (job_args s.jobs) + count n (delivered_args r.delivered) =
      λ n.
        ap (count n) (job_args-append s.jobs jobs)
        ∙ count-append n (job_args s.jobs) (job_args jobs)
        ∙ ap (λ (t : List ℕ). count n (job_args s.jobs) + count n t)
            (job_args-queued b r.delivered) in
    record {
      refs = λ n. omega (arith, h.refs n, moved n, queued n);
      once = λ n. omega (arith, h.once n, moved n, queued n);
      single = h.single;
      unsent = h.unsent;
      writes = h.writes;
      keeps = h.keeps;
      write_count = h.write_count;
    }

-- A worker takes a job, and its callback is called.
abbrev pub called : ℕ → ClientJob → Requests → Requests
called i job s = record s {
  jobs = remove_at i s.jobs;
  called_back = s.called_back ++ (job.send_arg.arg, job.response.header.error_id) ∷ [];
}

pub called-IsAccounted :
    (i : ℕ) (job : ClientJob) (s : Requests)
    → get_elem? s.jobs i ≡ some job
    → IsAccounted [] s
    → IsAccounted (job.send_arg.arg ∷ []) (called i job s)
called-IsAccounted i job s e h =
    let n₀ = job.send_arg.arg in
    let moved : (n : ℕ) → count n (job_args s.jobs) ≡ count n (n₀ ∷ job_args (remove_at i s.jobs)) =
      λ n. count-remove_at (λ j. j.send_arg.arg) n i s.jobs job e in
    let told =
      λ (n : ℕ). called_args-append n s.called_back ((n₀, job.response.header.error_id) ∷ []) in
    record {
      refs = λ n. ground (arith, h.refs n, moved n);
      once = λ n. ground (arith, h.once n, moved n, told n);
      single = h.single;
      unsent = h.unsent;
      writes = h.writes;
      keeps = λ n. ground (arith, h.keeps n, told n);
      write_count = h.write_count;
    }

-- A callback keeps the response.
pub keep-IsAccounted :
    (i : ℕ) (job : ClientJob) (s : Requests)
    → get_elem? s.jobs i ≡ some job
    → IsAccounted [] s
    → IsAccounted [] (record (called i job s) { kept = job ∷ s.kept })
keep-IsAccounted i job s e h =
    let n₀ = job.send_arg.arg in
    let h' = called-IsAccounted i job s e h in
    let told =
      λ (n : ℕ). called_args-append n s.called_back ((n₀, job.response.header.error_id) ∷ []) in
    record {
      refs = λ n. ground (arith, h'.refs n);
      once = h'.once;
      single = h.single;
      unsent = h.unsent;
      writes = h.writes;
      keeps = λ n. ground (arith, h.keeps n, told n);
      write_count = h.write_count;
    }

-- A response that was kept is taken to be freed.
pub unkeep-IsAccounted :
    (i : ℕ) (job : ClientJob) (s : Requests)
    → get_elem? s.kept i ≡ some job
    → IsAccounted [] s
    → IsAccounted (job.send_arg.arg ∷ []) (record s { kept = remove_at i s.kept })
unkeep-IsAccounted i job s e h =
    let moved : (n : ℕ)
        → count n (job_args s.kept) ≡ count n (job.send_arg.arg ∷ job_args (remove_at i s.kept)) =
      λ n. count-remove_at (λ j. j.send_arg.arg) n i s.kept job e in
    record {
      refs = λ n. ground (arith, h.refs n, moved n);
      once = h.once;
      single = h.single;
      unsent = h.unsent;
      writes = h.writes;
      keeps = λ n. ground (arith, h.keeps n, moved n);
      write_count = h.write_count;
    }

-- What waits of nothing.
entries_below-empty : (k : ℕ) → entries_below k (λ _. []) ≡ []
unfolding entries_below
entries_below-empty zero = refl
entries_below-empty (suc k) = rw (entries_below-empty k) refl

pub waits-empty : (c : Client) (n : ℕ) → waits (record c { waiting_hash_slots = λ _. [] }) n ≡ 0
unfolding waits
waits-empty c n = rw (entries_below-empty client_waiting_hash_len) refl

pub client_on_connect-IsAccounted : IsAccounted [] client_on_connect.requests
unfolding client_on_connect init_client
client_on_connect-IsAccounted = record {
  refs = λ n. omega (arith, waits-empty init_client n);
  once = λ n. omega (arith, waits-empty init_client n);
  single = λ n. omega arith;
  unsent = λ n le. refl;
  writes = λ n. omega arith;
  keeps = λ n. omega arith;
  write_count = refl;
}
