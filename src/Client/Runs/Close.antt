-- ===== src/Client/Runs/Close.antt =====
-- What a caller can rely on after any callbacks and calls of a connection in any order.
use muti.Common.{
  ℕ, ◌+◌, ◌<◌, ◌≤◌, ◌≡◌, ◌↔◌, refl, List, [], ◌∷◌, count, Bool, none, some, ok, ◌==◌, inl, inr,
  Bool-cases, arith,
}
use muti.Common.Live.{live-none}
use muti.Client.Handlers.{CConnection, fail_waiting, send_request_sync_result}
use muti.Client.Runs.{Event, handle, IsEnabled, Reach}
use muti.Client.Runs.Waits.{waits}
use muti.Client.Runs.Holders.{IsHeld}
use muti.Client.Runs.Accounts.{job_args, called_args}
use muti.Client.Runs.Written.{fail_waiting-IsAccounted}
use muti.Client.Runs.Sound.{
  no_writes, no_jobs, no_read, all_freed, handle-IsRunning, reachable-IsRunning,
}

-- Nothing is under way: no read, no job, and no response that a callback keeps.
abbrev pub IsIdle : CConnection → Type 0
IsIdle c = (c.reading ≡ none) × (c.requests.jobs ≡ []) × (c.requests.kept ≡ [])

reads_over : (c : CConnection) → IsHeld [] c → c.read_counter ≡ c.read_done_counter → IsIdle c
reads_over c h e =
    let unheld = λ (k : ℕ). all_freed c h e k in
    (
      no_read c.reading (λ k. omega (arith, h.references k, unheld k)),
      no_jobs c.requests.jobs (λ k. omega (arith, h.references k, unheld k)),
      no_jobs c.requests.kept (λ k. omega (arith, h.references k, unheld k)),
    )

idle_reads : (c : CConnection) → IsHeld [] c → IsIdle c → c.read_counter ≡ c.read_done_counter
idle_reads c h (none_read, none_queued, none_kept) =
    let unheld : (k : ℕ) → c.reference k ≡ 0 =
      λ k. ground (arith, h.references k, none_read, none_queued, none_kept) in
    omega (arith, h.counter, live-none c.next_buffer c.reference unheld)

sync_result-some :
    (n : ℕ) (called : List (ℕ × ℕ))
    → 0 < count n (called_args called)
    → (result : Bool) × (send_request_sync_result n called ≡ some result)
unfolding send_request_sync_result
sync_result-some n [] h = absurd (omega arith)
sync_result-some n ((k, error_id) ∷ called) h = elim (Bool-cases (k == n)) [
  | inl same ↦ (error_id == 0, rw same refl)
  | inr other ↦
      let (result, e) = sync_result-some n called (ground (arith, other)) in (result, rw other e)
]

module _ (read_buffer_size : ℕ) where
  -- After any callbacks and calls of a client's connection, in which no write fails of a request whose
  -- response was read already: every handler that can run next returns, so that it frees no read
  -- buffer and no entry of a request that was freed, and deletes no entry that is in no list.
  pub callbacks_return :
      {c : CConnection} (e : Event)
      → Reach read_buffer_size c
      → IsEnabled read_buffer_size e c
      → (c' : CConnection) × (handle read_buffer_size e c ≡ ok c')
  callbacks_return e r enabled =
      let (c', run, running) =
        handle-IsRunning read_buffer_size e _ enabled (reachable-IsRunning read_buffer_size r) in
      (c', run)

  -- After any callbacks and calls of a client's connection, in which no write fails of a request whose
  -- response was read already: no request was called back twice, and each that `sendRequest` took
  -- waits for its response, has it in the worker pool, or was called back, just one of these.
  pub called_back_once :
      {c : CConnection}
      → Reach read_buffer_size c
      → (n : ℕ)
      → (count n (called_args c.requests.called_back) ≤ 1)
        × (waits c.requests.client n
              + count n (job_args c.requests.jobs)
              + count n (called_args c.requests.called_back)
            ≡ count n c.requests.sent)
  called_back_once r n =
      let h = (reachable-IsRunning read_buffer_size r).accounts in
      (omega (arith, h.once n, h.single n), h.once n)

  -- After any callbacks and calls of a client's connection, in which no write fails of a request whose
  -- response was read already: the first loop of the close handler ends just when no read runs, no
  -- response is in the worker pool and no callback keeps one, and the second just when no write runs.
  pub close_loops_end :
      {c : CConnection}
      → Reach read_buffer_size c
      → ((c.read_counter ≡ c.read_done_counter) ↔ IsIdle c)
        × ((c.requests.write_counter ≡ c.requests.write_done_counter) ↔ (c.requests.writing ≡ []))
  close_loops_end {c} r =
      let h = reachable-IsRunning read_buffer_size r in
      (
        (λ e. reads_over c h.buffers e, λ idle. idle_reads c h.buffers idle),
        (
          λ e. no_writes c.requests.writing (omega (arith, h.accounts.write_count, e)),
          λ e. ground (arith, h.accounts.write_count, e),
        ),
      )

  -- After any callbacks and calls of a client's connection, in which no write fails of a request whose
  -- response was read already: when the two loops of the close handler have ended, its last loop calls
  -- back what is left, so that each request was called back as often as `sendRequest` took it, once at
  -- most; and every entry and every read buffer is freed.
  pub closed_calls_back :
      {c : CConnection}
      → Reach read_buffer_size c
      → c.read_counter ≡ c.read_done_counter
      → c.requests.write_counter ≡ c.requests.write_done_counter
      → (n : ℕ)
      → (count n c.requests.sent ≤ 1)
        × (count n (called_args (fail_waiting c.requests).called_back) ≡ count n c.requests.sent)
        × ((fail_waiting c.requests).ref n ≡ 0)
        × (c.reference n ≡ 0)
  closed_calls_back {c} r reads writes n =
      let h = reachable-IsRunning read_buffer_size r in
      let (none_read, none_queued, none_kept) = reads_over c h.buffers reads in
      let none_written =
        no_writes c.requests.writing (omega (arith, h.accounts.write_count, writes)) in
      let (after, told, unused) = fail_waiting-IsAccounted c.requests none_written h.accounts in
      (
        h.accounts.single n,
        ground (arith, told n, none_queued),
        ground (arith, unused n, none_queued, none_kept),
        all_freed c h.buffers reads n,
      )

  -- After any callbacks and calls of a client's connection, in which no write fails of a request whose
  -- response was read already: when the two loops of the close handler have ended and its last loop
  -- has run, a thread that waits in `sendRequestSync` for a request that was taken gets its result.
  pub sync_returns :
      {c : CConnection}
      → Reach read_buffer_size c
      → c.read_counter ≡ c.read_done_counter
      → c.requests.write_counter ≡ c.requests.write_done_counter
      → (n : ℕ) → 0 < count n c.requests.sent
      → (result : Bool) × (send_request_sync_result n (fail_waiting c.requests).called_back
          ≡ some result)
  sync_returns {c} r reads writes n taken =
      sync_result-some n (fail_waiting c.requests).called_back
        (omega (arith, taken, (closed_calls_back r reads writes n).1))
