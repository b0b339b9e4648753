-- ===== src/Client/Runs/Sound.antt =====
-- Each handler returns, and keeps the holders of the buffers and the accounts of the requests.
use muti.Common.{
  ℕ, suc, ◌≡◌, refl, sym, subst, List, [], ◌∷◌, ◌++◌, length, count, get_elem?, remove_at,
  at-get_elem?, Bool, true, false, Option, none, some, Outcome, ok, ◌>>=◌, ◌==◌, inl, inr,
  Bool-cases, Option-cases, arith,
}
use muti.Common.Live.{refers, live-positive}
use muti.Client.Handlers.{
  ClientJob, Requests, CConnection, client_write_callback, disconnect, fail_waiting,
  client_read_callback, client_read_failed,
}
use muti.Client.Runs.{
  Event, requested, read_came, read_failed, did, freed, written, closing, closed, handle, CanEnd,
  IsEnabled, Reach, connected, happened,
}
use muti.Client.Runs.Holders.{
  rbufs_of, IsHeld, client_free_read_buffer-IsHeld, after_reading-IsHeld, client_on_connect-IsHeld,
}
use muti.Client.Runs.Accounts.{IsAccounted, queue_jobs-IsAccounted, client_on_connect-IsAccounted}
use muti.Client.Runs.Sends.{send_request-IsAccounted}
use muti.Client.Runs.Written.{
  written-IsAccounted, failed-IsAccounted, disconnect-IsAccounted, fail_waiting-IsAccounted,
}
use muti.Client.Runs.Steps.{IsRunning, same-IsHeld, did-IsRunning, freed-IsRunning}

pub nothing_in : (xs : List ℕ) → ((k : ℕ) → count k xs ≡ 0) → length xs ≡ 0
nothing_in [] h = refl
nothing_in (x ∷ xs) h = absurd (ground (arith, h x))

pub no_jobs : (jobs : List ClientJob) → ((k : ℕ) → count k (rbufs_of jobs) ≡ 0) → jobs ≡ []
no_jobs [] h = refl
no_jobs (j ∷ jobs) h = absurd (ground (arith, h j.rbuf))

pub no_writes : (writing : List (ℕ × ℕ)) → length writing ≡ 0 → writing ≡ []
no_writes [] h = refl
no_writes (w ∷ writing) h = absurd (omega (arith, h))

pub no_read : (reading : Option ℕ) → ((k : ℕ) → refers reading k ≡ 0) → reading ≡ none
no_read none h = refl
no_read (some b) h = absurd (ground (arith, h b))

-- When the first loop of the close handler ends, no buffer has a reference.
pub all_freed :
    (c : CConnection)
    → IsHeld [] c
    → c.read_counter ≡ c.read_done_counter
    → (k : ℕ) → c.reference k ≡ 0
all_freed c h e k = elim (Bool-cases (c.reference k == 0)) [
  | inl zero ↦ ground arith
  | inr pos ↦
      absurd (ground (arith, h.counter, h.fresh k, live-positive c.next_buffer k c.reference, pos))
]

-- A step that the buffers have no part in.
step-IsRunning :
    (c : CConnection) (m : Outcome Requests)
    → (s : Requests) × (m ≡ ok s)
      × IsAccounted [] s
      × ((s.jobs ≡ c.requests.jobs) × (s.kept ≡ c.requests.kept))
    → IsRunning c
    → (c' : CConnection) × ((m >>= λ s. ok (record c { requests = s })) ≡ ok c') × IsRunning c'
step-IsRunning c m (s, run, accounted, (jobs, kept)) r = (
  record c { requests = s },
  rw run refl,
  record { buffers = same-IsHeld [] c s jobs kept r.buffers; accounts = accounted },
)

module _ (read_buffer_size : ℕ) where
  ended :
      (i : ℕ) (rc : Bool) (c : CConnection) (w : ℕ × ℕ)
      → get_elem? c.requests.writing i ≡ some w
      → CanEnd read_buffer_size rc (some w) c.requests
      → IsRunning c
      → (s : Requests) × (client_write_callback rc w
            (record c.requests { writing = remove_at i c.requests.writing })
          ≡ ok s)
        × IsAccounted [] s
        × ((s.jobs ≡ c.requests.jobs) × (s.kept ≡ c.requests.kept))
  ended i true c (q, m) e can r = written-IsAccounted i q m c.requests e r.accounts
  ended i false c (q, m) e can r = failed-IsAccounted i q m c.requests e can r.accounts

  written-IsRunning :
      (i : ℕ) (rc : Bool) (c : CConnection)
      → IsEnabled read_buffer_size (written i rc) c
      → IsRunning c
      → (c' : CConnection) × (handle read_buffer_size (written i rc) c ≡ ok c') × IsRunning c'
  unfolding handle
  written-IsRunning i rc c can r = elim (Option-cases (get_elem? c.requests.writing i)) [
    | inl e ↦ absurd (subst (λ o. CanEnd read_buffer_size rc o c.requests) e can)
    | inr (w, e) ↦
        let can' : CanEnd read_buffer_size rc (some w) c.requests =
          subst (λ o. CanEnd read_buffer_size rc o c.requests) e can in
        rw (at-get_elem? c.requests.writing i w e) (step-IsRunning c _ (ended i rc c w e can' r) r)
  ]

  pub handle-IsRunning :
      (e : Event) (c : CConnection)
      → IsEnabled read_buffer_size e c
      → IsRunning c
      → (c' : CConnection) × (handle read_buffer_size e c ≡ ok c') × IsRunning c'
  unfolding handle client_read_callback client_read_failed disconnect fail_waiting
  handle-IsRunning (requested req rc) c (x, sends) r =
      let (wbuf, s, run, accounted, (jobs, kept)) =
        send_request-IsAccounted req rc c.requests x sends r.accounts in
      (
        record c { requests = s },
        rw run refl,
        record { buffers = same-IsHeld [] c s jobs kept r.buffers; accounts = accounted },
      )
  handle-IsRunning (read_came b bytes rc) c (reading, fits, (got, run)) r =
      let (c', step, held, same) =
        after_reading-IsHeld read_buffer_size b (length bytes) rc got c reading r.buffers in
      let accounted =
        queue_jobs-IsAccounted (suc (length (c.content ++ bytes))) (c.content ++ bytes) b
          (length bytes) got c run r.accounts in
      (
        c',
        rw run step,
        record { buffers = held; accounts = subst (IsAccounted []) (sym same) accounted },
      )
  handle-IsRunning (read_failed b) c reading r =
      let unread = record c { reading = none } in
      let held : IsHeld (b ∷ []) unread = record {
        references = λ k. ground (arith, r.buffers.references k, reading);
        fresh = r.buffers.fresh;
        counter = r.buffers.counter;
      } in
      let (c', run, held', same) = client_free_read_buffer-IsHeld b [] unread held in
      (c', run, record { buffers = held'; accounts = subst (IsAccounted []) (sym same) r.accounts })
  handle-IsRunning (did i keep) c lt r = did-IsRunning read_buffer_size i keep c lt r
  handle-IsRunning (freed i) c lt r = freed-IsRunning read_buffer_size i c lt r
  handle-IsRunning (written i rc) c can r = written-IsRunning i rc c can r
  handle-IsRunning closing c all r = (
    record c { requests = disconnect c.requests },
    refl,
    record {
      buffers = same-IsHeld [] c (disconnect c.requests) refl refl r.buffers;
      accounts = disconnect-IsAccounted c.requests r.accounts;
    },
  )
  handle-IsRunning closed c (down, reads, writes) r =
      let none_written =
        no_writes c.requests.writing (omega (arith, r.accounts.write_count, writes)) in
      (
        record c { requests = fail_waiting c.requests },
        refl,
        record {
          buffers = same-IsHeld [] c (fail_waiting c.requests) refl refl r.buffers;
          accounts = (fail_waiting-IsAccounted c.requests none_written r.accounts).0;
        },
      )

  pub reachable-IsRunning : {c : CConnection} → Reach read_buffer_size c → IsRunning c
  reachable-IsRunning connected = record {
    buffers = client_on_connect-IsHeld;
    accounts = client_on_connect-IsAccounted;
  }
  reachable-IsRunning (happened {c} {c'} e r enabled run) =
      let (c₁, run₁, running) = handle-IsRunning e c enabled (reachable-IsRunning r) in
      let same : c₁ ≡ c' = cc in subst IsRunning same running
