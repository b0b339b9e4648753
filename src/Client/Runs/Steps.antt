-- ===== src/Client/Runs/Steps.antt =====
-- How a job, and a response that was kept, are taken and freed.
use muti.Common.{
  ℕ, ◌<◌, ◌≡◌, refl, sym, ap, subst, List, [], ◌∷◌, length, count-remove_at, get_elem?,
  get_elem?_total, remove_at, at-get_elem?, Bool, some, ok, inl, inr, Bool-cases, arith,
}
use muti.Client.Handlers.{ClientJob, Requests, CConnection, client_free_resp, client_do_job}
use muti.Client.Runs.{did, freed, handle}
use muti.Client.Runs.Holders.{IsHeld, client_free_read_buffer-IsHeld}
use muti.Client.Runs.Accounts.{
  IsAccounted, release-IsAccounted, called, called-IsAccounted, keep-IsAccounted,
  unkeep-IsAccounted,
}

-- The buffers do not depend on the rest of the requests.
pub same-IsHeld :
    (held : List ℕ) (c : CConnection) (s : Requests)
    → s.jobs ≡ c.requests.jobs
    → s.kept ≡ c.requests.kept
    → IsHeld held c
    → IsHeld held (record c { requests = s })
same-IsHeld held c s e f h = record {
  references = λ k. ground (arith, h.references k, e, f);
  fresh = h.fresh;
  counter = h.counter;
}

-- A job holds its buffer until the response is freed.
called-IsHeld :
    (i : ℕ) (job : ClientJob) (c : CConnection) (e : get_elem? c.requests.jobs i ≡ some job)
    → IsHeld [] c
    → IsHeld (job.rbuf ∷ []) (record c { requests = called i job c.requests })
called-IsHeld i job c e h = record {
  references = λ k. ground (
    arith,
    h.references k,
    count-remove_at (λ (j : ClientJob). j.rbuf) k i c.requests.jobs job e,
  );
  fresh = h.fresh;
  counter = h.counter;
}

keep-IsHeld :
    (i : ℕ) (job : ClientJob) (c : CConnection)
    → get_elem? c.requests.jobs i ≡ some job
    → IsHeld [] c
    → IsHeld []
        (record c { requests = record (called i job c.requests) { kept = job ∷ c.requests.kept } })
keep-IsHeld i job c e h = record {
  references = λ k. ground (
    arith,
    h.references k,
    count-remove_at (λ (j : ClientJob). j.rbuf) k i c.requests.jobs job e,
  );
  fresh = h.fresh;
  counter = h.counter;
}

unkeep-IsHeld :
    (i : ℕ) (job : ClientJob) (c : CConnection)
    → get_elem? c.requests.kept i ≡ some job
    → IsHeld [] c
    → IsHeld
        (job.rbuf ∷ [])
        (record c { requests = record c.requests { kept = remove_at i c.requests.kept } })
unkeep-IsHeld i job c e h = record {
  references = λ k. ground (
    arith,
    h.references k,
    count-remove_at (λ (j : ClientJob). j.rbuf) k i c.requests.kept job e,
  );
  fresh = h.fresh;
  counter = h.counter;
}

-- Both invariants together.
pub record IsRunning (c : CConnection) : Type 0 where
  pub buffers : IsHeld [] c
  pub accounts : IsAccounted [] c.requests

pub client_free_resp-IsRunning :
    (job : ClientJob) (c : CConnection)
    → IsHeld (job.rbuf ∷ []) c
    → IsAccounted (job.send_arg.arg ∷ []) c.requests
    → (c' : CConnection) × (client_free_resp job c ≡ ok c') × IsRunning c'
unfolding client_free_resp
client_free_resp-IsRunning job c h a =
    let (c₁, run₁, held, same) = client_free_read_buffer-IsHeld job.rbuf [] c h in
    let a₁ = subst (IsAccounted (job.send_arg.arg ∷ [])) (sym same) a in
    let (s, run₂, accounted, how) = release-IsAccounted job.send_arg.arg [] c₁.requests a₁ in
    (
      record c₁ { requests = s },
      rw (run₁, run₂) refl,
      record {
        buffers =
            same-IsHeld [] c₁ s (ap (λ (t : Requests). t.jobs) how)
              (ap (λ (t : Requests). t.kept) how) held;
        accounts = accounted;
      },
    )

module _ (read_buffer_size : ℕ) where
  pub did-IsRunning :
      (i : ℕ) (keep : Bool) (c : CConnection)
      → i < length c.requests.jobs
      → IsRunning c
      → (c' : CConnection) × (handle read_buffer_size (did i keep) c ≡ ok c') × IsRunning c'
  unfolding handle client_do_job
  did-IsRunning i keep c lt r =
      let (job, e) = get_elem?_total c.requests.jobs i lt in
      let taken = at-get_elem? c.requests.jobs i job e in
      elim (Bool-cases keep) [
        | inl kept ↦ (
          _,
          rw (taken, kept) refl,
          record {
            buffers = keep-IsHeld i job c e r.buffers;
            accounts = keep-IsAccounted i job c.requests e r.accounts;
          },
        )
        | inr not_kept ↦
            let (c', run, running) =
              client_free_resp-IsRunning job _ (called-IsHeld i job c e r.buffers)
                (called-IsAccounted i job c.requests e r.accounts) in
            (c', rw (taken, not_kept) run, running)
      ]

  pub freed-IsRunning :
      (i : ℕ) (c : CConnection)
      → i < length c.requests.kept
      → IsRunning c
      → (c' : CConnection) × (handle read_buffer_size (freed i) c ≡ ok c') × IsRunning c'
  unfolding handle
  freed-IsRunning i c lt r =
      let (job, e) = get_elem?_total c.requests.kept i lt in
      let (c', run, running) =
        client_free_resp-IsRunning job _ (unkeep-IsHeld i job c e r.buffers)
          (unkeep-IsAccounted i job c.requests e r.accounts) in
      (c', rw (at-get_elem? c.requests.kept i job e) run, running)
