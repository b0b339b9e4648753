-- ===== src/Client/Runs/Written.antt =====
-- How the callback of a write and the close handler keep the accounts.
use muti.Common.{
  ℕ, suc, ◌+◌, ◌-◌, ◌^◌, ◌<◌, ◌≡◌, refl, ap, ◌∙◌, List, [], ◌∷◌, ◌++◌, map, length,
  length-remove_at, count, count-remove_at, get_elem?, get_elem?-lt, remove_at, set_reference, true,
  false, some, ok, arith,
}
use muti.Client.{ClientSendArg, Client, hash_of, set_slot}
use muti.Client.Handlers.{
  Requests, release, args_of, delete, client_write_callback, entries_below, client_waiting_hash_len,
  disconnect, fail_waiting,
}
use muti.Client.Runs.Waits.{waits, waits-set_slot, count-delete}
use muti.Client.Runs.Accounts.{
  job_args, called_args, called_args-append, writing_args, IsAccounted, waits-empty,
}
use muti.Client.Runs.Sends.{same-waits}

-- A write's callback is taken.
abbrev unwritten : ℕ → Requests → Requests
unwritten i s = record s { writing = remove_at i s.writing }

taken_out :
    (i q m : ℕ) (s : Requests)
    → get_elem? s.writing i ≡ some (q, m)
    → ((n : ℕ)
        → count n (writing_args s.writing) ≡ count n (m ∷ writing_args (remove_at i s.writing)))
      × (length s.writing ≡ suc (length (remove_at i s.writing)))
taken_out i q m s e = (
  λ n. count-remove_at (λ (w : ℕ × ℕ). w.1) n i s.writing (q, m) e,
  length-remove_at i s.writing (get_elem?-lt s.writing i (q, m) e),
)

pub written-IsAccounted :
    (i q m : ℕ) (s : Requests)
    → get_elem? s.writing i ≡ some (q, m)
    → IsAccounted [] s
    → (s' : Requests) × (client_write_callback true (q, m) (unwritten i s) ≡ ok s')
      × IsAccounted [] s'
      × ((s'.jobs ≡ s.jobs) × (s'.kept ≡ s.kept))
unfolding client_write_callback release set_reference
written-IsAccounted i q m s e h =
    let (moved, fewer) = taken_out i q m s e in
    (
      record (unwritten i s) {
        ref = set_reference s.ref m (s.ref m - 1);
        write_done_counter = s.write_done_counter + 1;
      },
      ground (arith, h.refs m, moved m),
      record {
        refs = λ n. ground (arith, h.refs n, moved n);
        once = h.once;
        single = h.single;
        unsent = h.unsent;
        writes = λ n. ground (arith, h.writes n, moved n);
        keeps = h.keeps;
        write_count = omega (arith, h.write_count, fewer);
      },
      (refl, refl),
    )

-- The lists of a client without the entry of a request that waits.
abbrev without : ℕ → ℕ → Client → Client
without q m c = record c {
  waiting_hash_slots =
      set_slot c.waiting_hash_slots (hash_of q) (delete m (c.waiting_hash_slots (hash_of q)));
}

waits-without :
    (q m n : ℕ) (c : Client)
    → 0 < count m (args_of (c.waiting_hash_slots (hash_of q)))
    → waits c n ≡ count n (m ∷ []) + waits (without q m c) n
waits-without q m n c there =
    let slot = c.waiting_hash_slots (hash_of q) in
    ground (arith, waits-set_slot c q c.sequence (delete m slot) n, count-delete m n slot there)

pub failed-IsAccounted :
    (i q m : ℕ) (s : Requests)
    → get_elem? s.writing i ≡ some (q, m)
    → 0 < count m (args_of (s.client.waiting_hash_slots (hash_of q)))
    → IsAccounted [] s
    → (s' : Requests) × (client_write_callback false (q, m) (unwritten i s) ≡ ok s')
      × IsAccounted [] s'
      × ((s'.jobs ≡ s.jobs) × (s'.kept ≡ s.kept))
unfolding client_write_callback set_reference
failed-IsAccounted i q m s e there h =
    let (moved, fewer) = taken_out i q m s e in
    let left = λ (n : ℕ). waits-without q m n s.client there in
    let told = λ (n : ℕ). called_args-append n s.called_back ((m, 2 ^ 32 - 3) ∷ []) in
    (
      record (unwritten i s) {
        client = without q m s.client;
        ref = set_reference s.ref m 0;
        called_back = s.called_back ++ (m, 2 ^ 32 - 3) ∷ [];
        write_done_counter = s.write_done_counter + 1;
      },
      ground (arith, there),
      record {
        refs = λ n. ground (
          arith,
          h.refs n,
          moved n,
          left n,
          h.once m,
          h.single m,
          h.writes m,
          h.keeps m,
          left m,
          moved m,
        );
        once = λ n. ground (arith, h.once n, left n, told n);
        single = h.single;
        unsent = h.unsent;
        writes = λ n. ground (arith, h.writes n, moved n);
        keeps = λ n. ground (arith, h.keeps n, told n);
        write_count = omega (arith, h.write_count, fewer);
      },
      (refl, refl),
    )

pub disconnect-IsAccounted : (s : Requests) → IsAccounted [] s → IsAccounted [] (disconnect s)
unfolding disconnect
disconnect-IsAccounted s h = record {
  refs = λ n. omega (arith, h.refs n, same-waits s.client (disconnect s).client n refl);
  once = λ n. omega (arith, h.once n, same-waits s.client (disconnect s).client n refl);
  single = h.single;
  unsent = h.unsent;
  writes = h.writes;
  keeps = h.keeps;
  write_count = h.write_count;
}

told_all :
    (n k : ℕ) (entries : List ClientSendArg)
    → count n (called_args (map (λ a. (a.arg, k)) entries)) ≡ count n (args_of entries)
told_all n k [] = refl
told_all n k (a ∷ entries) = ground (arith, told_all n k entries)

-- The close handler has called back what waited, once no write runs any more.
pub fail_waiting-IsAccounted :
    (s : Requests)
    → s.writing ≡ []
    → IsAccounted [] s
    → IsAccounted [] (fail_waiting s)
      × ((n : ℕ)
          → count n (called_args (fail_waiting s).called_back) + count n (job_args s.jobs)
            ≡ count n s.sent)
      × ((n : ℕ) → (fail_waiting s).ref n ≡ count n (job_args s.jobs) + count n (job_args s.kept))
unfolding fail_waiting waits
fail_waiting-IsAccounted s none_written h =
    let entries = entries_below client_waiting_hash_len s.client.waiting_hash_slots in
    let told : (n : ℕ)
        → count n (called_args (fail_waiting s).called_back)
          ≡ count n (called_args s.called_back) + count n (args_of entries) =
      λ n.
        called_args-append n s.called_back (map (λ a. (a.arg, 2 ^ 32 - 4)) entries)
        ∙ ap (λ t. count n (called_args s.called_back) + t) (told_all n (2 ^ 32 - 4) entries) in
    (
      record {
        refs = λ n. ground (
          arith,
          h.refs n,
          h.once n,
          h.single n,
          h.keeps n,
          none_written,
          waits-empty s.client n,
        );
        once = λ n. ground (arith, h.once n, told n, waits-empty s.client n);
        single = h.single;
        unsent = h.unsent;
        writes = h.writes;
        keeps = λ n. ground (arith, h.keeps n, told n);
        write_count = h.write_count;
      },
      λ n. ground (arith, h.once n, told n),
      λ n. ground (arith, h.refs n, h.once n, h.single n, h.keeps n, none_written),
    )
