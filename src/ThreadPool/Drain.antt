-- ===== src/ThreadPool/Drain.antt =====
-- The order in which a pool executes its jobs, and that its thread can end after a stop: what the
-- join in `destroy` waits for.
use muti.Common.{
  ℕ, ◌<◌, ◌≡◌, refl, sym, ap, ◌∙◌, List, [], ◌∷◌, ◌++◌, append_assoc, append-nil, ◌⊎◌, inl, inr,
  arith,
}
use muti.ThreadPool.{
  stop, Place, looping, waiting, woken, batch, ended, init_thread_pool1, insert_tail, insert_head,
  take_work, do_thread, request_stop,
}
use muti.ThreadPool.Runs.{
  Run, initial, after_tail, after_head, Step, tail, head, halt, round, stray, wake, run, next,
  Reach, here, more, reachable-Settled,
}

abbrev IsQueue : Run → Type 0
IsQueue s = (s.accepted ≡ s.done ++ (s.pool.runing_head ++ s.pool.work_head)) ⊎ (0 < s.heads)

append_last :
    (xs ys zs accepted : List ℕ) (job : ℕ)
    → accepted ≡ xs ++ (ys ++ zs)
    → accepted ++ job ∷ [] ≡ xs ++ (ys ++ (zs ++ job ∷ []))
append_last xs ys zs accepted job e =
    ap (λ l. l ++ job ∷ []) e
    ∙ append_assoc xs (ys ++ zs) (job ∷ [])
    ∙ ap (λ l. xs ++ l) (append_assoc ys zs (job ∷ []))

move_work : (xs ys zs : List ℕ) → xs ++ (ys ++ zs) ≡ xs ++ ((ys ++ zs) ++ [])
move_work xs ys zs = ap (λ t. xs ++ t) (sym (append-nil (ys ++ zs)))

tail-IsQueue : (s : Run) (job : ℕ) → IsQueue s → IsQueue (after_tail s job (insert_tail s.pool job))
unfolding insert_tail after_tail
tail-IsQueue s job (inr h) = ground arith
tail-IsQueue s job (inl e) =
    let last = append_last s.done s.pool.runing_head s.pool.work_head s.accepted job e in
    ground arith

run_first :
    (done rest work running accepted : List ℕ) (job : ℕ)
    → running ≡ job ∷ rest
    → accepted ≡ done ++ (running ++ work)
    → accepted ≡ (done ++ job ∷ []) ++ (rest ++ work)
run_first done rest work running accepted job e f =
    f ∙ ap (λ r. done ++ (r ++ work)) e ∙ sym (append_assoc done (job ∷ []) (rest ++ work))

Step-IsQueue : {s t : Run} → Step s t → IsQueue s → IsQueue t
unfolding insert_head do_thread take_work request_stop after_head
Step-IsQueue (tail s job) h = tail-IsQueue s job h
Step-IsQueue (head s job) h = ground arith
Step-IsQueue (halt s) h = h
Step-IsQueue (round s e) h =
    let move = move_work s.done s.pool.runing_head s.pool.work_head in ground arith
Step-IsQueue (stray s e) h = h
Step-IsQueue (wake s e) (inl h) = inl (h ∙ move_work s.done s.pool.runing_head s.pool.work_head)
Step-IsQueue (wake s e) (inr h) = inr h
Step-IsQueue (run s job rest e f) (inl h) =
    inl (run_first s.done rest s.pool.work_head s.pool.runing_head s.accepted job f h)
Step-IsQueue (run s job rest e f) (inr h) = inr h
Step-IsQueue (next s e f) h = h

reachable-IsQueue : {s : Run} → Reach initial s → IsQueue s
unfolding init_thread_pool1
reachable-IsQueue here = inl refl
reachable-IsQueue (more r st) = Step-IsQueue st (reachable-IsQueue r)

-- In a run of a pool that accepted no job at the head, the jobs that it executed, then the running
-- list, then the work list are the accepted jobs in the order in which they were accepted.
pub executed_in_order :
    {s : Run}
    → Reach initial s
    → s.heads ≡ 0
    → s.accepted ≡ s.done ++ (s.pool.runing_head ++ s.pool.work_head)
executed_in_order r e = ground (arith, reachable-IsQueue r)

-- The steps that the thread makes by itself: not a wait that ends without a signal.
abbrev pub IsOwn : {s t : Run} → Step s t → Type 0
IsOwn (round s e) = Unit
IsOwn (wake s e) = Unit
IsOwn (run s job rest e f) = Unit
IsOwn (next s e f) = Unit
IsOwn (tail s job) = ⊥
IsOwn (head s job) = ⊥
IsOwn (halt s) = ⊥
IsOwn (stray s e) = ⊥

pub data OwnReach (s : Run) : Run → Type 0 where
  stays : OwnReach s s
  goes : {t u : Run} → OwnReach s t → (st : Step t u) → IsOwn st → OwnReach s u

joined_runs : {s t u : Run} → OwnReach s t → OwnReach t u → OwnReach s u
joined_runs r stays = r
joined_runs r (goes q st own) = goes (joined_runs r q) st own

-- The thread runs its batch to the end, on its own.
finish_batch :
    (running : List ℕ) (s : Run)
    → s.pool.place ≡ batch
    → s.pool.runing_head ≡ running
    → (t : Run) × OwnReach s t
      × (t.pool.place ≡ looping)
      × (t.pool.runing_head ≡ [])
      × (t.pool.work_head ≡ s.pool.work_head)
      × (t.pool.state ≡ s.pool.state)
      × (t.accepted ≡ s.accepted)
finish_batch [] s e f = (_, goes stays (next s e f) tt, refl, f, refl, refl, refl)
finish_batch (job ∷ rest) s e f =
    let after : Run = record s {
      pool = record s.pool { runing_head = rest };
      done = s.done ++ job ∷ [];
    } in
    let (t, r, a, b, c, d, g) = finish_batch rest after e refl in
    (t, joined_runs (goes stays (run s job rest e f) tt) r, a, b, c, d, g)

-- At the head of the loop with no work, a stopped thread ends.
end_idle :
    (s : Run)
    → s.pool.place ≡ looping
    → s.pool.state ≡ stop
    → s.pool.work_head ≡ []
    → (t : Run) × OwnReach s t × (t.pool.place ≡ ended) × (t.accepted ≡ s.accepted)
unfolding do_thread
end_idle s e f g = (_, goes stays (round s e) tt, rw (g, f) refl, refl)

end_batch :
    (s : Run)
    → s.pool.place ≡ batch
    → s.pool.state ≡ stop
    → s.pool.work_head ≡ []
    → (t : Run) × OwnReach s t × (t.pool.place ≡ ended) × (t.accepted ≡ s.accepted)
end_batch s e f g =
    let (t, r, at_loop, empty, work, state, same) = finish_batch s.pool.runing_head s e refl in
    let (u, q, over, same') = end_idle t at_loop (state ∙ f) (work ∙ g) in
    (u, joined_runs r q, over, same' ∙ same)

place-cases :
    (p : Place) → ((p ≡ looping) ⊎ ((p ≡ waiting) ⊎ (p ≡ woken))) ⊎ ((p ≡ batch) ⊎ (p ≡ ended))
place-cases looping = inl (inl refl)
place-cases waiting = inl (inr (inl refl))
place-cases woken = inl (inr (inr refl))
place-cases batch = inr (inl refl)
place-cases ended = inr (inr refl)

List-cases : (xs : List ℕ) → (xs ≡ []) ⊎ ((x : ℕ) × (rest : List ℕ) × (xs ≡ x ∷ rest))
List-cases [] = inl refl
List-cases (x ∷ rest) = inr (x, rest, refl)

end_loop :
    (s : Run)
    → s.pool.place ≡ looping
    → s.pool.state ≡ stop
    → (t : Run) × OwnReach s t × (t.pool.place ≡ ended) × (t.accepted ≡ s.accepted)
unfolding do_thread take_work
end_loop s e f = elim (List-cases s.pool.work_head) [
  | inl g ↦ end_idle s e f g
  | inr (job, rest, g) ↦
      let taken : do_thread s.pool ≡ take_work s.pool = rw g refl in
      let (t, q, over, same) =
        end_batch (record s { pool = do_thread s.pool }) (ap (λ tp. tp.place) taken)
          (ap (λ tp. tp.state) taken ∙ f) (ap (λ tp. tp.work_head) taken) in
      (t, joined_runs (goes stays (round s e) tt) q, over, same)
]

-- From each state of a run of a pool in which it was told to stop, the thread's own steps, without a
-- further signal and without a wait that ends by itself, lead to its end, and no job is accepted on the
-- way: the join of `destroy` can return.
pub stopped_ends :
    {s : Run}
    → Reach initial s
    → s.pool.state ≡ stop
    → (t : Run) × OwnReach s t × (t.pool.place ≡ ended) × (t.accepted ≡ s.accepted)
unfolding take_work
stopped_ends {s} r f = elim (place-cases s.pool.place) [
  | inl (inl e) ↦ end_loop s e f
  | inl (inr (inl e)) ↦ absurd (ground (arith, reachable-Settled r, e, f))
  | inl (inr (inr e)) ↦
      let (t, q, over, same) = end_batch (record s { pool = take_work s.pool }) refl f refl in
      (t, joined_runs (goes stays (wake s e) tt) q, over, same)
  | inr (inr e) ↦ (s, stays, e, refl)
  | inr (inl e) ↦
      let (t, q, at_loop, empty, work, state, same) = finish_batch s.pool.runing_head s e refl in
      let (u, p, over, same') = end_loop t at_loop (state ∙ f) in
      (u, joined_runs q p, over, same' ∙ same)
]
