-- ===== src/Connection/Order.antt =====
-- The writes of a connection in any order of calls, jobs and closing.
use muti.Common.{
  ℕ, ◌≡◌, refl, sym, ap, ap₂, ◌∙◌, subst, List, [], ◌∷◌, ◌++◌, append_assoc, append-nil, map,
  flatten, All, Bool, true, false, Bool-cases, inl, inr, ok, >>=-eq-ok, if◌then◌else◌, arith,
}
use muti.Wire.{Bytes}
use muti.Connection.{
  WriteAnswer, WriteJob, WriteRound, fail_all, socket_write_loop, WriteSide, conn_write,
  socket_do_write, close_writes,
}
use muti.Connection.Writes.{
  ids, bufs, called, IsDone, IsRound, socket_write_loop-IsRound, fail_all-ids,
}

abbrev pub new_job : ℕ × Bytes → WriteJob
new_job a = record { id = a.0; buf = a.1; trans_num = 0 }

abbrev pub new_jobs : List (ℕ × Bytes) → List WriteJob
new_jobs writes = map new_job writes

abbrev pub numbers : List (ℕ × Bytes) → List ℕ
numbers writes = map (λ (a : ℕ × Bytes). a.0) writes

abbrev pub buffers : List (ℕ × Bytes) → List Bytes
buffers writes = map (λ (a : ℕ × Bytes). a.1) writes

-- The connection that took these writes: by calls between the jobs or during one, with the job as often
-- as it runs and whatever write(2) answers, until it is closed and after.
pub data Took : List (ℕ × Bytes) → WriteSide → Type 0 where
  started : Took [] (record { is_closed = false; write_jobs = []; sent = []; called_back = [] })
  asked :
      {writes : List (ℕ × Bytes)} {c c' : WriteSide} (id : ℕ) (buf : Bytes)
      → Took writes c
      → conn_write id buf c ≡ (true, c')
      → Took (writes ++ (id, buf) ∷ []) c'
  ran :
      {writes : List (ℕ × Bytes)} {c c' : WriteSide} (answers : List WriteAnswer)
      (more : List (ℕ × Bytes))
      → Took writes c
      → socket_do_write answers (new_jobs more) c ≡ ok c'
      → Took (writes ++ more) c'
  closed :
      {writes : List (ℕ × Bytes)} {c : WriteSide} → Took writes c → Took writes (close_writes c)

map-append {ℓ κ} :
    {A : Type ℓ} {B : Type κ} (f : A → B) (xs ys : List A) → map f (xs ++ ys) ≡ map f xs ++ map f ys
map-append f [] ys = refl
map-append f (x ∷ xs) ys = ap (λ t. f x ∷ t) (map-append f xs ys)

ids-new_jobs : (writes : List (ℕ × Bytes)) → ids (new_jobs writes) ≡ numbers writes
ids-new_jobs [] = refl
ids-new_jobs (a ∷ writes) = ap (λ t. a.0 ∷ t) (ids-new_jobs writes)

bufs-new_jobs : (writes : List (ℕ × Bytes)) → bufs (new_jobs writes) ≡ buffers writes
bufs-new_jobs [] = refl
bufs-new_jobs (a ∷ writes) = ap (λ t. a.1 ∷ t) (bufs-new_jobs writes)

flatten-append : (xss yss : List Bytes) → flatten (xss ++ yss) ≡ flatten xss ++ flatten yss
unfolding flatten
flatten-append [] yss = refl
flatten-append (xs ∷ xss) yss =
    ap (λ t. xs ++ t) (flatten-append xss yss) ∙ sym (append_assoc xs (flatten xss) (flatten yss))

-- The callbacks come in the order of the writes, and what waits comes after them. As long as each was
-- done, what went out and what waits are the buffers in order.
record IsOrdered (writes : List (ℕ × Bytes)) (c : WriteSide) : Type 0 where
  in_order : called c.called_back ++ ids c.write_jobs ≡ numbers writes
  bytes :
      All IsDone c.called_back → c.sent ++ flatten (bufs c.write_jobs) ≡ flatten (buffers writes)

shuffle {ℓ} : {A : Type ℓ} (a b c d : List A) → (a ++ b) ++ (c ++ d) ≡ (a ++ (b ++ c)) ++ d
shuffle a b c d = simp (append_assoc)

All-split : (xs ys : List (ℕ × Bool)) → All IsDone (xs ++ ys) → All IsDone xs × All IsDone ys
All-split [] ys h = (tt, h)
All-split (x ∷ xs) ys h = let (front, back) = All-split xs ys h.1 in ((h.0, front), back)

-- The state after a round, with new writes behind what it left.
module _ (writes more : List (ℕ × Bytes)) (c : WriteSide) (round : WriteRound) (is_closed : Bool)
    (h : IsOrdered writes c) (r : IsRound c.write_jobs round) where
  abbrev after : WriteSide
  after = record {
    is_closed = is_closed;
    write_jobs = round.left ++ new_jobs more;
    sent = c.sent ++ round.sent;
    called_back = c.called_back ++ round.callbacks;
  }

  after-in_order : called after.called_back ++ ids after.write_jobs ≡ numbers (writes ++ more)
  after-in_order =
      ap₂ (λ s t. s ++ t) (map-append (λ (x : ℕ × Bool). x.0) c.called_back round.callbacks)
        (map-append (λ (j : WriteJob). j.id) round.left (new_jobs more))
      ∙ shuffle (called c.called_back) (called round.callbacks) (ids round.left)
          (ids (new_jobs more))
      ∙ ap₂ (λ s t. (called c.called_back ++ s) ++ t) r.in_order (ids-new_jobs more)
      ∙ ap (λ t. t ++ numbers more) h.in_order
      ∙ sym (map-append (λ (a : ℕ × Bytes). a.0) writes more)

  after-bytes :
      All IsDone after.called_back
      → after.sent ++ flatten (bufs after.write_jobs) ≡ flatten (buffers (writes ++ more))
  after-bytes all =
      let (before, now) = All-split c.called_back round.callbacks all in
      let left : flatten (bufs after.write_jobs)
          ≡ flatten (bufs round.left) ++ flatten (buffers more) =
        ap flatten (map-append (λ (j : WriteJob). j.buf) round.left (new_jobs more))
        ∙ flatten-append (bufs round.left) (bufs (new_jobs more))
        ∙ ap (λ t. flatten (bufs round.left) ++ flatten t) (bufs-new_jobs more) in
      ap (λ t. (c.sent ++ round.sent) ++ t) left
      ∙ shuffle c.sent round.sent (flatten (bufs round.left)) (flatten (buffers more))
      ∙ ap (λ t. (c.sent ++ t) ++ flatten (buffers more)) (r.bytes now)
      ∙ ap (λ t. t ++ flatten (buffers more)) (h.bytes before)
      ∙ sym (flatten-append (buffers writes) (buffers more))
      ∙ ap flatten (sym (map-append (λ (a : ℕ × Bytes). a.1) writes more))

  after-IsOrdered : IsOrdered (writes ++ more) after
  after-IsOrdered = record { in_order = after-in_order; bytes = after-bytes }

fail_all-IsRound : (jobs : List WriteJob) → IsRound jobs (fail_all jobs)
unfolding fail_all flatten
fail_all-IsRound [] = record { in_order = refl; bytes = λ all. refl }
fail_all-IsRound (job ∷ jobs) = record {
  in_order = append-nil _ ∙ fail_all-ids (job ∷ jobs);
  bytes = λ all. absurd cc;
}

-- No job ran.
idle : List WriteJob → WriteRound
idle jobs = record { left = jobs; callbacks = []; sent = []; is_open = true }

idle-IsRound : (jobs : List WriteJob) → IsRound jobs (idle jobs)
unfolding idle
idle-IsRound jobs = record { in_order = refl; bytes = λ all. refl }

same-IsOrdered :
    (writes : List (ℕ × Bytes)) (c c' : WriteSide)
    → c ≡ c'
    → IsOrdered writes c
    → IsOrdered writes c'
same-IsOrdered writes c c' e h = subst (IsOrdered writes) e h

asked-IsOrdered :
    (writes : List (ℕ × Bytes)) (c c' : WriteSide) (id : ℕ) (buf : Bytes)
    → IsOrdered writes c
    → conn_write id buf c ≡ (true, c')
    → IsOrdered (writes ++ (id, buf) ∷ []) c'
unfolding conn_write idle
asked-IsOrdered writes c c' id buf h e =
    let more = (id, buf) ∷ [] in
    let round = idle c.write_jobs in
    let taken : record c { write_jobs = c.write_jobs ++ new_jobs more } ≡ c' =
      elim (Bool-cases c.is_closed) [
        | inl shut ↦ absurd (ground (arith, shut, e))
        | inr open_still ↦ ground (arith, open_still, e)
      ] in
    let same : after writes more c round c.is_closed h (idle-IsRound c.write_jobs) ≡ c' =
      ap₂
        (λ s t. record {
          is_closed = c.is_closed;
          write_jobs = c.write_jobs ++ new_jobs more;
          sent = s;
          called_back = t;
        })
        (append-nil c.sent) (append-nil c.called_back)
      ∙ taken in
    same-IsOrdered (writes ++ more) _ c' same
      (after-IsOrdered writes more c round c.is_closed h (idle-IsRound c.write_jobs))

ran-IsOrdered :
    (writes more : List (ℕ × Bytes)) (c c' : WriteSide) (answers : List WriteAnswer)
    → IsOrdered writes c
    → socket_do_write answers (new_jobs more) c ≡ ok c'
    → IsOrdered (writes ++ more) c'
unfolding socket_do_write
ran-IsOrdered writes more c c' answers h e =
    let (round, run, step) =
      >>=-eq-ok
        (if c.is_closed then ok (fail_all c.write_jobs) else socket_write_loop answers c.write_jobs)
        _ e in
    let r : IsRound c.write_jobs round = elim (Bool-cases c.is_closed) [
      | inl shut ↦
          let same : fail_all c.write_jobs ≡ round = ground (arith, shut, run) in
          subst (IsRound c.write_jobs) same (fail_all-IsRound c.write_jobs)
      | inr open_still ↦
          socket_write_loop-IsRound c.write_jobs answers round (ground (arith, open_still, run))
    ] in
    let same : after writes more c round c.is_closed h r ≡ c' = cc in
    same-IsOrdered (writes ++ more) _ c' same (after-IsOrdered writes more c round c.is_closed h r)

closed-IsOrdered :
    (writes : List (ℕ × Bytes)) (c : WriteSide)
    → IsOrdered writes c
    → IsOrdered writes (close_writes c)
unfolding close_writes
closed-IsOrdered writes c h = elim (Bool-cases c.is_closed) [
  | inl shut ↦
      let same : c ≡ close_writes c = ground (arith, shut) in
      same-IsOrdered writes c (close_writes c) same h
  | inr open_still ↦
      let r = fail_all-IsRound c.write_jobs in
      let round = fail_all c.write_jobs in
      let left : record c {
        is_closed = true;
        write_jobs = [];
        called_back = c.called_back ++ round.callbacks;
      }
          ≡ close_writes c =
        ground (arith, open_still) in
      let same : after writes [] c round true h r ≡ close_writes c =
        ap
          (λ s. record {
            is_closed = true;
            write_jobs = [];
            sent = s;
            called_back = c.called_back ++ round.callbacks;
          })
          (append-nil c.sent)
        ∙ left in
      subst (λ t. IsOrdered t (close_writes c)) (append-nil writes)
        (same-IsOrdered (writes ++ []) _ (close_writes c) same
          (after-IsOrdered writes [] c round true h r))
]

Took-IsOrdered : {writes : List (ℕ × Bytes)} {c : WriteSide} → Took writes c → IsOrdered writes c
unfolding flatten
Took-IsOrdered started = record { in_order = refl; bytes = λ all. refl }
Took-IsOrdered (asked {writes} {c} {c'} id buf t e) =
    asked-IsOrdered writes c c' id buf (Took-IsOrdered t) e
Took-IsOrdered (ran {writes} {c} {c'} answers more t e) =
    ran-IsOrdered writes more c c' answers (Took-IsOrdered t) e
Took-IsOrdered (closed {writes} {c} t) = closed-IsOrdered writes c (Took-IsOrdered t)

-- After any calls, jobs and closings of a connection, and whatever write(2) answered: the numbers of the
-- writes that were called back, with those that wait behind them, are the numbers of the writes that
-- the connection took, in order. So each is called back once at most, and after those before it.
pub called_back_in_order :
    {writes : List (ℕ × Bytes)} {c : WriteSide}
    → Took writes c
    → called c.called_back ++ ids c.write_jobs ≡ numbers writes
called_back_in_order t = (Took-IsOrdered t).in_order

-- After any calls, jobs and closings of a connection, and whatever write(2) answered, as long as no
-- callback reported a failure: what went out, with what the writes that wait have left, are the buffers
-- that the connection took, one after another.
pub sent_in_order :
    {writes : List (ℕ × Bytes)} {c : WriteSide}
    → Took writes c
    → All IsDone c.called_back
    → c.sent ++ flatten (bufs c.write_jobs) ≡ flatten (buffers writes)
sent_in_order t all = (Took-IsOrdered t).bytes all
