-- ===== src/Connection/Writes.antt =====
-- The order of the bytes that go out and of the callbacks of writes.
use muti.Common.{
  ℕ, zero, suc, ◌+◌, ◌≤◌, ◌≡◌, inl, inr, refl, sym, ap, ap₂, ◌∙◌, subst, List, [], ◌∷◌, ◌++◌,
  append_assoc, append-nil, map, flatten, All, length, take, drop, Bool, true, Bool-cases, some,
  Option-cases, ok, >>=-eq-ok, ltb, arith,
}
use muti.Wire.{Bytes}
use muti.Connection.{
  WriteAnswer, wrote, write_interrupted, write_would_block, write_broken, WriteJob, Written,
  socket_none_block_write, WriteRound, fail_all, socket_write_loop,
}

take-drop : (n : ℕ) (xs : Bytes) → take n xs ++ drop n xs ≡ xs
take-drop zero xs = refl
take-drop (suc n) [] = refl
take-drop (suc n) (x ∷ xs) = ap (λ t. x ∷ t) (take-drop n xs)

drop_all : (n : ℕ) (xs : Bytes) → length xs ≤ n → drop n xs ≡ []
drop_all zero [] h = refl
drop_all zero (x ∷ xs) h = absurd (omega arith)
drop_all (suc n) [] h = refl
drop_all (suc n) (x ∷ xs) h = drop_all n xs (omega arith)

drop-nil : (n : ℕ) → drop {A = ℕ} n [] ≡ []
drop-nil zero = refl
drop-nil (suc n) = refl

drop-suc : (n m : ℕ) (x : ℕ) (xs : Bytes) → drop (suc n + m) (x ∷ xs) ≡ drop (n + m) xs
drop-suc n m x xs = let e : suc n + m ≡ suc (n + m) = omega arith in ap (λ t. drop t (x ∷ xs)) e

drop-drop : (n m : ℕ) (xs : Bytes) → drop (n + m) xs ≡ drop m (drop n xs)
drop-drop zero m xs = let e : 0 + m ≡ m = omega arith in ap (λ t. drop t xs) e
drop-drop (suc n) m [] = drop-nil (suc n + m) ∙ sym (drop-nil m)
drop-drop (suc n) m (x ∷ xs) = drop-suc n m x xs ∙ drop-drop n m xs

-- What went out is the front of the buffer.
socket_none_block_write-front :
    (answers : List WriteAnswer) (buf : Bytes) (w : Written) (n : ℕ)
    → socket_none_block_write answers buf ≡ ok w
    → w.result ≡ some n
    → w.sent ++ drop n buf ≡ buf
unfolding socket_none_block_write
socket_none_block_write-front answers [] w n e f =
    let nothing : w.sent ≡ [] = ground (arith, e) in ap₂ (λ s t. s ++ t) nothing (drop-nil n)
socket_none_block_write-front [] (b ∷ buf) w n e f = absurd cc
socket_none_block_write-front (write_interrupted ∷ answers) (b ∷ buf) w n e f =
    socket_none_block_write-front answers (b ∷ buf) w n e f
socket_none_block_write-front (write_would_block ∷ answers) (b ∷ buf) w n e f =
    let nothing : w.sent ≡ [] = ground (arith, e) in
    let none_gone : 0 ≡ n = ground (arith, e, f) in
    ap₂ (λ s t. s ++ drop t (b ∷ buf)) nothing (sym none_gone)
socket_none_block_write-front (write_broken ∷ answers) (b ∷ buf) w n e f =
    absurd (ground (arith, e, f))
socket_none_block_write-front (wrote zero ∷ answers) (b ∷ buf) w n e f =
    absurd (ground (arith, e, f))
socket_none_block_write-front (wrote (suc k) ∷ answers) (b ∷ buf) w n e f =
    let (w₁, run, step) = >>=-eq-ok (socket_none_block_write answers (drop k buf)) _ e in
    elim (Option-cases w₁.result) [
      | inl lost ↦ absurd (ground (arith, lost, step, f))
      | inr (m, g) ↦
          let rest = socket_none_block_write-front answers (drop k buf) w₁ m run g in
          let gone : suc k + m ≡ n = ground (arith, g, step, f) in
          let out : b ∷ take k buf ++ w₁.sent ≡ w.sent = ground (arith, step) in
          let behind : drop n (b ∷ buf) ≡ drop m (drop k buf) =
            ap (λ t. drop t (b ∷ buf)) (sym gone) ∙ drop-suc k m b buf ∙ drop-drop k m buf in
          ap₂ (λ s t. s ++ t) (sym out) behind
          ∙ ap (λ t. b ∷ t)
              (append_assoc (take k buf) w₁.sent (drop m (drop k buf))
                ∙ ap (λ t. take k buf ++ t) rest
                ∙ take-drop k buf)
    ]

abbrev pub ids : List WriteJob → List ℕ
ids jobs = map (λ (j : WriteJob). j.id) jobs

abbrev pub bufs : List WriteJob → List Bytes
bufs jobs = map (λ (j : WriteJob). j.buf) jobs

abbrev pub called : List (ℕ × Bool) → List ℕ
called callbacks = map (λ (c : ℕ × Bool). c.0) callbacks

abbrev pub IsDone : ℕ × Bool → Type 0
IsDone c = c.1 ≡ true

pub fail_all-ids : (jobs : List WriteJob) → called (fail_all jobs).callbacks ≡ ids jobs
unfolding fail_all
fail_all-ids [] = refl
fail_all-ids (job ∷ jobs) = ap (λ t. job.id ∷ t) (fail_all-ids jobs)

-- What a round of the loop does: it calls back the first jobs, and if each was done, what went out with
-- what is left is what there was.
pub record IsRound (jobs : List WriteJob) (round : WriteRound) : Type 0 where
  pub in_order : called round.callbacks ++ ids round.left ≡ ids jobs
  pub bytes :
      All IsDone round.callbacks → round.sent ++ flatten (bufs round.left) ≡ flatten (bufs jobs)

same-IsRound :
    (jobs : List WriteJob) (round round' : WriteRound)
    → round ≡ round'
    → IsRound jobs round
    → IsRound jobs round'
same-IsRound jobs round round' e h = subst (IsRound jobs) e h

-- The rounds that end at the first job: its write failed, or it stays.
lost-IsRound :
    (job : WriteJob) (jobs : List WriteJob) (out : Bytes)
    → IsRound (job ∷ jobs) (record (fail_all (job ∷ jobs)) { sent = out })
unfolding fail_all
lost-IsRound job jobs out = record {
  in_order = append-nil _ ∙ fail_all-ids (job ∷ jobs);
  bytes = λ all. absurd cc;
}

kept-IsRound :
    (job : WriteJob) (jobs : List WriteJob) (out rest : Bytes) (trans_num : ℕ)
    → out ++ rest ≡ job.buf
    → IsRound (job ∷ jobs) (record {
      left = record job { buf = rest; trans_num = trans_num } ∷ jobs;
      callbacks = [];
      sent = out;
      is_open = true;
    })
unfolding flatten
kept-IsRound job jobs out rest trans_num e = record {
  in_order = refl;
  bytes = λ all.
      sym (append_assoc out rest (flatten (bufs jobs))) ∙ ap (λ t. t ++ flatten (bufs jobs)) e;
}

-- The first job is done.
done-IsRound :
    (job : WriteJob) (jobs : List WriteJob) (out : Bytes) (round : WriteRound)
    → out ≡ job.buf
    → IsRound jobs round
    → IsRound
        (job ∷ jobs)
        (record round { callbacks = (job.id, true) ∷ round.callbacks; sent = out ++ round.sent })
unfolding flatten
done-IsRound job jobs out round e h = record {
  in_order = ap (λ t. job.id ∷ t) h.in_order;
  bytes = λ all.
      append_assoc out round.sent (flatten (bufs round.left))
      ∙ ap₂ (λ s t. s ++ t) e (h.bytes all.1);
}

pub socket_write_loop-IsRound :
    (jobs : List WriteJob) (answers : List WriteAnswer) (round : WriteRound)
    → socket_write_loop answers jobs ≡ ok round
    → IsRound jobs round
unfolding socket_write_loop flatten
socket_write_loop-IsRound [] answers round e =
    let same : record { left = []; callbacks = []; sent = []; is_open = true } ≡ round = cc in
    same-IsRound [] _ round same (record { in_order = refl; bytes = λ all. refl })
socket_write_loop-IsRound (job ∷ jobs) answers round e =
    let (w, run, step) = >>=-eq-ok (socket_none_block_write answers job.buf) _ e in
    elim (Option-cases w.result) [
      | inl lost ↦
          let same : record (fail_all (job ∷ jobs)) { sent = w.sent } ≡ round =
            ground (arith, lost, step) in
          same-IsRound (job ∷ jobs) _ round same (lost-IsRound job jobs w.sent)
      | inr (zero, f) ↦
          let front = socket_none_block_write-front answers job.buf w 0 run f in
          let same : record { left = job ∷ jobs; callbacks = []; sent = w.sent; is_open = true }
              ≡ round =
            ground (arith, f, step) in
          same-IsRound (job ∷ jobs) _ round same
            (kept-IsRound job jobs w.sent job.buf job.trans_num front)
      | inr (suc n, f) ↦
          let front = socket_none_block_write-front answers job.buf w (suc n) run f in
          elim (Bool-cases (ltb (suc n) (length job.buf))) [
            | inl part ↦
                let same : record {
                  left =
                      record job { buf = drop (suc n) job.buf; trans_num = job.trans_num + suc n }
                      ∷ jobs;
                  callbacks = [];
                  sent = w.sent;
                  is_open = true;
                }
                    ≡ round =
                  ground (arith, f, part, step) in
                same-IsRound (job ∷ jobs) _ round same (
                  kept-IsRound job jobs w.sent (drop (suc n) job.buf) (job.trans_num + suc n) front)
            | inr whole ↦
                let (round₁, run₁, step₁) =
                  >>=-eq-ok (socket_write_loop w.answers jobs)
                    (λ (r : WriteRound). ok (record r {
                      callbacks = (job.id, true) ∷ r.callbacks;
                      sent = w.sent ++ r.sent;
                    }))
                    {c = round} (ground (arith, f, whole, step)) in
                let all_gone : w.sent ≡ job.buf =
                  sym (append-nil w.sent)
                  ∙ ap (λ t. w.sent ++ t) (sym (drop_all (suc n) job.buf (ground arith)))
                  ∙ front in
                let same : record round₁ {
                  callbacks = (job.id, true) ∷ round₁.callbacks;
                  sent = w.sent ++ round₁.sent;
                }
                    ≡ round =
                  cc in
                same-IsRound (job ∷ jobs) _ round same (
                  done-IsRound job jobs w.sent round₁ all_gone
                    (socket_write_loop-IsRound jobs w.answers round₁ run₁))
          ]
    ]
