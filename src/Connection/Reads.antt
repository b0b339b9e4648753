-- ===== src/Connection/Reads.antt =====
-- The order of the bytes that come in and of the callbacks of reads.
use muti.Common.{
  ℕ, zero, suc, ◌-◌, ◌≡◌, refl, sym, ap, ◌∙◌, subst, inl, inr, List, [], ◌∷◌, ◌++◌, append_assoc,
  append-nil, map, length, true, false, Bool-cases, Option, none, some, Option-cases, ok, >>=-eq-ok,
  ltb, arith,
}
use muti.Wire.{Bytes}
use muti.Connection.{
  ReadAnswer, got, read_interrupted, read_would_block, read_broken, ReadJob, socket_none_block_read,
  ReadRound, socket_read_loop,
}

-- All that read(2) brought in these answers.
abbrev pub brought : List ReadAnswer → Bytes
brought [] = []
brought (got bytes ∷ answers) = bytes ++ brought answers
brought (read_interrupted ∷ answers) = brought answers
brought (read_would_block ∷ answers) = brought answers
brought (read_broken ∷ answers) = brought answers

-- All that the callbacks were given.
abbrev pub delivered : List (ℕ × Option Bytes) → Bytes
delivered [] = []
delivered ((id, none) ∷ callbacks) = delivered callbacks
delivered ((id, some bytes) ∷ callbacks) = bytes ++ delivered callbacks

abbrev pub read_ids : List ReadJob → List ℕ
read_ids jobs = map (λ (j : ReadJob). j.id) jobs

abbrev pub called_reads : List (ℕ × Option Bytes) → List ℕ
called_reads callbacks = map (λ (c : ℕ × Option Bytes). c.0) callbacks

-- A read that did not fail has the front of what came.
socket_none_block_read-front :
    (answers rest : List ReadAnswer) (room : ℕ) (bytes : Bytes)
    → socket_none_block_read answers room ≡ ok (some bytes, rest)
    → brought answers ≡ bytes ++ brought rest
unfolding socket_none_block_read
socket_none_block_read-front answers rest zero bytes e =
    let none_read : [] ≡ bytes = cc in
    let same : answers ≡ rest = cc in ap brought same ∙ ap (λ t. t ++ brought rest) none_read
socket_none_block_read-front [] rest (suc room) bytes e = absurd cc
socket_none_block_read-front (read_interrupted ∷ answers) rest (suc room) bytes e =
    socket_none_block_read-front answers rest (suc room) bytes e
socket_none_block_read-front (read_would_block ∷ answers) rest (suc room) bytes e =
    let none_read : [] ≡ bytes = cc in
    let same : answers ≡ rest = cc in ap brought same ∙ ap (λ t. t ++ brought rest) none_read
socket_none_block_read-front (read_broken ∷ answers) rest (suc room) bytes e = absurd cc
socket_none_block_read-front (got [] ∷ answers) rest (suc room) bytes e = absurd cc
socket_none_block_read-front (got (b ∷ first) ∷ answers) rest (suc room) bytes e =
    let ((result, rest₁), run, step) =
      >>=-eq-ok (socket_none_block_read answers (room - length first)) _ e in
    elim (Option-cases result) [
      | inl lost ↦ absurd (ground (arith, lost, step))
      | inr (more, f) ↦
          let run₁ : socket_none_block_read answers (room - length first) ≡ ok (some more, rest) =
            ground (arith, run, f, step) in
          let same : b ∷ first ++ more ≡ bytes = ground (arith, f, step) in
          ap (λ t. b ∷ first ++ t)
            (socket_none_block_read-front answers rest (room - length first) more run₁)
          ∙ sym (append_assoc (b ∷ first) more (brought rest))
          ∙ ap (λ t. t ++ brought rest) same
    ]

-- What a round of the reading loop does.
record IsReadRound (answers : List ReadAnswer) (jobs : List ReadJob) (round : ReadRound)
    : Type 0 where
  in_order : called_reads round.callbacks ++ read_ids round.left ≡ read_ids jobs
  front : (rest : Bytes) × (brought answers ≡ delivered round.callbacks ++ rest)

none_delivered : (jobs : List ReadJob) → delivered (map (λ (j : ReadJob). (j.id, none)) jobs) ≡ []
none_delivered [] = refl
none_delivered (j ∷ jobs) = none_delivered jobs

all_called :
    (jobs : List ReadJob) → called_reads (map (λ (j : ReadJob). (j.id, none)) jobs) ≡ read_ids jobs
all_called [] = refl
all_called (j ∷ jobs) = ap (λ t. j.id ∷ t) (all_called jobs)

socket_read_loop-IsReadRound :
    (jobs : List ReadJob) (answers : List ReadAnswer) (round : ReadRound)
    → socket_read_loop answers jobs ≡ ok round
    → IsReadRound answers jobs round
unfolding socket_read_loop
socket_read_loop-IsReadRound [] answers round e =
    let same : record { left = []; callbacks = []; is_open = true } ≡ round = cc in
    subst (IsReadRound answers []) same
      (record { in_order = refl; front = (brought answers, refl) })
socket_read_loop-IsReadRound (job ∷ jobs) answers round e =
    let ((result, rest), run, step) = >>=-eq-ok (socket_none_block_read answers job.buf_size) _ e in
    elim (Option-cases result) [
      | inl lost ↦
          let same : record {
            left = [];
            callbacks = map (λ (j : ReadJob). (j.id, none)) (job ∷ jobs);
            is_open = false;
          }
              ≡ round =
            ground (arith, lost, step) in
          subst (IsReadRound answers (job ∷ jobs)) same (record {
            in_order = append-nil _ ∙ all_called (job ∷ jobs);
            front = (
              brought answers,
              ap (λ t. t ++ brought answers) (sym (none_delivered (job ∷ jobs))),
            );
          })
      | inr ([], f) ↦
          let same : record { left = job ∷ jobs; callbacks = []; is_open = true } ≡ round =
            ground (arith, f, step) in
          subst (IsReadRound answers (job ∷ jobs)) same
            (record { in_order = refl; front = (brought answers, refl) })
      | inr (b ∷ bytes, f) ↦
          let run₁ : socket_none_block_read answers job.buf_size ≡ ok (some (b ∷ bytes), rest) =
            ground (arith, run, f) in
          let front = socket_none_block_read-front answers rest job.buf_size (b ∷ bytes) run₁ in
          elim (Bool-cases (ltb (suc (length bytes)) job.buf_size)) [
            | inl part ↦
                let same : record {
                  left = jobs;
                  callbacks = (job.id, some (b ∷ bytes)) ∷ [];
                  is_open = true;
                }
                    ≡ round =
                  ground (arith, f, part, step) in
                subst (IsReadRound answers (job ∷ jobs)) same (record {
                  in_order = refl;
                  front = (
                    brought rest,
                    front ∙ ap (λ t. t ++ brought rest) (sym (append-nil (b ∷ bytes))),
                  );
                })
            | inr whole ↦
                let (round₁, run₂, step₁) =
                  >>=-eq-ok (socket_read_loop rest jobs)
                    (λ (r : ReadRound).
                      ok (record r { callbacks = (job.id, some (b ∷ bytes)) ∷ r.callbacks }))
                    {c = round} (ground (arith, f, whole, step)) in
                let h = socket_read_loop-IsReadRound jobs rest round₁ run₂ in
                let same : record round₁ {
                  callbacks = (job.id, some (b ∷ bytes)) ∷ round₁.callbacks;
                }
                    ≡ round =
                  cc in
                let (later, g) = h.front in
                subst (IsReadRound answers (job ∷ jobs)) same (record {
                  in_order = ap (λ t. job.id ∷ t) h.in_order;
                  front = (
                    later,
                    front
                        ∙ ap (λ t. b ∷ bytes ++ t) g
                        ∙ sym (append_assoc (b ∷ bytes) (delivered round₁.callbacks) later),
                  );
                })
          ]
    ]

-- In a round of the reading job of a connection, whatever read(2) answered: the reads are called back in
-- order, and the reads that wait come after them; and the bytes of the callbacks, one after another,
-- are the front of the bytes that came.
pub delivered_in_order :
    (jobs : List ReadJob) (answers : List ReadAnswer) (round : ReadRound)
    → socket_read_loop answers jobs ≡ ok round
    → (called_reads round.callbacks ++ read_ids round.left ≡ read_ids jobs)
      × ((rest : Bytes) × (brought answers ≡ delivered round.callbacks ++ rest))
delivered_in_order jobs answers round e =
    let h = socket_read_loop-IsReadRound jobs answers round e in (h.in_order, h.front)
