-- ===== src/ThreadPool/Choice.antt =====
-- corecode/util/ThreadPool2.c: the pool that hands its jobs to several pools of one thread, in turn
-- or by a hash.
use muti.Common.{
  ℕ, ◌+◌, ◌%◌, ◌^◌, ◌<◌, ◌≡◌, ◌≢◌, refl, ◌∙◌, Bool, List, Outcome, ok, ◌>>=◌, at, set, length,
  length-set, some, get_elem?, get_elem?_total, get_elem?-set_self, get_elem?-set_ne, get_elem?-lt,
  at-get_elem?, arith,
}
use muti.ThreadPool.{ThreadPool, insert_tail, insert_head}

-- `ThreadPoolPrivate` of that file
pub record ThreadPool2 : Type 0 where
  pub tp1 : List ThreadPool
  pub thread_num : ℕ
  pub current_idx : ℕ

-- `tp1->m->insertTail(tp1, job)` for the pool at a place
unfoldable pub insert_at :
    (ThreadPool → ℕ → Bool × ThreadPool) → ThreadPool2 → ℕ → ℕ → Outcome (Bool × ThreadPool2)
insert_at insert tp i job = do
  tp1 ← at tp.tp1 i
  let r = insert tp1 job
  ok (r.0, record tp { tp1 = set tp.tp1 i r.1 })

-- `__sync_fetch_and_add(&priv->current_idx, 1) % priv->thread_num`
unfoldable pub insert_tail2 : ThreadPool2 → ℕ → Outcome (Bool × ThreadPool2)
unfolding insert_at
insert_tail2 tp job =
    insert_at insert_tail (record tp { current_idx = (tp.current_idx + 1) % 2 ^ 32 })
      (tp.current_idx % tp.thread_num) job

unfoldable pub insert_head2 : ThreadPool2 → ℕ → Outcome (Bool × ThreadPool2)
unfolding insert_at
insert_head2 tp job =
    insert_at insert_head (record tp { current_idx = (tp.current_idx + 1) % 2 ^ 32 })
      (tp.current_idx % tp.thread_num) job

unfoldable pub insert_tail_hash2 : ThreadPool2 → ℕ → ℕ → Outcome (Bool × ThreadPool2)
unfolding insert_at
insert_tail_hash2 tp job hash = insert_at insert_tail tp (hash % tp.thread_num) job

unfoldable pub insert_head_hash2 : ThreadPool2 → ℕ → ℕ → Outcome (Bool × ThreadPool2)
unfolding insert_at
insert_head_hash2 tp job hash = insert_at insert_head tp (hash % tp.thread_num) job

pub record IsPool2 (tp : ThreadPool2) : Type 0 where
  pub count : length tp.tp1 ≡ tp.thread_num
  pub positive : 0 < tp.thread_num

-- An insert reached one pool: it has what `insert` made of it, and the others are as before.
pub record Inserted (insert : ThreadPool → ℕ → Bool × ThreadPool) (tp : ThreadPool2) (i job : ℕ)
    (rc : Bool) (tp' : ThreadPool2) : Type 0 where
  pub valid : IsPool2 tp'
  pub pool : ThreadPool
  pub found : get_elem? tp.tp1 i ≡ some pool
  pub answer : rc ≡ (insert pool job).0
  pub changed : get_elem? tp'.tp1 i ≡ some (insert pool job).1
  pub others : (j : ℕ) → i ≢ j → get_elem? tp'.tp1 j ≡ get_elem? tp.tp1 j

insert_at-Inserted :
    (insert : ThreadPool → ℕ → Bool × ThreadPool) (tp : ThreadPool2) (i job : ℕ)
    → IsPool2 tp
    → i < tp.thread_num
    → (rc : Bool) × (tp' : ThreadPool2) × (insert_at insert tp i job ≡ ok (rc, tp'))
      × Inserted insert tp i job rc tp'
      × (tp'.current_idx ≡ tp.current_idx)
unfolding insert_at
insert_at-Inserted insert tp i job v h =
    let (pool, here) = get_elem?_total tp.tp1 i (omega (arith, v.count)) in
    let new = (insert pool job).1 in
    (
      (insert pool job).0,
      record tp { tp1 = set tp.tp1 i new },
      rw (at-get_elem? tp.tp1 i pool here) refl,
      record {
        valid = record { count = length-set tp.tp1 i new ∙ v.count; positive = v.positive };
        pool = pool;
        found = here;
        answer = refl;
        changed = get_elem?-set_self tp.tp1 i new (get_elem?-lt tp.tp1 i pool here);
        others = λ j ne. get_elem?-set_ne tp.tp1 i j new ne;
      },
      refl,
    )

mod_lt : (a n : ℕ) → 0 < n → a % n < n
mod_lt a n h = omega arith

-- On a pool of pools with at least one of them, an insert at the tail goes to the pool that is next
-- in turn, and one with a hash to the pool that the hash picks, whatever the turn: the insert returns
-- what that pool returns, the other pools stay as they are, and the turn moves on, or stays.
pub insert_tail2-Inserted :
    (tp : ThreadPool2) (job hash : ℕ)
    → IsPool2 tp
    → ((rc : Bool) × (tp' : ThreadPool2) × (insert_tail2 tp job ≡ ok (rc, tp'))
        × Inserted insert_tail tp (tp.current_idx % tp.thread_num) job rc tp'
        × (tp'.current_idx ≡ (tp.current_idx + 1) % 2 ^ 32))
      × ((rc : Bool) × (tp' : ThreadPool2) × (insert_tail_hash2 tp job hash ≡ ok (rc, tp'))
          × Inserted insert_tail tp (hash % tp.thread_num) job rc tp'
          × (tp'.current_idx ≡ tp.current_idx))
unfolding insert_tail2 insert_tail_hash2
insert_tail2-Inserted tp job hash v =
    let turn : ThreadPool2 = record tp { current_idx = (tp.current_idx + 1) % 2 ^ 32 } in
    let (rc, tp', e, i, c) =
      insert_at-Inserted insert_tail turn (tp.current_idx % tp.thread_num) job
        (record { count = v.count; positive = v.positive })
        (mod_lt tp.current_idx tp.thread_num v.positive) in
    (
      (
        rc,
        tp',
        e,
        record {
          valid = i.valid;
          pool = i.pool;
          found = i.found;
          answer = i.answer;
          changed = i.changed;
          others = i.others;
        },
        c,
      ),
      insert_at-Inserted insert_tail tp (hash % tp.thread_num) job v
          (mod_lt hash tp.thread_num v.positive),
    )
