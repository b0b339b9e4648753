-- ===== src/Connection/Lifetime.antt =====
-- The references to a connection, from its making to its release.
use muti.Common.{
  ℕ, ◌+◌, ◌-◌, ◌≤◌, ◌≡◌, ◌⊎◌, [], length, count, Bool, true, false, Outcome, ok, aborted, ltb, ◌==◌,
  if◌then◌else◌,
}
use muti.Connection.Sides.{
  Runner, idle, starting, running, Side, new_side, Action, called, polled, act, gains, loses,
  CanAct, post_jobs,
}

-- `ConnectionLinux`. `owned` is the reference that `createConnection` gives it; `in_on_close` says that
-- `onClose` runs, and `on_close_calls` how often it was called.
pub record Lifetime : Type 0 where
  pub reads : Side
  pub writes : Side
  pub ref : ℕ
  pub owned : ℕ
  pub is_closed : ℕ
  pub in_on_close : Bool
  pub on_close_calls : ℕ

-- `createConnection`
unfoldable pub create_connection : Lifetime
unfolding new_side
create_connection = record {
  reads = new_side;
  writes = new_side;
  ref = 1;
  owned = 1;
  is_closed = 0;
  in_on_close = false;
  on_close_calls = 0;
}

-- Something happens on the side of the reads or of the writes; `socketCloseConnection` is called, up to
-- its call of `onClose`; and `onClose` returns.
pub data Happening : Type 0 where
  on_reads : Action → Happening
  on_writes : Action → Happening
  close_called : Happening
  on_close_returned : Happening

-- `socketIODone`, n times; its assert fails where the count falls below 0.
unfoldable pub io_done : ℕ → Lifetime → Outcome Lifetime
io_done n c = if ltb c.ref n then aborted else ok (record c { ref = c.ref - n })

-- `socketCloseConnection` up to its call of `onClose`, which only the first that comes makes.
unfoldable pub socket_close_connection : Lifetime → Outcome Lifetime
unfolding io_done post_jobs
socket_close_connection c =
    let again = record c { is_closed = c.is_closed + 1 } in
    let closed = record again {
      reads = post_jobs c.reads;
      writes = post_jobs c.writes;
      in_on_close = true;
      on_close_calls = c.on_close_calls + 1;
    } in
    if c.is_closed == 0
    then io_done (length c.reads.jobs + length c.writes.jobs) closed
    else ok again

unfoldable pub happen : Happening → Lifetime → Outcome Lifetime
unfolding act gains loses io_done socket_close_connection
happen (on_reads a) c =
    io_done (loses a) (record c { reads = act a c.reads; ref = c.ref + gains a })
happen (on_writes a) c =
    io_done (loses a) (record c { writes = act a c.writes; ref = c.ref + gains a })
happen close_called c = socket_close_connection c
happen on_close_returned c = io_done 1 (record c { in_on_close = false; owned = c.owned - 1 })

-- Whether only its owner may do it: calls and events come while `onClose` has not returned.
abbrev pub NeedsOwner : Action → Lifetime → Type 0
NeedsOwner (called id) c = (c.owned ≡ 1)
NeedsOwner polled c = (c.owned ≡ 1)
NeedsOwner _ c = Unit

abbrev pub CanHappen : Happening → Lifetime → Type 0
CanHappen (on_reads a) c = CanAct a c.reads × NeedsOwner a c
CanHappen (on_writes a) c = CanAct a c.writes × NeedsOwner a c
CanHappen close_called c = (c.owned ≡ 1)
CanHappen on_close_returned c = (c.in_on_close ≡ true)

pub data Lives : Lifetime → Type 0 where
  created : Lives create_connection
  happened :
      {c c' : Lifetime} (h : Happening) → Lives c → CanHappen h c → happen h c ≡ ok c' → Lives c'

abbrev pub busy : Runner → ℕ
busy idle = 0
busy starting = 1
busy running = 1

-- How many references a side has.
abbrev pub weight : Side → ℕ
weight s = length s.jobs + length s.taken + s.pooled + busy s.runner

pub record IsSide (s : Side) : Type 0 where
  pub flag : s.flag ≡ s.inserting + s.pooled + s.returning
  pub one : s.inserting + s.pooled ≤ 1
  pub resting : (s.runner ≡ running) ⊎ (s.taken ≡ [])
  pub once :
      (id : ℕ) → count id s.issued ≡ count id s.jobs + count id s.taken + count id s.called_back
