-- ===== src/Server/Buffers.antt =====
-- The callbacks of one connection of corecode/server/Server.c in any order, one after another: who holds the read
-- buffers, how many there are, and what the counters say.
pub mod Sound
pub mod Fresh
pub mod Steps
pub mod Tallies
pub mod Room
pub mod Runs
use muti.Common.{
  ℕ, zero, suc, ◌+◌, ◌-◌, ◌/◌, ◌<◌, ◌≤◌, ◌≡◌, refl, List, [], ◌∷◌, ◌++◌, length, count, drop_one,
  Bool, true, false, Option, none, some, Outcome, ok, ◌>>=◌, ◌==◌, if◌then◌else◌,
}
use muti.Wire.{Bytes, Reader}
use muti.Server.{
  ServerParam, SConnection, Decoded, server_on_connect, decode_requests, decode_refused,
  server_read_callback, server_read_refused, server_read_failed, server_do_action_callback,
  server_write_callback, server_on_close,
}

-- What can happen to a connection: the callback of a read, with the bytes, of which the
-- worker pool takes all jobs, or takes some and refuses the next, or with a failure; the callback
-- of the action on a request from a buffer, with the return value of `write`; the callback of a
-- write; and the close handler.
pub data Event : Type 0 where
  read_came : ℕ → Bytes → Event
  read_refused : ℕ → Bytes → ℕ → Event
  read_failed : ℕ → Event
  acted : ℕ → Bool → Event
  written : Event
  closed : Event

module _ {R : Type 0} (p : ServerParam)
    (request_handler : List (Option (ℕ → Option (Reader R)))) where
  -- The handler of each; the read that a callback starts does start.
  unfoldable pub handle : Event → SConnection → Outcome SConnection
  unfolding server_read_callback server_read_refused server_read_failed server_do_action_callback
      server_write_callback server_on_close
  handle (read_came b bytes) c =
      server_read_callback p request_handler b bytes true c >>= λ r. ok r.1
  handle (read_refused b bytes n) c =
      server_read_refused p request_handler b bytes n c >>= λ r. ok r.1
  handle (read_failed b) c = server_read_failed p b c
  handle (acted b rc) c = server_do_action_callback p b rc c
  handle written c = ok (server_write_callback c)
  handle closed c = ok (server_on_close c)

  -- When it can happen: the connection calls a read's callback once, with no more bytes than it was
  -- given room for, from which the handlers decode without a stop of the process, and an action's and
  -- a write's callbacks come once.
  abbrev pub IsEnabled : Event → SConnection → Type 0
  IsEnabled (read_came b bytes) c =
      (c.reading ≡ some b)
      × (c.processed + length c.content + length bytes ≤ p.read_buffer_size)
      × ((d : Decoded R) × (decode_requests request_handler (c.content ++ bytes) ≡ ok d))
  IsEnabled (read_refused b bytes n) c =
      (c.reading ≡ some b)
      × (c.processed + length c.content + length bytes ≤ p.read_buffer_size)
      × ((requests : List R) × (left : Bytes) × (decode_refused request_handler n
              (c.content ++ bytes)
            ≡ ok (requests, left)))
  IsEnabled (read_failed b) c = (c.reading ≡ some b)
  IsEnabled (acted b rc) c = (0 < count b c.inflight)
  IsEnabled written c = (c.write_done_counter < c.write_counter)
  IsEnabled closed c = Unit

  pub data Reach : SConnection → Type 0 where
    connected : Reach server_on_connect
    happened :
        {c c' : SConnection} (e : Event) → Reach c → IsEnabled e c → handle e c ≡ ok c' → Reach c'
