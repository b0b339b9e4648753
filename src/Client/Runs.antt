-- ===== src/Client/Runs.antt =====
-- The callbacks of one connection of corecode/client/Client.c, and the calls of `sendRequest`, in any
-- order.
pub mod Waits
pub mod Holders
pub mod Accounts
pub mod Sends
pub mod Written
pub mod Steps
pub mod Sound
pub mod Close
use muti.Common.{
  ℕ, suc, ◌+◌, ◌<◌, ◌≤◌, ◌≡◌, List, [], ◌∷◌, ◌++◌, map, length, count, get_elem?, remove_at, Bool,
  true, false, Option, none, some, Outcome, ok, ◌>>=◌, at,
}
use muti.Wire.{Bytes}
use muti.Messages.{ClusterRequest}
use muti.Client.{hash_of, client_send_request, Client, Received, client_read}
use muti.Client.Handlers.{
  Requests, CConnection, client_on_connect, send_request, args_of, client_write_callback,
  disconnect, fail_waiting, client_read_callback, client_read_failed, client_free_resp,
  client_do_job,
}

-- What can happen: a call of `sendRequest`, with what `write` returns; the callback of a read, with
-- the bytes and what the next `read` returns, or with a failure; a worker takes a job, whose callback
-- keeps the response or does not; such a response is freed; the callback of a write; and the close
-- handler, which starts, and goes on behind its two loops.
pub data Event : Type 0 where
  requested : ClusterRequest → Bool → Event
  read_came : ℕ → Bytes → Bool → Event
  read_failed : ℕ → Event
  did : ℕ → Bool → Event
  freed : ℕ → Event
  written : ℕ → Bool → Event
  closing : Event
  closed : Event

module _ (read_buffer_size : ℕ) where
  -- The handler of each; a job, a response or a write leaves its list when it is taken.
  unfoldable pub handle : Event → CConnection → Outcome CConnection
  unfolding send_request client_write_callback disconnect fail_waiting client_read_callback
      client_read_failed client_free_resp client_do_job
  handle (requested req rc) c = do
    (wbuf, s) ← send_request req rc c.requests
    ok (record c { requests = s })
  handle (read_came b bytes rc) c = client_read_callback read_buffer_size b bytes rc c
  handle (read_failed b) c = client_read_failed b c
  handle (did i keep) c = do
    job ← at c.requests.jobs i
    let s = record c.requests { jobs = remove_at i c.requests.jobs }
    client_do_job job keep (record c { requests = s })
  handle (freed i) c = do
    job ← at c.requests.kept i
    let s = record c.requests { kept = remove_at i c.requests.kept }
    client_free_resp job (record c { requests = s })
  handle (written i rc) c = do
    w ← at c.requests.writing i
    let s = record c.requests { writing = remove_at i c.requests.writing }
    s' ← client_write_callback rc w s
    ok (record c { requests = s' })
  handle closing c = ok (record c { requests = disconnect c.requests })
  handle closed c = ok (record c { requests = fail_waiting c.requests })

  -- When a write's callback can come: a write that fails is that of a request that still waits.
  abbrev pub CanEnd : Bool → Option (ℕ × ℕ) → Requests → Type 0
  CanEnd rc none s = ⊥
  CanEnd true (some w) s = Unit
  CanEnd false (some (q, n)) s = 0 < count n (args_of (s.client.waiting_hash_slots (hash_of q)))

  -- When it can happen. A request is encoded and what was read is decoded without a stop of the
  -- process; the connection calls a read's callback once, with no more bytes than it was given room
  -- for; and the two loops of the close handler end when the counters agree.
  abbrev pub IsEnabled : Event → CConnection → Type 0
  IsEnabled (requested req rc) c =
      (x : Option Bytes × Client) × (client_send_request c.requests.client req c.requests.next_arg
          rc
        ≡ ok x)
  IsEnabled (read_came b bytes rc) c =
      (c.reading ≡ some b)
      × (c.processed + length c.content + length bytes ≤ read_buffer_size)
      × ((r : Received) × (client_read (suc (length (c.content ++ bytes))) c.requests.client
              (c.content ++ bytes)
            ≡ ok r))
  IsEnabled (read_failed b) c = (c.reading ≡ some b)
  IsEnabled (did i keep) c = (i < length c.requests.jobs)
  IsEnabled (freed i) c = (i < length c.requests.kept)
  IsEnabled (written i rc) c = CanEnd rc (get_elem? c.requests.writing i) c.requests
  IsEnabled closing c = Unit
  IsEnabled closed c =
      (c.requests.client.conn ≡ false)
      × (c.read_counter ≡ c.read_done_counter)
      × (c.requests.write_counter ≡ c.requests.write_done_counter)

  pub data Reach : CConnection → Type 0 where
    connected : Reach client_on_connect
    happened :
        {c c' : CConnection} (e : Event) → Reach c → IsEnabled e c → handle e c ≡ ok c' → Reach c'
