-- ===== src/Client/Runs/Sends.antt =====
-- How sending a request keeps the accounts.
use muti.Common.{
  ℕ, ◌+◌, ◌%◌, ◌^◌, ◌≡◌, refl, ap, List, [], ◌∷◌, ◌++◌, count, set_reference, Bool, Option, none,
  some, ok, inl, inr, Bool-cases, arith,
}
use muti.Wire.{Bytes}
use muti.Client.{ClientSendArg, Client, hash_of, client_send_request}
use muti.Messages.{ClusterRequest, ClusterRequestId}
use muti.Client.Handlers.{Requests, send_request, args_of, entries_below, client_waiting_hash_len}
use muti.Client.Runs.Waits.{
  waits, waits-set_slot, count-args_of-append, refused, accepted, entered, client_send_request-Sent,
}
use muti.Client.Runs.Accounts.{IsAccounted}

-- A client with the same lists.
pub same-waits :
    (c c' : Client) (n : ℕ) → c'.waiting_hash_slots ≡ c.waiting_hash_slots → waits c' n ≡ waits c n
unfolding waits
same-waits c c' n e =
    ap (λ (t : ℕ → List ClientSendArg). count n (args_of (entries_below client_waiting_hash_len t)))
      e

waits-entered :
    (c : Client) (id : ClusterRequestId) (arg n : ℕ)
    → waits (entered c id arg) n ≡ waits c n + count n (arg ∷ [])
waits-entered c id arg n =
    let q = (c.sequence + 1) % 2 ^ 32 in
    let slot = c.waiting_hash_slots (hash_of q) in
    let a : ClientSendArg = record { sequence = q; request_id = id; arg = arg } in
    omega (arith, waits-set_slot c q q (slot ++ a ∷ []) n, count-args_of-append n slot (a ∷ []))

-- What a request that was not written leaves.
refused-IsAccounted :
    (s : Requests) (c : Client) (w d : ℕ)
    → c.waiting_hash_slots ≡ s.client.waiting_hash_slots
    → w + s.write_done_counter ≡ s.write_counter + d
    → IsAccounted [] s
    → IsAccounted [] (record s {
      client = c;
      next_arg = s.next_arg + 1;
      write_counter = w;
      write_done_counter = d;
    })
refused-IsAccounted s c w d e f h = record {
  refs = λ n. omega (arith, h.refs n, same-waits s.client c n e);
  once = λ n. omega (arith, h.once n, same-waits s.client c n e);
  single = h.single;
  unsent = λ n le. h.unsent n (omega arith);
  writes = h.writes;
  keeps = h.keeps;
  write_count = omega (arith, h.write_count, f);
}

-- What a request that was written adds: its number was not in use.
accepted-IsAccounted :
    (s : Requests) (id : ClusterRequestId) (q : ℕ)
    → IsAccounted [] s
    → IsAccounted [] (record s {
      client = entered s.client id s.next_arg;
      next_arg = s.next_arg + 1;
      ref = set_reference s.ref s.next_arg 2;
      writing = (q, s.next_arg) ∷ s.writing;
      sent = s.next_arg ∷ s.sent;
      write_counter = s.write_counter + 1;
    })
unfolding set_reference
accepted-IsAccounted s id q h =
    let m = s.next_arg in
    let put = waits-entered s.client id m in
    let new = h.unsent m (omega arith) in
    record {
      refs = λ n. ground (arith, h.refs n, put n, h.once m, h.writes m, h.keeps m, new);
      once = λ n. ground (arith, h.once n, put n);
      single = λ n. ground (arith, h.single n, new);
      unsent = λ n le. ground (arith, h.unsent n);
      writes = λ n. ground (arith, h.writes n);
      keeps = h.keeps;
      write_count = omega (arith, h.write_count);
    }

pub send_request-IsAccounted :
    (req : ClusterRequest) (rc : Bool) (s : Requests) (x : Option Bytes × Client)
    → client_send_request s.client req s.next_arg rc ≡ ok x
    → IsAccounted [] s
    → (wbuf : Option Bytes) × (s' : Requests) × (send_request req rc s ≡ ok (wbuf, s'))
      × IsAccounted [] s'
      × ((s'.jobs ≡ s.jobs) × (s'.kept ≡ s.kept))
unfolding send_request
send_request-IsAccounted req rc s (wbuf, c) e h =
    elim (client_send_request-Sent s.client c req s.next_arg rc wbuf e) [
      | refused f up slots ↦ elim (Bool-cases s.client.conn) [
        | inl on ↦ (
          none,
          _,
          ground (arith, e, f, on),
          refused-IsAccounted s c (s.write_counter + 1) (s.write_done_counter + 1) slots
              (omega arith) h,
          (refl, refl),
        )
        | inr off ↦ (none, s, ground (arith, e, f, off), h, (refl, refl))
      ]
      | accepted buf id f put ↦ (
        some buf,
        _,
        ground (arith, e, f, put),
        accepted-IsAccounted s id ((s.client.sequence + 1) % 2 ^ 32) h,
        (refl, refl),
      )
    ]
