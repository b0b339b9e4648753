-- ===== src/Tests/Connections.antt =====
-- A connection with two writes, the first of which goes out in parts, and two reads.
use muti.Common.{ℕ, ◌≡◌, refl, List, [], ◌∷◌, ◌++◌, true, false, some, flatten, ok}
use muti.Wire.{Bytes}
use muti.Connection.{
  wrote, write_interrupted, write_would_block, got, read_interrupted, read_would_block, WriteSide,
  ReadRound, conn_write, socket_do_write, socket_read_loop,
}
use muti.Connection.Order.{Took, started, asked, ran, sent_in_order}
use muti.Connection.Reads.{delivered, called_reads, read_ids, delivered_in_order}

-- One byte of the first write and the second write are left.
abbrev part_out : WriteSide
part_out = record {
  is_closed = false;
  write_jobs =
      record { id = 1; buf = 67 ∷ []; trans_num = 2 }
      ∷ record { id = 2; buf = 68 ∷ []; trans_num = 0 }
      ∷ [];
  sent = 65 ∷ 66 ∷ [];
  called_back = [];
}

abbrev two_writes : List (ℕ × Bytes)
two_writes = (1, 65 ∷ 66 ∷ 67 ∷ []) ∷ (2, 68 ∷ []) ∷ []

part_out-Took : Took two_writes part_out
unfolding conn_write socket_do_write
part_out-Took =
    ran (wrote 2 ∷ write_interrupted ∷ write_would_block ∷ []) []
      (asked 2 (68 ∷ []) (asked 1 (65 ∷ 66 ∷ 67 ∷ []) started refl) refl) refl

-- The first write is done, and the second waits.
abbrev one_out : WriteSide
one_out = record part_out {
  write_jobs = record { id = 2; buf = 68 ∷ []; trans_num = 0 } ∷ [];
  sent = 65 ∷ 66 ∷ 67 ∷ [];
  called_back = (1, true) ∷ [];
}

one_out-Took : Took two_writes one_out
unfolding socket_do_write
one_out-Took = ran (wrote 1 ∷ write_would_block ∷ []) [] part_out-Took refl

sent_in_order_example :
    one_out.sent ++ flatten ((68 ∷ []) ∷ []) ≡ flatten ((65 ∷ 66 ∷ 67 ∷ []) ∷ (68 ∷ []) ∷ [])
sent_in_order_example = sent_in_order one_out-Took (refl, tt)

abbrev read_round : ReadRound
read_round = record {
  left = record { id = 4; buf_size = 9 } ∷ [];
  callbacks = (3, some (65 ∷ 66 ∷ [])) ∷ [];
  is_open = true;
}

read_round-run :
    socket_read_loop
      (got (65 ∷ []) ∷ read_interrupted ∷ got (66 ∷ []) ∷ read_would_block ∷ [])
      (record { id = 3; buf_size = 2 } ∷ record { id = 4; buf_size = 9 } ∷ [])
    ≡ ok read_round
unfolding socket_read_loop
read_round-run = refl

delivered_in_order_example :
    (called_reads read_round.callbacks ++ read_ids read_round.left ≡ 3 ∷ 4 ∷ [])
    × ((rest : Bytes) × (65 ∷ 66 ∷ [] ≡ delivered read_round.callbacks ++ rest))
delivered_in_order_example =
    delivered_in_order (record { id = 3; buf_size = 2 } ∷ record { id = 4; buf_size = 9 } ∷ [])
      (got (65 ∷ []) ∷ read_interrupted ∷ got (66 ∷ []) ∷ read_would_block ∷ []) read_round
      read_round-run
