-- ===== src/Client/Runs/Waits.antt =====
-- How often a request waits in the lists of a client, and what sending and reading do to that.
use muti.Common.{
  ℕ, zero, suc, ◌+◌, ◌%◌, ◌^◌, ◌<◌, ◌≤◌, ◌≡◌, refl, ap, ◌∙◌, List, [], ◌∷◌, ◌++◌, map, length,
  count, count-append, Bool, Option, none, some, Outcome, ok, ◌>>=◌, >>=-eq-ok, ltb, ◌==◌,
  if◌then◌else◌, inl, inr, Bool-cases, Option-cases, Outcome-cases, arith,
}
use muti.Common.Bits.{bit_and-le}
use muti.Wire.{Bytes}
use muti.Messages.{
  ClusterRequest, ClusterResponse, ClusterRequestId, cluster_request_encoder,
  cluster_response_decoder, read_response_header,
}
use muti.Client.{
  mon_sender, ClientSendArg, Client, hash_of, find, unlink, set_slot, client_send_request,
  error_response_decoder, Received, client_read,
}
use muti.Client.Handlers.{args_of, delete, entries_below, client_waiting_hash_len}

-- How often a request waits.
unfoldable pub waits : Client → ℕ → ℕ
waits c n = count n (args_of (entries_below client_waiting_hash_len c.waiting_hash_slots))

pub args_of-append : (xs ys : List ClientSendArg) → args_of (xs ++ ys) ≡ args_of xs ++ args_of ys
args_of-append [] ys = refl
args_of-append (x ∷ xs) ys = ap (◌∷◌ x.arg) (args_of-append xs ys)

pub count-args_of-append :
    (n : ℕ) (xs ys : List ClientSendArg)
    → count n (args_of (xs ++ ys)) ≡ count n (args_of xs) + count n (args_of ys)
count-args_of-append n xs ys =
    ap (count n) (args_of-append xs ys) ∙ count-append n (args_of xs) (args_of ys)

hash_of-lt : (q : ℕ) → hash_of q < client_waiting_hash_len
unfolding hash_of client_waiting_hash_len
hash_of-lt q = omega (arith, bit_and-le q 127)

module _ (slots : ℕ → List ClientSendArg) (i : ℕ) (slot : List ClientSendArg) (n : ℕ) where
  above :
      (k : ℕ)
      → k ≤ i
      → count n (args_of (entries_below k (set_slot slots i slot)))
        ≡ count n (args_of (entries_below k slots))
  unfolding entries_below set_slot
  above zero le = refl
  above (suc k) le = ground (
    arith,
    above k,
    count-args_of-append n (entries_below k (set_slot slots i slot)) (set_slot slots i slot k),
    count-args_of-append n (entries_below k slots) (slots k),
  )

  -- A write to one list.
  below :
      (k : ℕ)
      → i < k
      → count n (args_of (entries_below k (set_slot slots i slot))) + count n (args_of (slots i))
        ≡ count n (args_of (entries_below k slots)) + count n (args_of slot)
  unfolding entries_below set_slot
  below zero lt = absurd (omega arith)
  below (suc k) lt = ground (
    arith,
    below k,
    above k,
    count-args_of-append n (entries_below k (set_slot slots i slot)) (set_slot slots i slot k),
    count-args_of-append n (entries_below k slots) (slots k),
  )

-- A write to the list of a sequence number.
pub waits-set_slot :
    (c : Client) (q sequence : ℕ) (slot : List ClientSendArg) (n : ℕ)
    → waits
          (record c {
            sequence = sequence;
            waiting_hash_slots = set_slot c.waiting_hash_slots (hash_of q) slot;
          })
          n
        + count n (args_of (c.waiting_hash_slots (hash_of q)))
      ≡ waits c n + count n (args_of slot)
unfolding waits
waits-set_slot c q sequence slot n =
    below c.waiting_hash_slots (hash_of q) slot n client_waiting_hash_len (hash_of-lt q)

count-unlink :
    (q n : ℕ) (slot : List ClientSendArg) (a : ClientSendArg)
    → find q slot ≡ some a
    → count n (args_of slot) ≡ count n (a.arg ∷ args_of (unlink q slot))
unfolding find unlink
count-unlink q n [] a e = cc
count-unlink q n (b ∷ slot) a e = ground (arith, count-unlink q n slot a)

pub count-delete :
    (m n : ℕ) (slot : List ClientSendArg)
    → 0 < count m (args_of slot)
    → count n (args_of slot) ≡ count n (m ∷ args_of (delete m slot))
unfolding delete
count-delete m n [] h = absurd (omega arith)
count-delete m n (b ∷ slot) h = ground (arith, count-delete m n slot)

-- A client under its next sequence number, with an entry at the end of the list.
abbrev pub entered : Client → ClusterRequestId → ℕ → Client
entered c id arg =
    let n = (c.sequence + 1) % 2 ^ 32 in
    let a : ClientSendArg = record { sequence = n; request_id = id; arg = arg } in
    record c {
      sequence = n;
      waiting_hash_slots =
          set_slot c.waiting_hash_slots (hash_of n) (c.waiting_hash_slots (hash_of n) ++ a ∷ []);
    }

-- What `clientSendRequest` does to the client: nothing is written, and the same requests wait; or its
-- entry is at the end of its list.
pub data Sent (c : Client) (arg : ℕ) (wbuf : Option Bytes) (c' : Client) : Type 0 where
  refused :
      wbuf ≡ none
      → c'.conn ≡ c.conn
      → c'.waiting_hash_slots ≡ c.waiting_hash_slots
      → Sent c arg wbuf c'
  accepted :
      (buf : Bytes) (id : ClusterRequestId)
      → wbuf ≡ some buf
      → c' ≡ entered c id arg
      → Sent c arg wbuf c'

pub client_send_request-Sent :
    (c c' : Client) (req : ClusterRequest) (arg : ℕ) (rc : Bool) (wbuf : Option Bytes)
    → client_send_request c req arg rc ≡ ok (wbuf, c')
    → Sent c arg wbuf c'
unfolding client_send_request
client_send_request-Sent c c' req arg rc wbuf e = elim (Bool-cases c.conn) [
  | inr off ↦ refused (ground (arith, off)) (ground (arith, off)) (ground (arith, off))
  | inl on ↦
      let n = (c.sequence + 1) % 2 ^ 32 in
      let req' = record req { header = record req.header { sequence = n } } in
      elim (Outcome-cases (mon_sender req.header.resource_id)) [
        | inr bad ↦ absurd (ground (arith, on, bad))
        | inl (sender, there) ↦ elim (Outcome-cases (sender req.header.request_id)) [
          | inr bad ↦ absurd (ground (arith, on, there, bad))
          | inl (id, known) ↦ elim (Outcome-cases (cluster_request_encoder id req')) [
            | inr bad ↦ absurd (ground (arith, on, there, known, bad))
            | inl (buf, encoded) ↦ elim (Bool-cases rc) [
              | inl went ↦
                  accepted buf id (ground (arith, on, there, known, encoded, went))
                    (ground (arith, on, there, known, encoded, went))
              | inr lost ↦
                  refused (ground (arith, on, there, known, encoded, lost))
                    (ground (arith, on, there, known, encoded, lost))
                    (ground (arith, on, there, known, encoded, lost))
            ]
          ]
        ]
      ]
]

-- The requests of what was delivered.
abbrev pub delivered_args : List (ClientSendArg × ClusterResponse) → List ℕ
delivered_args = map (λ d. d.0.arg)

waits-unlink :
    (c : Client) (q : ℕ) (a : ClientSendArg) (n : ℕ)
    → find q (c.waiting_hash_slots (hash_of q)) ≡ some a
    → waits c n
      ≡ count n (a.arg ∷ [])
        + waits
            (record c {
              waiting_hash_slots =
                  set_slot c.waiting_hash_slots
                    (hash_of q)
                    (unlink q (c.waiting_hash_slots (hash_of q)));
            })
            n
waits-unlink c q a n e =
    let slot = c.waiting_hash_slots (hash_of q) in
    ground (arith, waits-set_slot c q c.sequence (unlink q slot) n, count-unlink q n slot a e)

-- What the loop of `clientReadCallback` takes from the lists is what it delivers.
pub client_read-waits :
    (fuel : ℕ) (c : Client) (buf : Bytes) (r : Received)
    → client_read fuel c buf ≡ ok r
    → (r.client.conn ≡ c.conn)
      × ((n : ℕ) → waits c n ≡ waits r.client n + count n (delivered_args r.delivered))
unfolding client_read
client_read-waits zero c buf r e = cc
client_read-waits (suc fuel) c buf r e = elim (Bool-cases (ltb (length buf) 8)) [
  | inl short ↦ (ground (arith, short), λ n. ground (arith, short))
  | inr long ↦ elim (Outcome-cases (read_response_header buf)) [
    | inr bad ↦ absurd (ground (arith, long, bad))
    | inl ((h, buf₁), header) ↦
        let slot = c.waiting_hash_slots (hash_of h.sequence) in
        elim (Option-cases (find h.sequence slot)) [
          | inl e₁ ↦ (ground (arith, long, header, e₁), λ n. ground (arith, long, header, e₁))
          | inr (a, e₁) ↦
              let taken = record c {
                waiting_hash_slots =
                    set_slot c.waiting_hash_slots (hash_of h.sequence) (unlink h.sequence slot);
              } in
              let back = a ∷ taken.waiting_hash_slots (hash_of h.sequence) in
              let decoded : Outcome (ClusterResponse × Bytes) =
                if h.error_id == 0
                then cluster_response_decoder a.request_id buf
                else error_response_decoder buf in
              elim (Outcome-cases decoded) [
                | inl ((response, rest), e₂) ↦
                    let whole : (client_read fuel taken rest >>= λ r.
                    ok (record r { delivered = (a, response) ∷ r.delivered }))
                        ≡ ok r =
                      ground (arith, long, header, e₁, e₂, e) in
                    let (r₁, run, e₃) = >>=-eq-ok (client_read fuel taken rest) _ whole in
                    let (up, ih) = client_read-waits fuel taken rest r₁ run in
                    (
                      ground (arith, e₃, up),
                      λ n. ground (arith, e₃, ih n, waits-unlink c h.sequence a n e₁),
                    )
                | inr (inl e₂) ↦ (
                  ground (arith, long, header, e₁, e₂, e),
                  λ n. ground (
                    arith,
                    long,
                    header,
                    e₁,
                    e₂,
                    e,
                    waits-unlink c h.sequence a n e₁,
                    waits-set_slot taken h.sequence c.sequence back n,
                  ),
                )
                | inr (inr e₂) ↦ absurd (ground (arith, long, header, e₁, e₂, e))
              ]
        ]
  ]
]
