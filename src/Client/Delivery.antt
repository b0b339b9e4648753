-- ===== src/Client/Delivery.antt =====
-- What becomes of a request between `clientSendRequest` and its response.
use muti.Common.{
  ℕ, suc, ◌+◌, ◌%◌, ◌^◌, ◌≡◌, refl, sym, ◌∙◌, subst, List, [], ◌∷◌, ◌++◌, length, true, false, none,
  some, ok, failed, ◌>>=◌, ltb, ◌==◌, if◌then◌else◌, arith,
}
use muti.Wire.{Bytes}
use muti.ClusterMap.{ObjectServiceMap}
use muti.Messages.{
  ClusterRequest, ClusterResponse, ResponseHeader, ResponseBody, ClusterRequestId,
  cluster_request_id, cluster_request_encoder, cluster_response_decoder, read_response_header,
  answer,
}
use muti.Messages.Exchange.{Answers, serve}
use muti.Client.{
  mon_sender, ClientSendArg, Client, hash_of, find, unlink, set_slot, client_send_request,
  client_read,
}
use muti.Client.Headers.{length-read_response_header, decoded_header}
use muti.Client.Waiting.{
  waiting, IsDistinct, IsClient, find-append, find-unlink, unlink-IsDistinct, append-IsDistinct,
  find-sequence, waiting-set_slot, set_slot-IsClient,
}

mon_sender-cluster : (n : ℕ) → n ≡ 0 → mon_sender n ≡ ok cluster_request_id
unfolding mon_sender
mon_sender-cluster n e = rw e refl

-- The request under the sequence number that it goes out with.
abbrev pub numbered : Client → ClusterRequest → ClusterRequest
numbered c req = record req { header = record req.header { sequence = (c.sequence + 1) % 2 ^ 32 } }

-- The entry for it.
abbrev pub entry : Client → ClusterRequestId → ℕ → ClientSendArg
entry c id arg = record { sequence = (c.sequence + 1) % 2 ^ 32; request_id = id; arg = arg }

-- On a connected client, with lists of distinct sequence numbers, under whose next number nothing
-- waits, a request with an encoder is written under that number, and waits for its response
-- afterwards; what else waits does so as before, and the lists are distinct again.
pub send-waiting :
    (c : Client) (req : ClusterRequest) (arg : ℕ) (id : ClusterRequestId) (wbuf : Bytes)
    → IsClient c
    → c.conn ≡ true
    → req.header.resource_id ≡ 0
    → cluster_request_id req.header.request_id ≡ ok id
    → cluster_request_encoder id (numbered c req) ≡ ok wbuf
    → waiting c ((c.sequence + 1) % 2 ^ 32) ≡ none
    → (c' : Client) × (client_send_request c req arg true ≡ ok (some wbuf, c'))
      × IsClient c'
      × ((q : ℕ)
          → waiting c' q
            ≡ (if (c.sequence + 1) % 2 ^ 32 == q then some (entry c id arg) else waiting c q))
unfolding client_send_request waiting
send-waiting c req arg id wbuf v up cluster known encoded free =
    let n = (c.sequence + 1) % 2 ^ 32 in
    let a = entry c id arg in
    let slot = c.waiting_hash_slots (hash_of n) in
    (
      record c {
        sequence = n;
        waiting_hash_slots = set_slot c.waiting_hash_slots (hash_of n) (slot ++ a ∷ []);
      },
      rw (up, mon_sender-cluster req.header.resource_id cluster, known, encoded) refl,
      set_slot-IsClient c (hash_of n) n (slot ++ a ∷ []) v
          (append-IsDistinct slot a free (v (hash_of n))),
      waiting-set_slot c n n (slot ++ a ∷ []) (some a) (λ q. find-append q slot a free),
    )

-- The client without the entry of a sequence number.
abbrev taken : Client → ℕ → Client
taken c n = record c {
  waiting_hash_slots =
      set_slot c.waiting_hash_slots (hash_of n) (unlink n (c.waiting_hash_slots (hash_of n)));
}

taken-waiting :
    (c : Client) (n : ℕ)
    → IsClient c
    → IsClient (taken c n)
      × ((q : ℕ) → waiting (taken c n) q ≡ (if n == q then none else waiting c q))
taken-waiting c n v =
    let slot = c.waiting_hash_slots (hash_of n) in
    (
      set_slot-IsClient c (hash_of n) c.sequence (unlink n slot) v
          (unlink-IsDistinct n slot (v (hash_of n))),
      waiting-set_slot c n c.sequence (unlink n slot) none
          (λ q. find-unlink q n slot (v (hash_of n))),
    )

-- A whole good response to a waiting request is delivered to it, and the loop goes on behind it.
read_response :
    (fuel : ℕ) (c : Client) (buf rest : Bytes) (a : ClientSendArg) (resp : ClusterResponse)
    → waiting c resp.header.sequence ≡ some a
    → resp.header.error_id ≡ 0
    → cluster_response_decoder a.request_id buf ≡ ok (resp, rest)
    → client_read (suc fuel) c buf ≡ (
        client_read fuel (taken c resp.header.sequence) rest >>= λ r.
        ok (record r { delivered = (a, resp) ∷ r.delivered }))
unfolding client_read waiting
read_response fuel c buf rest a resp there good decoded =
    let (buf₁, header) = decoded_header a.request_id buf resp rest decoded in
    let long : ltb (length buf) 8 ≡ false =
      ground (arith, length-read_response_header buf resp.header buf₁ header) in
    let here : find resp.header.sequence (c.waiting_hash_slots (hash_of resp.header.sequence))
        ≡ some a =
      there in
    ground (arith, long, header, here, good, decoded)

-- On a connected client, with lists of distinct sequence numbers, under whose next number nothing
-- waits: the client sends a request of the cluster resource that the monitor answers, the monitor
-- serves the bytes, and the client reads the response: it goes to that request, with the body that the monitor answers; nothing
-- is left of the response, the connection stays open, and what waited before waits as before.
pub request_delivered :
    (c : Client) (req : ClusterRequest) (arg : ℕ) (id : ClusterRequestId) (m m' : ObjectServiceMap)
    (rest : Bytes) (body : ResponseBody)
    → IsClient c
    → c.conn ≡ true
    → req.header.resource_id ≡ 0
    → cluster_request_id req.header.request_id ≡ ok id
    → waiting c ((c.sequence + 1) % 2 ^ 32) ≡ none
    → Answers id m (numbered c req) rest body m'
    → (wbuf response : Bytes) × (c' : Client) × (c'' : Client) × (client_send_request c req arg true
        ≡ ok (some wbuf, c'))
      × (serve m (wbuf ++ rest) ≡ ok (response, m', rest))
      × (client_read 2 c' response
          ≡ ok (record {
            delivered = (entry c id arg, answer (numbered c req).header body) ∷ [];
            client = c'';
            left = [];
            is_open = true;
          }))
      × ((q : ℕ) → waiting c'' q ≡ waiting c q)
unfolding client_read
request_delivered c req arg id m m' rest body v up cluster known free answers =
    let n = (c.sequence + 1) % 2 ^ 32 in
    let (c', sent, v', there) =
      send-waiting c req arg id answers.request v up cluster known answers.sent free in
    let mine : waiting c' n ≡ some (entry c id arg) = ground (arith, there n) in
    let (v'', left) = taken-waiting c' n v' in
    (
      answers.request,
      answers.response,
      c',
      taken c' n,
      sent,
      answers.served,
      read_response 1 c' answers.response [] (entry c id arg) (answer (numbered c req).header body)
          mine refl answers.received,
      λ q. ground (arith, left q, there q, free),
    )

-- The entry back in its list, at the front.
abbrev put_back : Client → ℕ → ClientSendArg → Client
put_back c n a = record c {
  waiting_hash_slots =
      set_slot (taken c n).waiting_hash_slots (hash_of n)
        (a ∷ (taken c n).waiting_hash_slots (hash_of n));
}

find-put_back :
    (n q : ℕ) (slot : List ClientSendArg) (a : ClientSendArg)
    → IsDistinct slot
    → find n slot ≡ some a
    → find q (a ∷ unlink n slot) ≡ (if n == q then some a else find q slot)
unfolding find
find-put_back n q slot a d h = ground (arith, find-unlink q n slot d, find-sequence n slot a h)

own_slot :
    (c : Client) (n : ℕ)
    → (taken c n).waiting_hash_slots (hash_of n) ≡ unlink n (c.waiting_hash_slots (hash_of n))
unfolding set_slot
own_slot c n = ground arith

-- On a client with lists of distinct sequence numbers, a buffer whose front has the good header of a
-- response to a waiting request, but from which its decoder does not yet read a response: nothing is
-- delivered, the buffer stays whole, the connection stays open, and the same requests wait.
pub incomplete_response :
    (fuel : ℕ) (c : Client) (buf buf₁ : Bytes) (a : ClientSendArg) (h : ResponseHeader)
    → IsClient c
    → read_response_header buf ≡ ok (h, buf₁)
    → h.error_id ≡ 0
    → waiting c h.sequence ≡ some a
    → cluster_response_decoder a.request_id buf ≡ failed
    → (c' : Client) × (client_read (suc fuel) c buf
        ≡ ok (record { delivered = []; client = c'; left = buf; is_open = true }))
      × IsClient c'
      × ((q : ℕ) → waiting c' q ≡ waiting c q)
unfolding client_read waiting
incomplete_response fuel c buf buf₁ a h v header good there short =
    let n = h.sequence in
    let slot = c.waiting_hash_slots (hash_of n) in
    let here : find n (c.waiting_hash_slots (hash_of n)) ≡ some a = there in
    let long : ltb (length buf) 8 ≡ false =
      ground (arith, length-read_response_header buf h buf₁ header) in
    let d = v (hash_of n) in
    let gone : find a.sequence (unlink n slot) ≡ none =
      ground (arith, find-unlink a.sequence n slot d, find-sequence n slot a here) in
    let own = own_slot c n in
    let back : IsDistinct (a ∷ (taken c n).waiting_hash_slots (hash_of n)) =
      subst (λ s. IsDistinct (a ∷ s)) (sym own) (gone, unlink-IsDistinct n slot d) in
    (
      put_back c n a,
      ground (arith, long, header, here, good, short),
      set_slot-IsClient (taken c n) (hash_of n) c.sequence _ (taken-waiting c n v).0 back,
      λ q.
          waiting-set_slot (taken c n) n c.sequence _ (some a)
            (λ q. ground (arith, own, find-put_back n q slot a d here, find-unlink q n slot d)) q
          ∙ ground (arith, (taken-waiting c n v).1 q, there),
    )
