-- ===== src/Store/FileHandler/Accepting.antt =====
-- What a write does with the checksums, and with a server that accepts every request.
use privmx_endpoint.Common.{
  if◌then◌else◌, lt→ltb, le→ltb, ==_iff, u64, ok, length, flatten, Bytes, ℕ, ◌+◌, ◌*◌, ◌≤◌, ◌<◌,
  ◌≡◌, refl, sym, ap, ◌∙◌, Bool, true, false, none, List, [], ◌∷◌, ◌++◌, append-nil, append_assoc,
  arith, dec_lt,
}
use privmx_endpoint.Store.ChunkEncryptor.{hmac_size}
use privmx_endpoint.Store.HmacList.{HmacList, set, overwrite}
use privmx_endpoint.Store.UpdateChanges.{UpdateChunkData, UpdateChanges, Operation, WriteRequest}
use privmx_endpoint.Store.UpdateChanges.Requests.{all_operations, batches-all_operations}
use privmx_endpoint.Store.RandomWrite.{
  Remote, FileHandler, set_hashes, write_request, send_requests, update_on_server,
}

-- Chunks with the indices from `i` on, each with a tag of 32 bytes.
abbrev pub AreTagged : ℕ → List UpdateChunkData → Type 0
AreTagged i [] = Unit {0}
AreTagged i (u ∷ us) = (u.chunk_index ≡ i) × (length u.chunk.hmac ≡ 32) × AreTagged (i + 1) us

reached : {i size : ℕ} (truncate : Bool) → i < size → i + 1 ≤ (if truncate then i + 1 else size)
reached true h = omega arith
reached false h = omega (arith, h)

-- A checksum can be set up to the end of the list, which then reaches behind it.
set-ok :
    (l : HmacList) (i : ℕ) (hash : Bytes) (truncate : Bool)
    → length hash ≡ 32
    → i ≤ l.size
    → (l' : HmacList) × (set l i hash truncate ≡ ok l') × (i + 1 ≤ l'.size)
unfolding set
set-ok l i hash truncate e h = elim (dec_lt i l.size) [
  | yes inside ↦ (
    record l {
      hashes = overwrite l.hashes (u64 (i * hmac_size)) hash truncate;
      size = if truncate then i + 1 else l.size;
      top_hash = none;
    },
    rw ((==_iff (length hash) 32).1 e, lt→ltb i l.size inside) refl,
    reached truncate inside,
  )
  | no outside ↦ (
    record l { size = l.size + 1; hashes = l.hashes ++ hash; top_hash = none },
    rw
        (
          (==_iff (length hash) 32).1 e,
          le→ltb i l.size (omega arith),
          (==_iff i l.size).1 (omega arith),
        )
        refl,
    omega arith,
  )
]

-- The checksums of such chunks can be set where the first is at most the next of the list.
pub set_hashes-ok :
    (i : ℕ) (l : HmacList) (us : List UpdateChunkData) (truncate : Bool)
    → AreTagged i us
    → i ≤ l.size
    → (set_hashes l us truncate).1 ≡ ok tt
unfolding set_hashes
set_hashes-ok i l [] truncate t h = refl
set_hashes-ok i l (u ∷ us) truncate t h =
    let (l', e, h') = set-ok l i u.chunk.hmac (elim us [ [] ↦ truncate | x ∷ xs ↦ false ]) t.1 h in
    rw (set_hashes, t.0, e) (set_hashes-ok (i + 1) l' us truncate t.2 h')

-- The operations of requests, in order.
unfoldable pub operations_of_all : List WriteRequest → List Operation
operations_of_all [] = []
operations_of_all (r ∷ rs) = r.operations ++ operations_of_all rs

requests : FileHandler → Bytes → List (List Operation) → List WriteRequest
requests h updated_meta [] = []
requests h updated_meta (b ∷ bs) = write_request h updated_meta b ∷ requests h updated_meta bs

module _ (r : Remote) (h : FileHandler) (updated_meta : Bytes)
    (accepts : (before : List WriteRequest) (q : WriteRequest)
      → r.store_file_write before q ≡ ok tt) where
  send_requests-requests :
      (bs : List (List Operation)) (accepted : List WriteRequest)
      → send_requests r h updated_meta bs accepted ≡ (accepted ++ requests h updated_meta bs, ok tt)
  unfolding send_requests requests
  send_requests-requests [] accepted = ap (λ l. (l, ok tt)) (sym (append-nil accepted))
  send_requests-requests (b ∷ bs) accepted =
      rw (send_requests, accepts accepted (write_request h updated_meta b))
        (send_requests-requests bs (accepted ++ (write_request h updated_meta b ∷ []))
          ∙ ap (λ l. (l, ok tt))
              (append_assoc accepted (write_request h updated_meta b ∷ [])
                (requests h updated_meta bs)))

  operations-requests :
      (bs : List (List Operation)) → operations_of_all (requests h updated_meta bs) ≡ flatten bs
  unfolding operations_of_all requests write_request
  operations-requests [] = refl
  operations-requests (b ∷ bs) = ap (λ l. b ++ l) (operations-requests bs)

  -- The server receives the operations of all changes, each request with the handler's version.
  pub update_on_server-all_operations :
      (changes : List UpdateChanges) (truncate : Bool)
      → (qs : List WriteRequest) × (update_on_server r h changes updated_meta truncate
          ≡ (h.accepted ++ qs, ok tt))
        × (operations_of_all qs ≡ all_operations changes truncate)
  unfolding update_on_server
  update_on_server-all_operations changes truncate =
      let (bs, sent) = batches-all_operations (length changes) changes truncate (omega arith) in
      (
        requests h updated_meta bs,
        rw (update_on_server, sent.0) (send_requests-requests bs h.accepted),
        operations-requests bs ∙ sent.1,
      )
