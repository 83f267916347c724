-- ===== src/Store/UpdateChanges/Requests.antt =====
-- The requests of updateOnServer carry the operations of all changes, in their order.
use privmx_endpoint.Common.{
  length, flatten, ℕ, zero, suc, ◌*◌, ◌≤◌, ◌≡◌, refl, Bool, true, some, List, [], ◌∷◌, ◌++◌, arith,
}
use privmx_endpoint.Store.UpdateChanges.{
  UpdateChanges, Operation, file, checksum_list, operations_of, take_batch, batches,
  server_operations_limit,
}

-- For each change one operation writes its data at its place in the file, and one its checksums at
-- their place in the list of checksums. All truncate but those of the last change, which do as the
-- caller says.
unfoldable pub all_operations : List UpdateChanges → Bool → List Operation
all_operations [] truncate = []
all_operations (c ∷ []) truncate =
    record { type = file; pos = c.data_pos; operation_data = c.change_data; truncate = truncate }
    ∷ record {
      type = checksum_list;
      pos = c.checksum_pos;
      operation_data = c.checksum;
      truncate = truncate;
    }
    ∷ []
all_operations (c ∷ d ∷ cs) truncate =
    record { type = file; pos = c.data_pos; operation_data = c.change_data; truncate = true }
    ∷ record {
      type = checksum_list;
      pos = c.checksum_pos;
      operation_data = c.checksum;
      truncate = true;
    }
    ∷ all_operations (d ∷ cs) truncate

-- No request has more operations than the limit.
abbrev pub AreShort : List (List Operation) → Type 0
AreShort [] = Unit {0}
AreShort (b ∷ bs) = (length b ≤ server_operations_limit) × AreShort bs

abbrev pub IsSent : ℕ → List UpdateChanges → Bool → List (List Operation) → Type 0
IsSent fuel cs truncate bs =
    (batches fuel cs truncate ≡ some bs) × (flatten bs ≡ all_operations cs truncate) × AreShort bs

-- With a number of rounds that is at least half the number of changes, the loop of updateOnServer
-- ends; the operations of its requests, in order, are for each change one that writes its data at
-- its place in the file and one that writes its checksums at their place in the list, all with
-- truncate set but the last two, which follow the caller's; and no request has more operations
-- than the limit.
pub batches-all_operations :
    (fuel : ℕ) (cs : List UpdateChanges) (truncate : Bool)
    → length cs ≤ 2 * fuel
    → (bs : List (List Operation)) × IsSent fuel cs truncate bs
unfolding batches all_operations operations_of take_batch
batches-all_operations fuel [] truncate h = ([], (refl, refl, tt))
batches-all_operations zero (c ∷ cs) truncate h = absurd (omega arith)
batches-all_operations (suc fuel) (c ∷ []) truncate h =
    (operations_of c truncate ∷ [], (refl, refl, (omega arith, tt)))
batches-all_operations (suc fuel) (c ∷ d ∷ []) truncate h =
    ((operations_of c true ++ operations_of d truncate) ∷ [], (refl, refl, (omega arith, tt)))
batches-all_operations (suc fuel) (c ∷ d ∷ e ∷ es) truncate h =
    let cs = e ∷ es in
    let (bs, sent) = batches-all_operations fuel cs truncate (omega arith) in
    (
      (operations_of c true ++ operations_of d true) ∷ bs,
      (rw sent.0, rw sent.1, (omega arith, sent.2)),
    )
