-- ===== src/Tests/Changes.antt =====
-- Three changed chunks of 64 bytes, joined and sent.
use privmx_endpoint.Common.{replicate, Bytes, ℕ, ◌≡◌, refl, false, List, [], ◌∷◌, arith}
use privmx_endpoint.Store.UpdateChanges.{
  UpdateChunkData, UpdateChanges, Operation, create_list_of_update_changes,
}
use privmx_endpoint.Store.UpdateChanges.Squashing.{
  write_data, write_checksums, singles, ArePlaced, AreSmall,
  create_list_of_update_changes-write_data, create_list_of_update_changes-AreSmall,
}
use privmx_endpoint.Store.UpdateChanges.Requests.{IsSent, batches-all_operations}

abbrev changed : ℕ → UpdateChunkData
changed i = record {
  chunk = record { bytes = replicate 64 i; hmac = replicate 32 i };
  chunk_index = i;
  plainfile_size_change = 0;
  encryptedfile_size_change = 0;
}

abbrev all_changed : List UpdateChunkData
all_changed = changed 1 ∷ changed 2 ∷ changed 3 ∷ []

abbrev stored : Bytes
stored = replicate 192 9

abbrev checksums : Bytes
checksums = replicate 96 9

placed : ArePlaced 64 1 all_changed stored checksums
placed = (
  record {
    index = refl;
    tag = refl;
    inside = omega arith;
    small = omega arith;
    listed = omega arith;
    few = omega arith;
  },
  (
    record {
      index = refl;
      tag = refl;
      inside = omega arith;
      small = omega arith;
      listed = omega arith;
      few = omega arith;
    },
    (
      record {
        index = refl;
        tag = refl;
        inside = omega arith;
        small = omega arith;
        listed = omega arith;
        few = omega arith;
      },
      tt,
    ),
  ),
)

create_list_of_update_changes-write_data_example :
    (write_data (create_list_of_update_changes 64 all_changed) stored
      ≡ write_data (singles 64 all_changed) stored)
    × (write_checksums (create_list_of_update_changes 64 all_changed) checksums
        ≡ write_checksums (singles 64 all_changed) checksums)
create_list_of_update_changes-write_data_example =
    create_list_of_update_changes-write_data 64 1 all_changed stored checksums placed

create_list_of_update_changes-AreSmall_example :
    AreSmall (create_list_of_update_changes 64 all_changed)
create_list_of_update_changes-AreSmall_example =
    create_list_of_update_changes-AreSmall 64 all_changed
      (omega arith, (omega arith, (omega arith, tt)))

abbrev three_changes : List UpdateChanges
three_changes = singles 64 all_changed

batches-all_operations_example : (bs : List (List Operation)) × IsSent 2 three_changes false bs
unfolding singles
batches-all_operations_example = batches-all_operations 2 three_changes false (omega arith)
