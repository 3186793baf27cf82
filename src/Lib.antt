-- ===== src/Lib.antt =====
-- Verification of the secure retrieval library of this repository.
--
-- Owners of knowledge graphs encode their edges in public-size tables of field elements, share the
-- tables additively among three servers, and a circuit reads them at secret addresses. This library
-- models the Python code that runs at the owners: what it checks, the tables it builds and the
-- readings of them that the circuits are compared with.
--
-- Prelude          shared names, lists, Boolean tests, bits and arithmetic on natural numbers
-- Python           exceptions as results (`Result`), JSON values, `dict`, `Counter`
-- Sharing          doram_t2_3pc/sharing.py: `share`, `share_vector`, `reconstruct`; the results of
--                  `secrets.randbelow` are arguments (`Draws`)
-- Config           doram_t2_3pc/config.py: `PublicConfig`, `validate`, the derived sizes; the types
--                  of `relation_fanout_per_owner` and `deduplicate_terminal_answers` are fixed
-- Packed           doram_t2_3pc/packed.py: `pack_edge`, `unpack_edge`; Packed.Edges `_validated_edge`;
--                  Packed.Vector `packed_owner_vector` and `packed_owner_capacity_report`
-- TypeBlocks       doram_t2_3pc/type_blocked_directory.py: `TypeBlockedLayout` and its builder
-- CompactDirectory doram_t2_3pc/compact_directory.py: the hashed tables of the owners, their
--                  lookup and the capacity plan
-- VolumeHiding     doram_t2_3pc/volume_hiding.py: pools of pages, their permutation and reading
-- Pages            doram_t2_3pc/relation_pages.py: `RelationPageParameters`; Pages.Directory
--                  `RelationPageConfig`; Pages.Build `build_owner_page_layout`; Pages.Evaluate
--                  `evaluate_paged_cleartext`; Pages.Cost `paged_cost_estimate`; Pages.Read the
--                  reading of the keys of a built layout
-- Oram             doram_t2_3pc/oram_layout.py: the owner-built tree and its position maps
-- OramEpoch        doram_t2_3pc/oram_epoch.py: authorizations, and epochs that are used once
-- EvidenceHandles  doram_t2_3pc/evidence_handles.py: redrawn handles, and the detection of a leak
-- XorPir           src/pir/xor_pir.py: the client, the server and the records
-- MultipartyFss    multiparty_fss: MultipartyFss.Params params.py, Parity parity.py, KeyShare
--                  keyshare.py and prg.py, Keygen keygen.py, Evaluate evaluate.py and combine.py;
--                  MultipartyFss.Arrays is what the code uses of NumPy
-- Reference        doram_t2_3pc/reference.py: `evaluate_cleartext`
-- Tests            concrete runs, and an instance of each result that has hypotheses
--
-- The parts interact as the code does: a layout is built from rows that Packed.Edges checks and holds
-- numbers that Packed packs, under the bounds of Config and Pages; Sharing splits the numbers for the
-- servers; Pages.Evaluate and Reference read the tables back. CompactDirectory chooses the sizes of
-- its tables from the loads of the owners (CompactDirectory.Plan), builds one table for each owner and
-- looks a tag up in their sum. VolumeHiding moves the pages of all owners by one permutation.
--
-- Loops over lists are structural recursion. `climb` (the path to the root of a tree) runs on the
-- bucket number, `pack_labels` and `build_levels` on the length of their list: each of them halves or
-- shortens what it reads, so this fuel is enough. The loop of `fresh_handle` runs on the number of
-- draws that the code allows. Integers are unbounded in Python and natural numbers here; where a value
-- may be negative (JSON input, the difference in `share`) the sign is kept or the difference is written
-- without it. A point that is evaluated alone is a natural number, while `evaluate_many` is given values
-- whose type it checks.
--
-- The values of `secrets` are arguments of the operations. `_random_seed` repeats its draw until a
-- byte is not zero; the seeds of `generate` are what it returns, and that they are not zero is a
-- condition on them. The removal of a marker whose writing failed is taken to succeed: an error of
-- the file system at that point would leave the marker.
--
-- Not modelled: reading and writing files, digests, the programs that are generated for MP-SPDZ, the
-- scripts that run processes, and the native tools. Error messages are dropped; the class of an
-- exception is kept.
pub mod Prelude
pub mod Python
pub mod Sharing
pub mod Config
pub mod Packed
pub mod TypeBlocks
pub mod Pages
pub mod Oram
pub mod CompactDirectory
pub mod VolumeHiding
pub mod OramEpoch
pub mod EvidenceHandles
pub mod XorPir
pub mod MultipartyFss
pub mod Reference
pub mod Tests
