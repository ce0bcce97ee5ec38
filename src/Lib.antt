-- ===== src/Lib.antt =====
-- Context Guard: the core projection, authorizations, release tickets, deliveries, instructions, the
-- matching of evidence at a Stop, and the canonical digests.
--
-- Context Guard keeps the requirements of a long coding session from disappearing. Its core,
-- scripts/cg_core_v2.py, is a function of a snapshot of the session: what the user's root messages
-- require (requirements), what the host was seen to do (facts), what the assistant proposes to do
-- (actions), what the root messages say of going on, pausing, resuming or cancelling (root
-- controls), and how the bytes of the root messages were interpreted (coverage). It computes which
-- requirements are satisfied, which actions may be offered, whether a completion can be certified,
-- and how a turn ends.
--
-- The parts, and where they stand:
-- - Base: Python's tests, lists, texts as lists of code points with their UTF-8 bytes, `sorted`,
--   posixpath, JSON values, and results that are a value or an error.
-- - Core/Kinds, Core/Model: the snapshot that assets/core-observation-v2.schema.json describes.
-- - Core/Index, Core/Spans, Core/Closure: `_index`, `_source_matches`, `_scope_open`, and the loop that
--   adds required descendants until none is left.
-- - Core/Sources, Core/Units, Core/Requirements, Core/Facts: the checks and the joins at the beginning of
--   `project`; each raises, passes over or keeps a row as the source does.
-- - Core/Controls: `_fold_root_controls`. Core/Speech is the interface of the recognisers of speech.
-- - Core/Targets, Core/Predicates, Core/Coverage, Core/Actions: `target_valid`, the predicates, the two
--   passes over the coverage, the candidate actions.
-- - Core/Stops, Core/Project: the certificate, the reasons and the Stop decision, and `project` as a whole:
--   `gather` is its first part, which may raise, and `conclude` the rest, which does not.
-- - Authority: scripts/cg_authority.py, the authorizations of the root user. Bind makes a binding from
--   semantic actions and candidate targets, Evaluate decides on an action; Fields and Values have the
--   tables and the exact values.
-- - Tickets: scripts/cg_release_adapter.py, the one-shot tickets of a release contract.
-- - Delivery: scripts/cg_delivery.py, the ledger of delivered replies, over the digests of canonical JSON
--   as parameters.
-- - Instruction: scripts/cg_instruction.py, the segmentation of a text into instructions and objects.
-- - Stop: scripts/cg_stop3.py, the owner of a wait and the end of a turn. Records checks the records that
--   the matcher of evidence reads, Candidates has `_unique_candidate_cover`, Matcher `evaluate_reason`,
--   Adapters `adapter_identity`, Units `migrate_work_units_to_schema10`, and Feedback the text of at most
--   240 characters. Order, Cover, Referred, Fulfilled, Registered, Lengths, Latest,
--   Marks and Resume are proofs.
-- - Digest: scripts/reference_digest_encoder.py, the canonical bytes of the manifests of digest v3. Digest
--   itself has `typed_token` and `field`, Collections `encode_set` and `encode_map_rows`, and Session,
--   HostLock, Evidence, Binding, Certificate and Closure one manifest or check each. Frames reads a field
--   back, Tokens a token; Rows, Sets and Maps say what the bytes of manifests and collections stand for.
-- - Core/Samples, Core/Snapshots, Core/Examples: a session, and runs on it.
-- A child module Laws has the proofs about its parent, and other children are named for what they prove.
--
-- These do not call one another: the hook program reads all but the encoder of digests, which is a program
-- of its own.
--
-- How the code corresponds. A dict of rows is the list of its rows in the order of insertion, and a set is
-- a list in which only membership is asked for. Sequence numbers, revisions and byte positions are
-- natural numbers, as the schema has them. The loops `while True` and `while parent is not None` run on
-- fuel: one more than the number of rows, which is enough, since each round takes up a row that it did
-- not have. An exception is a value of Error, and a KeyError, an AttributeError or a UnicodeDecodeError
-- that the code can raise by accident is modelled where it can.
--
-- In Tickets a ticket that is matched and then reserved is one shared object: a match keeps its place in
-- the list. `attempt` and `grants` run the two functions one after the other, as scripts/context_guard.py
-- calls them, without that caller's expiry of tickets and its check of the name of the tool use.
--
-- In Stop and Digest a JSON value is what json.loads returns, with the members of an object in their
-- order, and a float only as the integer that it equals, if it is one, which is all that they ask. All
-- DigestErrors are one error, since their messages are not modelled; the errors that the code raises by
-- accident on values of another type are kept apart. Fields have at most 4096 bytes, so that their
-- lengths fit in the 32 bits of `struct.pack(">I")`. Two floats that are not integral and stand as
-- ids of facts count as different ids.
--
-- Parameters. `hashlib.sha256` is a function from bytes to a text. The recognisers of speech that are
-- regular expressions (`_control_speech`, `_root_sentence_bounds` and others) are the fields of Speech:
-- every theorem about the fold holds whatever they answer. The matches of the patterns of Instruction are
-- the fields of Patterns, and AreSpans says of them that they are spans of the text, as `re` documents.
-- In Stop `shown` is Python's `str` of a value that is neither a string nor an integer, and `list_sha256`
-- the SHA-256 of the canonical JSON of a list that has UTF-8; `lower` is `str.lower`, of which the theorem asks nothing.
--
-- Not modelled: the JSON of snapshots and `validate_snapshot`, which the snapshot is assumed to have
-- passed; `canonical_bytes` and `digest`; the fixture driver of the digest encoder; in cg_stop3.py the
-- subject fields of the adapters, the protocol envelope and the intent to resume; the members of the
-- result that only repeat the snapshot; and the other programs of the repository.
pub mod Base
pub mod Authority
pub mod Tickets
pub mod Delivery
pub mod Digest
pub mod Instruction
pub mod Stop
pub mod Core
