-- ===== src/Lib.antt =====
-- A model of qkt-data-hub, the point-in-time store of macro-economic facts, with the theorems that
-- make it correct.
--
-- Prelude holds the shared notation: outcomes, texts as lists of code points, dictionaries, sorted lists.
-- Record models hubread/record.py: the envelope, its checks, its canonical JSON and its content address,
-- over a parameter for SHA-256.
-- Dedupe models hub/dedupe.py, the index of revisions and `assign`.
-- Reader models hubread/policy.py, the journal's `read_range`, and `as_of`, `windows` and (Reader/Range.antt)
-- `range` of hubread/reader.py.
-- History models `ScopeHistory` of hub/pipeline.py, the facts of one scope in the order of their instants.
-- Derive models hub/derive.py: tokens, parser, evaluator and lookback, over an interface for the decimal
-- context, whose arithmetic may fail.
-- Calendar models the UTC day of an instant.
-- Schema models hub/schema.py: the declared fields and `validate_payload`, in Schema/Order.antt `_derived_order`
-- with its depth-first search, and in Schema/Load.antt `load_schema` on a document as hub/simpleyaml.py reads it.
-- Ingest models hub/pipeline.py: `build_key`, and in Ingest/Step.antt `derive_fields` and `ingest`, which
-- joins the guards, Schema, Derive, History and Dedupe. An exception that the source catches
-- counts for one rejection, any other leaves `ingest` as its error; `Progress` is the `IngestResult` with the
-- index, the histories and the quarantine log, which a batch may do without.
-- Journal models hub/journal.py and hubread/journal.py: Writer.antt the `JournalWriter`, Tail.antt the
-- `JournalTail`, on files as bytes; its other files hold the proofs.
-- Snapshot models hub/snapshot.py and hubread/snapshot.py byte by byte: Utf8.antt and Words.antt the encodings
-- of Python that they use, which Journal uses too, Encode.antt the writer, Cursor.antt, Decode.antt and Rows.antt the
-- reader; Restores and its children hold the proofs.
-- Scheduler models hub/scheduler.py: the pass over the sources, their timing and alerts, and the loop. Its spans
-- are whole milliseconds, where the source has seconds as floats.
-- Compiler models hub/compiler.py up to the records that the snapshot of a window holds, and in
-- Compiler/Cycle.antt which windows a compile keeps.
-- Manifest models hub/manifest.py, the entries as records and as documents.
-- Tests holds concrete records and runs.
--
-- Instants, sequence numbers and revisions are natural numbers, since the checks refuse any below their
-- floor; other integers of a payload are integers. A text is its list of code points.
-- The tokenizer's fuel is the length of the text, the parser's five for each token and five, and that of the
-- digits of n is n + 1; the depth of the search for an order is the number of derived fields.
-- Schema/Order/Settled.antt, Derive/Tokens/Total.antt, Derive/Parser/Total.antt and Record/Json/Digits.antt show
-- that they are enough. The daemon's loop runs for a number of turns that is given. The other loops recurse on the
-- list that they walk.
-- SHA-256, json.loads, json.dumps and the decimal context are parameters, and for the Scheduler the clock, the sleep,
-- `collect_once`, `compile_all` and the reading of the journal; Reader/Range.antt takes the decoder of a snapshot
-- as one, which Reader/Range/Snapshots.antt fills.
-- Not modelled: HTTP and files, locks and fsync, the collectors, the loop of compile_all over the datasets and
-- `verify` of hub/compiler.py, the reading of YAML, digits beyond ASCII in an expression, the command line,
-- the user interface, and the tools.
pub mod Calendar
pub mod Compiler
pub mod Dedupe
pub mod Derive
pub mod History
pub mod Ingest
pub mod Journal
pub mod Manifest
pub mod Prelude
pub mod Reader
pub mod Record
pub mod Scheduler
pub mod Schema
pub mod Snapshot
mod Tests
