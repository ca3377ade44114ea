-- ===== src/Lib.antt =====
-- A verification library of the wing_parser package: the safety of writes to a mixing desk, the protocol
-- with the desk, the edits of a scene file, and the advice on a scene.
--
-- The parts, and the files that model them:
--
-- Console: the console page. Console/Live.antt is wing_parser/ui/live_state.py, the states of the
-- connection. Console/Queue.antt is wing_parser/ui/write_queue.py. Console/Arm.antt is the arm state of
-- wing_parser/ui/apply_level.py. Console/Gate.antt is wing_parser/ui/write_gate.py over those three
-- and the one call of the CallRunner of wing_parser/ui/workers.py: its step function has an operation
-- for each thing that can happen, so a list of operations is an interleaving of the user, the wire and
-- the timer. Console/Ledger.antt is wing_parser/ui/changes_ledger.py with its RevertQueue,
-- Console/Guard.antt the RoundGuard of wing_parser/ui/live_guard.py, and Console/Records.antt is
-- wing_parser/ui/write_records.py.
--
-- Net: the desk. Net/Address.antt is wing_parser/net/address.py and the shapes of
-- wing_parser/net/jsontypes.py, Net/Snapshot.antt the placing of leaves in
-- wing_parser/net/snapshot.py, Net/Client.antt the get_many of wing_parser/net/client.py,
-- Net/Identity.antt is wing_parser/net/identity.py, Net/Strips.antt wing_parser/net/watch/list.py,
-- Net/Watch.antt is wing_parser/net/watch/poller.py, Net/Values.antt and Net/Write.antt are
-- wing_parser/net/write.py with the send of wing_parser/ui/live_write.py. Net/Codec.antt is
-- wing_parser/net/codec.py, Net/NodeText.antt wing_parser/net/nodetext.py and Net/Schema.antt
-- wing_parser/net/schema.py, whose walk asks the get_many of Net/Client.antt level by level.
--
-- Edit: Edit/Pointer.antt, Edit/Journal.antt and Edit/Document.antt are wing_parser/edit/pointer.py,
-- journal.py and writer.py over a JSON document.
--
-- Advisory: Advisory/Predicates.antt is wing_parser/advisory/predicates.py, Advisory/Evaluator.antt and
-- Advisory/Targets.antt are wing_parser/advisory/evaluator.py, and Advisory/Resolver.antt is
-- wing_parser/advisory/resolver.py.
--
-- Classifier: Classifier/Matcher.antt and Classifier/Resolve.antt are wing_parser/classifier/matcher.py
-- and resolve.py. Classifier/Vocabulary.antt is the sets and terms of vocabulary.py,
-- with Classifier/Vocabulary/Circle.antt and Classifier/Vocabulary/Checks.antt for vocabulary_checks.py.
--
-- Core: Core/Loader.antt is wing_parser/core/loader.py and the resolve of wing_parser/core/versions.py,
-- with the registry of versions as a parameter. Core/Validator.antt is wing_parser/core/validator.py.
-- Query: Query/Routing.antt is wing_parser/query/routing.py. Query/Diff.antt and Query/Diff/Scenes.antt
-- are wing_parser/query/diff.py: the walk from an item of a tuple is kept under the item's key, which is
-- what keeps the recursion structural.
--
-- Writelog: Writelog/Codes.antt, Writelog/Entry.antt and Writelog/Store.antt are codes.py, entry.py and
-- store.py of wing_parser/writelog. The files of the log are a dict from codes to texts.
--
-- Prelude holds what they share: text as a list of code points, dicts in insertion order, results with
-- an exception, Boolean tests. Tests holds the theorems applied to concrete inputs.
--
-- A write takes this way through the parts: the state of the connection and the arm state decide whether
-- the gate starts a job, the queue orders the jobs, the job confirms the desk's serial and sends, and the
-- record of it goes to the ledger, which can revert it, and to the journal's scene.
--
-- Loops are structural: the retry rounds of get_many are counted down, and a chunk's reads are a finite
-- list that ends with the idle timeout. The one loop that the desk could keep from ending, the walk of
-- the schema, is on fuel: it counts the levels of the tree, and a bound on the depth of the tree is
-- enough. The walks over the sets of the vocabulary count the sets, which is enough on circles too.
-- Confidences of the classifier are in hundredths, and times in ticks of the clock.
--
-- Not modelled: Qt widgets, threads and sockets themselves, YAML and JSON files, regular expressions, the
-- language model, floating-point arithmetic (all parameters where the code uses them), and the parts of
-- wing_parser that only format, print or load.
pub mod Prelude
pub mod Console
pub mod Net
pub mod Edit
pub mod Advisory
pub mod Query
pub mod Classifier
pub mod Tests
pub mod Writelog
pub mod Core
