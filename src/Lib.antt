-- ===== src/Lib.antt =====
-- Siso is a build tool: it reads the manifests of ninja, plans the steps that make the wanted targets, runs
-- them locally or remotely, and records what each step read. This library models the parts that decide
-- which step runs when, what is remembered between builds, and how command lines are read.
--
-- The parts and their files (paths from the repository's root):
--   * DepsLog: toolsupport/ninjautil/deps_log.go, ninja's deps log. State has the tables of `DepsLog` and
--     the operations `Get`, `Reset` and `update`; Reader is `NewDepsLog` with `readPathRecord` and
--     `readDepsRecord`; Writer is `Record` with `uniquePathIdx`, `recordPath` and `recordDeps`, and
--     `Recompact` and `Close`. The file is its bytes; what a write puts on the disk, and whether a file
--     can be opened, removed or renamed, is a parameter (`Os`). The other files of the folder prove: Codec
--     that a record is read back, Rounds what one round of the reader does with it, Update and Reads what
--     the tables answer, Mirror the invariant that the file replays to the tables, Interning and Recording
--     that `Record` keeps it.
--   * Plan: build/plan.go and `ReadyToRun` of build/step.go. State is the plan: the queue, the spilled steps,
--     the targets with the steps that wait for them, `done` and `pushReady`. Schedule and Targets are
--     `schedule`, `scheduleTarget`, `mark` and `add`, which fill the plan from a build graph. The queue is a
--     channel: `taken` is what the builder has received, and how much it receives before each send is a
--     parameter, so that every interleaving of the builder with the plan is a choice of it. The graph
--     with its targets, the file system and the cancellation of a context are parameters. Reach has the runs of
--     a build as a step relation; Wiring has what the waits of the targets have to do with the inputs of the
--     steps in the graph, and Tidy and Visits what they have to do
--     with sources.
--   * Shell: toolsupport/shutil/split.go (`Split`), toolsupport/ninjautil/shell_escape.go and `pathList` of
--     toolsupport/ninjautil/graph.go. A string is the list of its code points, and a word its UTF-8 bytes.
--   * Distance: toolsupport/ninjautil/edit_distance.go (`editDistance`), against the edits of a
--     string, and `SpellcheckTarget` of toolsupport/ninjautil/state.go, which ranks targets by it.
--   * Depfile: toolsupport/makeutil/deps.go (`ParseDeps`, `nextToken`), over bytes.
--   * Retry: reapi/retry/retry.go (`Do`, `retriableError`); the called function is a parameter.
--   * Manifest: the manifest parser of toolsupport/ninjautil. Lexer is lexer.go; Pieces and Chunk are
--     `splitIntoChunks`, `nextChunk` and `parseChunk` of chunk_parser.go, `isStatement` of statement.go and
--     `parseChunks` of file_parser.go; Bindings is binding.go and `lookupVar` of rule.go, Rules is `setRule`
--     and `lookupRule` of rule.go, where each call is a sequence of steps that the calls take in any order;
--     Eval is eval.go, Paths is paths.go, and Statements the first part of `parseBuild` of chunk_parser.go. The
--     hash of the buckets and the scopes that strings and rules are looked up in are parameters.
--     The other files prove: Boundary where lines end, Respects and Loops that a round does not depend on
--     what was found before, Sizes and Kept how far it goes and what it adds, Templates what a string
--     written piece by piece evaluates to, PathLists and BuildLines how written paths and tokens are parsed;
--     Written has a build statement as it is written.
--   * Merkle: reapi/merkletree/merkletree.go. Tree has the map of directories, which is written to through
--     the pointers that the code keeps to them; Entries is `Set`, `SetTree` and `setDir`, Build is `Build` and
--     `buildTree`, with the digest of a directory as a parameter. Linked and Listing have the invariant,
--     Sound and Subdirs what building keeps of it; Operations has sequences of
--     calls, and Leading where the elements of a path lead to.
--   * Upload: the uploads of reapi/cas.go. Separate is `separateBlobs`, `lookupBlobsInStore` and what `upload`
--     does before it calls the server, Batches is `createBatchUpdateBlobsRequests`; the store of blobs and the
--     sizes of messages are parameters. Sorting has the sort and the search that the code calls.
--   * Common: tests on numbers, lists over the native numbers, and little-endian words.
-- The deps log and the plan do not call each other: the steps that the plan releases record their
-- dependencies, which the next build's graph reads. A step's command line is what Shell escapes and splits.
--
-- Numbers: an `int` that can go below 0 (`nwaits`, `npendings`) is its 64-bit pattern, and the words of the
-- deps log are 32 bits wide; a batch of an upload has at most 1000 requests, so that its size is far below
-- 2^63. A search has the length of its range as fuel, as each round halves it. Fuel: `NewDepsLog` reads with
-- the file's length plus one as fuel, as each record takes at least 4 bytes. `scheduleTarget` has the number
-- of targets plus one, as each nested call visits a target that was not visited before; it never runs out.
-- `ParseDeps` has the length of the file plus one, as a round takes a byte, except for an input on which it
-- does not come to an end; so has `parseChunk`. Splitting has the length of the file plus one, as no chunk
-- is empty; a path list has that of its text plus one, as no path is empty. A string is evaluated with 256
-- names inside one another, which is the code's own limit. `Build` has the length of the longest directory
-- name, as the names of subdirectories get longer.
--
-- Not modelled: log output, progress reports and times; goroutines, except where their order matters to the
-- queue and to the rules; the statements of a manifest behind the first line of a build, and the other kinds
-- of statements; hashfs, the rest of the remote execution client, and the rest of the program.
pub mod Common
pub mod DepsLog
pub mod Plan
pub mod Shell
pub mod Distance
pub mod Depfile
pub mod Retry
pub mod Manifest
pub mod Merkle
pub mod Upload
