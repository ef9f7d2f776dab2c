-- ===== src/Lib.antt =====
-- The verification library of Mycelium (the module `jardin`): the sync of a machine's data
-- directory with the server, the flows of steps that a machine runs, the authorization of devices, the
-- ratification of pages, the blocks of work that transcripts record, the events that the server
-- publishes, and the consolidation of session logs.
--
-- Parts, and how they interact
--   Base   Shared names and lemmas: lists, tests on numbers, association lists, texts, integers.
--   Sync   internal/sync and the file handlers of internal/server. `Sync` reads the manifest of the
--          last sync, lists the data directory and asks the server for its listing; it plans the
--          deletions, refuses a plan that is too large, and then settles one path after another.
--          Sync/Types      FileEntry, BulkDeleteError, Result, and the state of the model
--          Sync/Remote     internal/server/sync_api.go and the calls of internal/sync/client.go
--          Sync/Disk       internal/sync/tree.go and the file operations of transfer.go
--          Sync/Manifest   internal/sync/manifest.go
--          Sync/Conflict   internal/sync/conflict.go and singlewriter.go
--          Sync/Reconcile  internal/sync/sync.go
--          Sync/Force      Push, Pull and ResetBase of internal/sync/transfer.go
--          Proofs: Sync/Guard (the guard on deletions), Converge and Synced (agreement after a
--          sync), Outcome and Deleted (what a sync deletes), NoLoss (two edits of one path), Elsewhere (other paths), Wins, Paths.
--   Flow   internal/flow. A flow's steps form a graph by `depends_on` and `needs`; the scheduler
--          starts those whose dependencies are done, up to a limit, and files each outcome.
--          Flow/Types      the data of flow.go
--          Flow/Needs      needs.go: references to outputs and what they resolve to
--          Flow/Validate   validate of flow.go and validateNeeds of needs.go
--          Flow/Graph      graph.go: dependencies and the search for a cycle
--          Flow/Schedule   schedule.go: the scheduler
--          Flow/Trust      trust.go: the pins of flows
--          Flow/Stream     stream.go: what is kept and mirrored of a step's output
--          Flow/Run        run.go: the environment of a step, what is masked, and runStep
--          Proofs: Flow/Sound, Filing, Sweep and Drive (the invariant), Complete and Finish (every
--          step ends), Chain and Topology (the cycle search), Accepted and Promise (what the
--          validation gives a run), Verdict (the status of a run), Sizes and
--          Masking (the values that a step is given), Pins (histories of the pins), Kept, Lines and
--          Mirror (the output of a step), Environment (its variables), Steps (one run of it).
--   Device internal/server/device.go: a machine asks for a code, a user approves or denies it, and the
--          machine polls until it is given its token.
--          Device/Store    the store and its operations
--          Proofs: Wellformed and History (every sequence of calls), Once, Settled, Approval, Answers.
--   Memory internal/memory/ratify.go and, without related links, frontmatter.go: which standards a
--          person accepted on this machine; and of chunk.go the text of a finding that is indexed.
--          Memory/Struck       dropStruck of chunk.go
--          Memory/Frontmatter  the header of a page
--          Memory/Ratify       the pin store and its operations
--          Proofs: Pinned and Refusal (Ratify), Listing (NormativePages and ChangedPages), Fuel (dropStruck).
--   Sessions  internal/sessions. A scan reads on in the transcripts of three agents from the saved
--          offsets, folds the events into the open blocks, and appends those that are over to the
--          shards, from which Emit takes its sessions.
--          Sessions/Types      sessions.go: events and blocks
--          Sessions/Fold       fold of sessions.go
--          Sessions/Collect, Claude and Nacelle   canonical.go, claude.go and nacelle.go
--          Sessions/Scan       scanLocked and Rescan of scan.go, ReadBlocks of store.go
--          Proofs: Conserved (no event is lost in a fold), Proper (the blocks), Resume and Scans (a log
--          that grows), Requests and Reread (usage that is repeated), Unended (a record without its newline),
--          Shards (blocks that are repeated).
--   Emit   internal/usage/usage.go, and usage_alert.go, emitter_emit.go, the ledger of emitter.go and
--          two methods of settings.go in internal/server. A tick publishes the sealed sessions that the
--          ledger does not name, and then the alerts of usage that it does not name.
--          Emit/Usage      windows and snapshots of usage
--          Emit/Alerts     pendingUsageAlerts and what it calls
--          Emit/Publish    the emission, its events and its ledger
--          Proofs: Grouping, Highest and Pending (the alerts of a pass), Ledger, Delivery and
--          Complete (ticks).
--   Consolidate  internal/consolidate: a candidate passes the gate, then a judge, is compared with the
--          findings of the wiki, and is written, struck through or dropped.
--          Consolidate/Gate, Judge and Dedupe   gate.go, judge.go and dedupe.go
--          Consolidate/Apply                    apply, write and consolidateEpisodes of run.go
--          Consolidate/Cursor                   cursor.go, without its file
--          Consolidate/Write                    Supersede of write.go
--          Proofs: Secrets (what leaves the process), Counts (the result), Retract (what is struck),
--          Watermark (the cursor), Strike and Block (a claim that is struck).
--   The modules called Tests, Flow/TrustTests, Flow/RunTests and Consolidate/WriteTests run the definitions on small data.
--
-- How state and operations correspond
--   A definition has the name of the Go function that it models, in the spelling of this library
--   (`reconcilePath` is `reconcile_path`, `record` of the scheduler is `file_outcome`). A Go map is
--   an association list, or the list of its keys where it maps to true. The data directory and the
--   server's directory are association lists from paths to files, with directories implied by paths.
--   Each call of the operating system or of the network takes one entry of `faults`, and fails if it
--   is true, so a theorem without a condition on `faults` covers every pattern of failures; a write that fails leaves
--   its file as it was, or with the bytes of `torn`.
--   The checksum, the path that the HTTP router hands on, `filepath.Clean` and `time.Parse` are
--   fields of `Host`; `strings.TrimSpace` is an argument of `validate`. The order in which steps of
--   a flow end, and how they end, is the argument `arrive` of `drive`; the clock, the messages and
--   `strconv.Itoa` are fields of `Surroundings`. A Go string is a text in UTF-8, and `len` counts its
--   bytes.
--   In Device, requests lie in a heap at numbers, since two maps share each of them; the random codes
--   and the instants are arguments, and `strings.ToUpper` is a parameter. In Memory, the fields of
--   `Library` stand for sha256, `filepath.Clean` and `strings.TrimSpace`. In Emit, percentages are of
--   a type that `Numbers` gives with its order, `Clockwork` holds the hash and the texts of instants,
--   and `Outside` tells for each attempt whether the bus and the disk take it, and what a failed write
--   leaves in the ledger's file; a tick holds the error of reading that file. Instants are nanoseconds. In Consolidate, `Matching` stands for the
--   package regexp and for two functions of strings, `Scores` for Go's float64, `response` for the model
--   behind the judge; the wiki is an argument that may depend on the edits so far, and so is whether
--   an edit of the Writer succeeds. In Sessions, Flow/Stream, Memory/Struck and Consolidate/Write a text
--   is the list of its bytes. A transcript is its bytes at the time of a scan; `Texts`, `Reading` and
--   its two kin hold the encodings, the parsing of instants and the project of a directory; sort.Slice
--   is an argument that a theorem asks to permute its list. In Flow/Run the process is an argument that
--   gives the pieces of its output and its end, and `Texts` holds strings.ToUpper, the replacer of
--   package strings, and the conversion between a text and its bytes. In Consolidate/Write an argument
--   tells which lines strings.TrimSpace leaves empty.
--
-- Fuel
--   `drive` runs on fuel: one turn more than there are steps is enough, since each turn that is not
--   the last files an outcome or skips a step. `walk` of the cycle search has one unit more than the
--   number of steps and edges together: its nested calls stand for different steps. `drop_from` of
--   dropStruck has the length of the text, of which each turn passes over a byte or more.
--
-- Not modelled
--   HTTP requests, JSON, the processes of steps and of models, the records of runs, costs, the
--   database, the search over memory pages, the connection of the emitter to its bus, the heuristics
--   and readers of the consolidation, the new pages of its Writer, the statistics on sessions, and the
--   web client. Changes that another process makes to a tree during a sync are not modelled. The
--   counters of a block have no bound. findBlock panics at line 0, which no theorem covers.
pub mod Base
pub mod Consolidate
pub mod Device
pub mod Emit
pub mod Flow
pub mod Memory
pub mod Sessions
pub mod Sync
