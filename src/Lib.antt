-- ===== src/Lib.antt =====
-- yt-websub, a server that subscribes to YouTube's WebSub hub, records each notification in a log,
-- and hands the events to one client that polls.
--
-- Parts and files:
--   Prelude       names of the libraries passed on, Boolean tests, lists, texts as bytes.
--   Text          the operations of Rust's standard library that the program uses: UTF-8 and its
--                 repair (Utf8), where it can be cut (Cut), decimal numbers, pieces and lines,
--                 white space, search.
--   Util          src/util.rs: hexadecimal, percent escaping, random numbers, the atomic
--                 write, query strings, the comparison of secrets, the strings of JSON.
--   Store         src/store.rs: the event log. Line has the rows, Store the state and operations,
--                 Rewrite the compaction, Log and Window what its loops compute, Tracks, Append, Poll,
--                 Reopen, Compact and Ack the agreement of each operation with a history of events,
--                 Held what all of them keep, Run whole runs, Dedup what the key of duplicates tells,
--                 Faults what goes wrong.
--   Subs          src/subs.rs: the subscriptions and their registry, with its file. Rows has how they
--                 are written, saved and read, Clamp the cut of a verdict, Row that a row is read
--                 back, Index the token index, Life the sequences of changes, Grace the removals,
--                 Waiting that a tombstone stays through other changes, Entries and File the round
--                 trip through the file, Kept that what stands in the file can be read back.
--   Atom          src/atom.rs: the reader of notifications; Shape has what it lets through, Rounds
--                 that its loops end, Texts and Read that the texts of its entries are UTF-8.
--   Sig           src/sig.rs: the check of a signature.
--   Config        src/config.rs: the file, the environment (EnvFile) and the check of both (Checked).
--   Resolve       src/resolve.rs: from an entry of channels.txt to a channel id. Url has the URLs that
--                 are let through, Safe what resolve gives, fetches and caches, Cache the file of the
--                 cache (save_cache of src/renew.rs, load_cache of src/main.rs).
--   App           src/app.rs: the shared state; requests and responses.
--   Hub           src/hub.rs: the form that is posted to the hub (what comes back is in Renew).
--   Callback      src/callback.rs: the requests of the hub, on the shared state; Keeps has what they
--                 do to the registry, Answers what is answered to whom, Verified the verification of
--                 a subscribe, Between that they add and drop no channel while the renewal thread
--                 waits, Kept that they keep the registry and its file, Logged what they add to the
--                 event log.
--   Renew         src/renew.rs: delays, verdicts, the merge of an attempt (Merge), the leases that run
--                 out (Expire), the subscriptions that are due (Due), the channels that are asked for
--                 (Desired, Listed), the reconcile (Reconcile), which channels these leave (Has,
--                 Channels, Wanted), what the passes preserve (Preserved, with Fresh for new tokens):
--                 that the registry stays sound (Sound), that its rows can be read back (Fits) and
--                 so can its file (Kept, Demoted); and the rounds of the thread (Loop).
--   Api           src/api.rs: the endpoints. Body reads bodies and writes channels.txt, Json has the
--                 texts of the responses, Guard who is served, Health the counts, Blind the secrecy
--                 of tokens, Posted, Client and Ids the way of an entry from a body to the file and
--                 back, Exact a POST from the request to the registry, Poll polls and acknowledgements,
--                 Outcome what a request leaves behind.
--   Main          src/main.rs: the start of the process; Restart what is there again afterwards.
--   Server        the whole process over its life: Run has its states, Started what a start has
--                 read, Steps what each step keeps, Logs what it adds to the event log, Life what holds
--                 all along, Recorded that a notification is not lost.
--   Http          src/http.rs: the dispatch; Entitled who may change what, over all requests; Called
--                 the hub's way from the URL that it was told to the callback.
--
-- A text is the list of its bytes. Machine integers are numbers whose wrap-around is written out. A
-- `HashSet` is a list of keys, a `HashMap` the list of its entries (Prelude/Maps). The files of a
-- store (`events_path`, `ack_path`) are part of its state; calls on files take the way in which they
-- end as an argument, so that every failure is a case. The clock and random bytes are arguments.
-- No definition of the store needs fuel: its loops go over the lines of the file. The digits of a
-- number are printed with the number's successor as fuel, and the loops over a feed run on its length
-- and one: each round takes a byte or more of it. HMAC-SHA1 is a parameter.
--
-- A request of the hub is a function of the registry that its token is looked up in and of the state
-- that it finds at its next lock, so that other threads may run in between. So may they while the
-- renewal thread waits for the hub: what they do to the registry is an argument of the passes of
-- Renew, and what is asked of it is a hypothesis that the hub's callbacks meet (Callback/Between,
-- Callback/Kept). What `hub::send` and the fetch of a page return are arguments, one for each call. A
-- reconcile that a request starts runs from the state that the request left.
--
-- The life of the process is the relation `Run` of Server: the turns of the loops of `worker` and of
-- `run`, and restarts, in any order, each as a whole. It has the states since the last start, in one
-- of which a request looks up its token, and the requests that were taken.
--
-- Not modelled: the sleeps of the renewal thread, the joining of the threads of src/main.rs, and a
-- restart in the middle of a turn; the vendored HTTP server; the temporary file of a compaction, which
-- is created anew each time; messages to the log of the process; and read errors of the file system
-- other than text that is not UTF-8.
pub mod Prelude
pub mod Text
pub mod Util
pub mod Store
pub mod Subs
pub mod Config
pub mod Resolve
pub mod Atom
pub mod Sig
pub mod App
pub mod Hub
pub mod Callback
pub mod Renew
pub mod Api
pub mod Http
pub mod Main
pub mod Server
