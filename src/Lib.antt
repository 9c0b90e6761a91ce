-- ===== src/Lib.antt =====
-- MoonHub: models of the parts of the assistant that decide and keep state, and what holds of them.
--
-- Go's mutexes make the methods of a component atomic, so a method is a function from its receiver
-- to the new receiver and the results. Where the code unlocks in between, or a goroutine runs on its
-- own, the model has steps and a schedule. Clock readings, contexts, replies of providers and fresh
-- ids are arguments. A Go map with text keys is an association list (Base.Dicts). Numbers are
-- unbounded: the counters of the code stay far below 2 ^ 63.
--
-- Files, and the code that they model:
-- - Base: shared names, tests on numbers and texts, lists, dictionaries.
-- - Channels.Split: pkg/channels/split.go. A text is a list of runes. The loop is cut off after a
--   number of rounds, of which one more than the runes is enough for a text without a code block
--   (Plain); no number is enough for some texts (Endless). Child modules: Ends, Bounds, Plain,
--   Scans, Fence, Endless.
-- - Cron.Service: pkg/cron/service.go. `checkJobs` is split where it gives up the lock: a check
--   (`collect_due`), and for each job the copy for its callback and the update afterwards
--   (`finish_job`). Child modules: Due, Rows, Steps, Once.
-- - Skills.SearchCache: pkg/skills/search_cache.go, over a record of Go's texts and floats. The loop
--   of `jaccardSimilarity` takes as many rounds as the two lists have elements, and each round drops
--   one. Child modules: Sync, Capacity.
-- - Providers.Types, Providers.Cooldown: pkg/providers/types.go and cooldown.go. A `time.Time` is a
--   number of nanoseconds since Go's zero time. Child modules: Facts, Counts.
-- - Providers.Classifier: pkg/providers/error_classifier.go, over a record of Go's text functions.
-- - Providers.Fallback: pkg/providers/fallback.go. A `Turn` is what the surroundings give to one
--   round of the loop; the loop is structural in the candidates. The classifier is an argument,
--   `classify_error` in the tests. Child modules: Execute, Success, Exhausted, Frame, Steady, Lost, Image
--   (`ExecuteImage`), and Candidates (`ResolveCandidates` and pkg/providers/model_ref.go).
-- - Zones: pkg/zones/zone.go.
-- - Shield.Types, Shield.Text: pkg/shield/types.go, and the text functions of Go that the shield
--   calls, as a record.
-- - Shield.Parser: pkg/shield/parser.go. A field is what a regular expression finds. Child modules:
--   Loading, Directives (the directives line by line).
-- - Shield.Matcher: pkg/shield/matcher.go. The arguments of a tool stand in the order in which the
--   map is walked.
-- - Shield.Engine: pkg/shield/engine.go. The confidence is an abstract type with the test against the
--   threshold, and `evaluate` takes the matcher as an argument. Child modules: Facts, and Loaded with
--   the parser and the matcher in place (`new_engine`, `reload`, `evaluate_event`; Blocking).
-- - Shield.Approval: pkg/shield/approval.go. A waiter is a look-up (`wait_found`) and a resumption
--   (`wait_resume`). Child modules: View, Facts, Settled.
-- - Delegation.Queue: pkg/delegation/queue.go, `SessionQueue`, with its goroutines as threads of a
--   schedule. Child modules: Serial, Races.
-- - Delegation.Agents, Delegation.Lifecycle: pkg/delegation/store.go (the table of the sub-agents) and
--   lifecycle.go. `faults` says which of the next statements fail. Child modules: Writes, Keeps,
--   Table, Oldest, History (calls), Limit, Gone, Reuse, Races.
-- - Memory.Messages: the messages of pkg/providers/protocoltypes/types.go, and what decoding their
--   JSON text gives back: the fields with the tag `json:"-"` are lost. Strings are valid UTF-8.
-- - Memory.Jsonl: pkg/memory/jsonl.go. An operation is a list of writes to the two files of a
--   session, of which a crash leaves the first few. Child modules: Facts, Refinement (against a list
--   of messages), Crash.
-- - Devices.Store, Devices.Pairing: pkg/devices/store.go, token.go, pairing.go and the types of
--   types.go. Whether a write of the file succeeds, and what the random source draws, are arguments.
--   Child modules: Store.Facts, Store.Tokens, Pairing.Once.
-- - Media.Store: pkg/media/store.go. `ReleaseAll` and `CleanExpired` return the paths to delete.
--   Child modules: Index, Facts, Reachable.
-- - Routing.Keys, Routing.Route: pkg/routing/agent_id.go, session_key.go and route.go, with the types
--   of pkg/config/config.go that the resolver reads, over a record of Go's text functions. An empty
--   scope of direct messages is the scope main, and the identity links stand in the order in which
--   the map is walked. Child module: Route.Agents.
-- - Routing.Tier: pkg/routing/tier.go, with the boundaries that pkg/agent/instance.go makes of the
--   configuration. The floats are an abstract type. Child module: Cutpoints.
-- - Tests: the theorems at concrete inputs, and runs.
--
-- How the parts meet: `Execute` reads and writes the cooldown tracker and acts on the classifier's
-- verdict; the engine asks the zones, parses its threats and matches an event against
-- them; an engine's decision to require approval is what an approval
-- request is made of.
--
-- No other loop takes fuel: each is structural in a list of candidates, matches, requests or events.
-- Not modelled: the priority queue, and the components that are
-- mostly network, file, SQL or JSON I/O.
pub mod Base
pub mod Channels
pub mod Cron
pub mod Providers
pub mod Routing
pub mod Zones
pub mod Shield
pub mod Skills
pub mod Delegation
pub mod Memory
pub mod Devices
pub mod Media
pub mod Tests
