-- ===== src/Lib.antt =====
-- Verification of the server of the personal YouTube downloader (internal/app, cmd/server).
--
-- The server keeps a registry of jobs, one per video. HTTP handlers submit, list, retry and delete
-- jobs; a download worker and two title workers take them up in order; metadata.json files make them
-- survive a restart. Logins are sessions, limited by a rate limiter; finished videos are shared by
-- expiring links.
--
-- Common        the shared helpers: Boolean tests, lists, text as lists of numbers, Go maps as association
--               lists, integers
-- StateFile     writeFileSync (internal/app/store.go) and the persistLocked methods' common end
-- RateLimiter   RateLimiter of internal/app/auth.go: attempt is Attempt, check_locked is checkLocked
-- Sessions      SessionStore of internal/app/auth.go: create, lookup_session, revoke, load, prune
-- Links         LinkStore of internal/app/links.go: issue, lookup_link, revoke, load, prune; Forgotten
--               is about the links of one video after any operations
-- Model         internal/app/model.go: statuses, stages, jobs and their views
-- Manager       internal/app/manager.go. State holds jobState and the registry, Requests the calls of
--               the handlers, Workers the workers' critical sections, Protocol their interleaving as
--               a step relation, Recover the restart, Invariant and Quiet what every step keeps,
--               Removal and Admission what follows for callers, Liveness that a removal can
--               always come to its end, Queue the order of the workers, Listing that of
--               List, TitleFetch the loop of runTitleFetch
-- VideoUrl      VideoID and idPattern of internal/app/model.go; Accepted is what it accepts
-- Filename      SafeFilename of internal/app/model.go; Safe is what it makes of a title
-- Password      hashPassword, verifyPassword, splitPHC and Auth of internal/app/auth.go; Phc is splitPHC
--               against the pieces of the text, Credentials what an Auth accepts
-- Store         DiskStore of internal/app/store.go: Load, Scan, Total and decodeJob;
--               Files is Save, Remove, OpenVideo and VideoSize, and CleanWorkFiles of the manager
-- Http          internal/app/http.go. ClientIp is clientIP, Guards holds requireSession, requireAuth and
--               the login, Jobs the handlers for jobs and files, Access, Created and Sharing what
--               follows, Proxies is ParseTrustedProxies
-- Downloader    internal/app/downloader.go: Download, analyzeVideo and publish; Run holds Download's
--               steps, Compatible what a finished download guarantees; Lines holds runYtDLP and the
--               parsing of its output, Streams what follows, Tools the arguments of the commands,
--               Progress what runFFmpeg reports
-- Metadata      YtDLPFetcher.Fetch of internal/app/metadata.go
-- Runner        internal/app/runner.go: the tail buffer, and the two readers of a command as a step
--               relation; Tail, Pumps and Finish hold what follows
-- Logging       internal/app/logging.go; Routes is about the labels, Responses about responseLog
-- Startup       cmd/server/main.go: the command line, the checks of serve and its end
-- Tests         the theorems at concrete inputs
--
-- Times are numbers of nanoseconds, with 0 for the zero time. A float64 is a whole number of
-- millionths. A method that holds its lock throughout is one function; in the manager a function is
-- one critical section, and a step of the protocol is one of these or an answer of the file system
-- between two. The steps over-approximate the program: reports, title results, markings and answers
-- of List may come at any time. Pointers, contexts and removal attempts are numbers, given out in
-- order. The end of finalizeDeletion closes the attempt in the same step as its last critical
-- section. Closing a removal attempt and cancelling contexts are recorded, not awaited. A Submit whose
-- Save fails after its rename is no step of the protocol, since it leaves metadata without a job.
--
-- Loops are structural recursion over the list that they range over. The loop of SafeFilename that
-- takes off runes is on fuel, one round for each rune, and that of runTitleFetch on as many rounds as
-- it has attempts; both are enough.
--
-- Text that is taken apart is a list of numbers: the bytes of an encoded password and of a path, the
-- runes of a title and of a line of output. Elsewhere a text is a string.
--
-- hashToken is a parameter where sessions and links are concerned. The clock, random tokens, the
-- answers of the operating system, of the store, of the pipeline and of the metadata fetcher are
-- arguments of the functions that use them.
--
-- net/netip, net/url, path/filepath, strconv, encoding/json, the tests of the package unicode for
-- control characters, argon2id, base64 and Sscanf are parameters; where a theorem relies on what they
-- document, that is a record of laws. In HTTP, cookies, the path, the Origin header and bodies are taken
-- as parsed, while the Authorization and X-Forwarded-For headers are read as text; the texts of errors
-- are left out, and VideoID and the match with idPattern are parameters there.
--
-- Not modelled: the routing table, the embedded web client and assets, the security headers, process
-- groups and signals, and the wiring, timeouts and tickers of the entry point.
pub mod Common
pub mod RateLimiter
pub mod StateFile
pub mod Sessions
pub mod Links
pub mod Model
pub mod Startup
pub mod Password
pub mod Logging
pub mod Metadata
pub mod Runner
pub mod VideoUrl
pub mod Filename
pub mod Manager
pub mod Store
pub mod Http
pub mod Downloader
mod Tests
