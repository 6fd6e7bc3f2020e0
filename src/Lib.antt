-- ===== src/Lib.antt =====
-- A model of Deep Thought: a security research program that keeps projects, findings, sessions and
-- coverage as Markdown files, lets a gate decide whether a session may work, and runs sessions in a
-- bounded autonomous loop. Paths below are from the repository's root.
--
-- The parts and their files:
--   * Schema (src/deepthought/schema): every record and enumeration with the fields and the
--     constructors of the source, and the validators as Boolean tests: is_scoped and
--     is_well_formed (Project), is_bounded and carries_human_action (Loop), known_capabilities and
--     evidence_when_shown (Envelope), next_steps (Session). Ids has is_record_id and safe_record_id of
--     schema/common.py; Prelude/Time has its iso_z.
--   * Gate (src/deepthought/protocol/gate.py): DefaultGate.evaluate; Gate/Rules compares it with
--     the rule that it enforces.
--   * Store (src/deepthought/store/filestore.py): a directory is an association list by file name.
--     Store has the save, get and list methods, Store/Projects the registration of projects,
--     Store/Detail the paged detail, Store/Areas the coverage of an area, Store/Lifecycle the
--     transitions of a finding, and Store/Check what src/deepthought/check.py asks of a store.
--   * Orchestrator (src/deepthought/orchestrator): Ledger is the bounded map of primitives with
--     its graph of compositions, Conductor the only channel from the workers into it.
--   * Protocol (src/deepthought/protocol/session.py): run_session with the store, the clock and
--     the exceptions passed explicitly.
--   * Loop (src/deepthought/loop): Policy is select_next_action as a function of a snapshot of
--     the store, Driver the loop around it, which calls run_session, Driver/Turn its state and what
--     follows a session, Driver/Record its audit.
--   * Scope (src/deepthought/scope.py): which areas lie inside the target.
--   * Sandbox (src/deepthought/sandbox): the typed requests and results of base.py; Command renders
--     the argument list of the container, Capture is the bounded reader of its output, Runtime the
--     calls of the container runtime, Attest the checks before a launch, Docker run and teardown of
--     DockerSandbox, Seam the context manager and NoopSandbox, Asan the reader of sanitizer reports
--     (asan.py). Host holds what they run on.
--   * Sessions (src/deepthought/sessions): Verify is VerifySession, with Run its steps, Evidence the
--     artifact that it pages and Outcomes what it teaches back. NewProject is NewProjectSession,
--     Map is MapSession, Status is StatusSession, and Discover is DiscoverSession: Worker is its
--     local worker, Run what the session does with the envelope that a worker hands back;
--     Disclosure is DisclosureSession.
--   * Sibling (src/deepthought/sibling/signature.py): Locations scans a body for its location lines,
--     Signature is the signature and its derivation from a finding.
--   * Ingest (src/deepthought/ingest/sarif.py): Documents loads a document and walks over it, Scope
--     (with Unquote) filters the locations, Capabilities is the closed table, Results the results
--     that are accepted, Findings and Primitives the two mappings, Patterns the regular expressions.
--   * Export (src/deepthought/export): OpenVex is finding_to_openvex of openvex.py, OpenVex/Checks its
--     validate_openvex, Dates the check of a date and time of _formats.py.
--   * Result is the exceptions as values; Prelude has the texts, lists, directories and the clock.
--
-- How they interact: run_loop (Loop/Driver) takes an action from Loop/Policy, builds a session from
-- the interface `Sessions`, and runs it by run_session (Protocol), which asks a Gate and saves its
-- record in the Store. VERIFY reaches a sandbox by the record `Sandbox` of Sandbox/Seam, which
-- stands for a whole `with` block, and the lifecycle guard by transition_finding. The policy reads
-- the store only through the list methods.
--
-- Conventions and bounds:
--   * Texts are native strings. `lower` is exact on the ASCII letters, which is what the searched
--     words consist of; `repr` prints every character beyond Latin-1 as it is.
--   * A clock is a sequence of answers, and the number of calls made is passed along. Times are
--     microseconds in the natural numbers; an elapsed time below 0 counts as 0.
--   * The YAML and Markdown of a file are kept by the packages that write them: a saved record
--     gives its fields back as they were and its body stripped, with plain line ends (read_back).
--   * Directories are listed in the order of the file names, as the source sorts them.
--   * The loop takes fuel: one unit more than the session limit, since every round but the last
--     runs a session, and a round that would run one too many stops instead.
--   * A sandbox is a state monad with exceptions over the store, the container believed to run and
--     the calls made so far; the machine answers each call as a function of that history. A read
--     loop runs over the list of what select and read come to, so it needs no fuel.
--
-- Parameters: the machine under a sandbox (Host: processes, clocks, nonces, the container runtime)
-- and the library's functions on texts (Library: the decoding of bytes, SHA-256, fromisoformat, the
-- printing of a float, which characters beyond ASCII are alphanumeric and which digit one is);
-- SHA-1 (sha1), the resolution of symbolic links (resolve), the validation of an envelope by
-- pydantic (model_validate), the sessions that the loop starts (Sessions), whether a session's
-- drafts are on disk and parse (drafts_ok), whether a git URL resolves (verify_url) and what
-- pydantic says of a project that its validators refuse (invalid), the file system that MAP walks
-- (Files), and what DISCOVER meets outside (Outside: the file system, what opening and parsing a
-- document comes to, the decoding of UTF-8 bytes, and which characters beyond ASCII are
-- alphanumeric), and for the exports str.lower, fromisoformat and repr of a value. The exporters
-- reach DISCLOSURE by the interface Exporters.
--
-- Not modelled: the text form of the records and the symbolic links below the detail directory,
-- which belong to other programs; the rest of check.py, the other exports (src/deepthought/export),
-- and SIBLING HUNT, which the parts above only call or feed; the benchmarks, and the command line
-- with its profiles, which fill in its defaults. A text of a document has no lone surrogates, and
-- the number of a finding has at most 126 digits, so that its id is a record id.
mod Prelude
pub mod Schema
pub mod Gate
pub mod Scope
pub mod Ids
pub mod Result
pub mod Store
pub mod Ingest
pub mod Orchestrator
pub mod Protocol
pub mod Loop
pub mod Sandbox
pub mod Sessions
pub mod Sibling
pub mod Export
mod Examples
