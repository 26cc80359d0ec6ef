-- ===== src/Lib.antt =====
-- UltraNix MCP: the security core of a server that lets clients drive a Linux desktop.
--
-- A client's `tools/call` goes through one function, `call_tool_secured_with_peer` of src/tools/mod.rs.
-- It asks the category filter, the caller's role, and, for destructive tools, the consent gate; it runs
-- the tool; and it leaves an audit record, a metric sample and a history record.
--
-- The files:
--   Prelude   lists, maps (`HashMap` and `BTreeMap` as association lists), results, sorting, decimals,
--             and `f64` (Floats)
--   Json      serde_json's values
--   Security/Consent, Canonical, Token, Hashing   src/security/consent.rs: `challenge`, `verify`,
--             `args_hash` with its canonical writer, and the base64url of a token
--   Security/Policy      src/security/policy.rs: roles, `from_file_and_cli`, `validate`, `allows`
--   Security/RateLimit   src/security/ratelimit.rs: `check`, `take` (`take_token`), the evictions
--   Security/Sanitize, Whitelist   src/security/sanitize.rs and whitelist.rs: `sanitize_arg`,
--             `validate_command` and the constraints of each binary; validators answer what they push
--   Security/Paths       src/security/paths.rs: `check_path`, `canonicalize_lenient`, `parent_under_roots`
--   Tools/Catalog        src/tools/mod.rs: the catalog, `category_gate`, `list_tools_for`,
--             `is_destructive`; `is_unrecorded` of src/tools/admin.rs
--   Tools/Windows, Replies, Pipeline   src/tools/mod.rs: the target of a close, errors and outcomes, and
--             the secured dispatch; a `Server` is the `SecurityContext`, a `Moment` what a call takes from
--             outside (clock, random bytes, window provider)
--   Security/Auth        src/security/auth.rs: `ct_eq` (Compare), records and keys (Keys, Listing, Loading),
--             `authenticate_verbose` and `rotate` (Gate); a time is an argument
--   Plugins   src/plugins.rs: templates (an automaton for the loop over characters), `validate`,
--             `bind_params`, `substitute_args`, `scan`; src/tools/plugin.rs: `run_manifest` over any
--             dispatch of a step (Running), `run_by_name` and `run_exposed_tool` (Address)
--   Tools/Stream         src/tools/stream.rs: the capture loop `run_stream` on given arrivals of frames
--   Tools/Replay         src/tools/admin.rs: `replay_action`, the call's dispatch being a parameter
--   Http      src/server.rs: `http_gate`, with the audit log and the metrics as lists of reports
--   Detection   src/backend/detect.rs: `from_env`, `plan_backends` and `detect_providers`; a back end's
--             constructor is a parameter that says whether it is usable
--   History   src/security/history.rs: frames, the store, loading, lookups, redaction
--   Audit     src/security/audit.rs: `record` (`record_call`) with rotation and retention, `open_with_retention`,
--             and `verify_chain_at`; a file is the list of its lines, the last of which may want its newline,
--             and a call is told how far its rotation and its write come
--   Examples  the theorems at concrete inputs
--
-- State is passed and returned; a mutex in the source makes each operation one step. Times are numbers of
-- milliseconds (consent) or nanoseconds (rate limit). The rate limiter's floats are Prelude/Floats:
-- an `f64` that is not negative is the number of times that it holds 2^-1074, and each operation rounds
-- to nearest, ties to even, doubling the unit up to 4096 times, which reaches past the product of any two
-- floats. The loop of `parse_frames` runs
-- on the length of its input as fuel, of which every turn takes at least a frame's length prefix; the
-- theorems on it give its result, and one shows that the fuel never runs out. `decimal` prints up to twenty digits,
-- enough for 64 bits.
--
-- What other crates do is a parameter: SHA-256, AES-GCM, serde_json, the TOML reader, RFC 3339, the file
-- system and the environment, `to_lowercase` and `contains` of texts, and, for the command whitelist, the
-- check of a capture file's parent. Execution of a tool is a parameter of the dispatch, which may change
-- the server, since replayed and plugin calls come back through the same dispatch.
--
-- Not modelled: the HMAC check of an audit log, the registry of the screen stream and its files,
-- the HTTP transport, the history and window tools, the metrics' text, providers and the command line.
pub mod Prelude
pub mod Json
pub mod Audit
pub mod Detection
pub mod Examples
pub mod History
pub mod Http
pub mod Plugins
pub mod Security
pub mod Tools
