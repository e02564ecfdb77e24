-- ===== src/Lib.antt =====
-- QSOL-FED: the canonical JSON profile, the reference SDK, and the tools that guard the repository.
--
-- The federation names every object by the SHA-256 of its canonical JSON bytes, and every message by
-- the SHA-256 of its envelope without identifier and signature. Two Python programs compute these
-- bytes: tools/qsol_canonical.py for the repository's own tools, and sdk/python/qsol_fed_sdk.py for
-- third parties, which also builds and validates node manifests, third-party profiles, provenance
-- records and unsigned envelopes. They were written apart and have to agree byte for byte.
--
-- The repository guards itself: tools/run_moriarty.py attacks it with a fixed corpus of probes, confined
-- by tools/moriarty_isolation.py, keeps a registry of accepted counterexamples, named by their canonical
-- references, and replays them; the gates validate its records, and refuse a report or a claim that says
-- more than the evidence. It also reads the commit under review from git, object by object, and checks every
-- object against its identifier. tools/nexus_live_adapter.py takes over an export of another project, QSOL-NEXUS,
-- after that project's own verifier has accepted it.
--
-- Files:
--   Base        tests, lists, integers, texts, UTF-8 and Python's exceptions as values (`Result`)
--   Platform    the two functions of the Python library that are parameters: NFC and SHA-256
--   Json        Python values, `json.loads` with the three hooks of `parse`, `str` of an integer, the
--               escapes and the sorting of members that both programs share, a reference printer
--   Canonical   tools/qsol_canonical.py: Normalize (`_nfc`, `_normalize`), Serialize
--               (`_escape_string`, `serialize`), Identity (`parse`, `canonicalize`, `object_id`,
--               `derive_message_id`); Form says which values the profile admits
--   Sdk         sdk/python/qsol_fed_sdk.py: Normalize, Serialize and Identity as above, Patterns
--               (the four regular expressions), Fields (dictionary access), Documents (manifests,
--               profiles, provenance) and Envelope
--   Moriarty    tools/run_moriarty.py: Output, the bounded capture of a probe's output streams,
--               Processes, the search for the descendants of a process (`_descendant_pids`), Corpus
--               (`validate_attack_corpus`), Counterexample (`validate_counterexample_shape` and the
--               identity), Registry (`validate_registry`) and Replay (`generated_counterexample`,
--               `verify_accepted_counterexamples`), Assemble (`main`, from the validated registry to the report),
--               with the tests they share in Shapes
--   Tree        tools/run_moriarty.py: Objects (`_verified_git_object`), Entry, an entry of a tree object,
--               Bootstrap (`_bootstrap_target`, `_bootstrap_verified_blob`), Files
--               (`_verified_commit_files`), Index (`_index_entries`) and Worktree (`tracked_tree_clean`,
--               `harness_files_match_target`)
--   Isolation   tools/moriarty_isolation.py: Filter, the instructions of a seccomp filter, and Policy,
--               the two filters of `apply_network_seccomp_policy` and their installation
--   Schema      Values and Evaluate, the JSON-schema evaluators `validate_schema_instance` of
--               tools/validate_empirical_assurance_core.py and tools/validate_phase10_gate_base.py
--   Phase9      tools/validate_phase9_gate.py: Claims (`_validate_claim_document`),
--               Report and Evidence (`validate_report_common`)
--   Nexus       tools/nexus_live_adapter.py: Source (`verify_native`, `_nfc_text`, `build_source_manifest`),
--               Council (`build_council_reports`) and Projection (`verified_projection`)
--   Examples    the theorems at concrete inputs
--
-- A text is the list of its code points, lone surrogates included, and bytes are a list of numbers.
-- A value is null, a Boolean, an integer, a text, a list, a dictionary in insertion order, a
-- `PairObject` (the pair list that `json.loads` is told to return for an object), or anything else. A
-- function that may raise returns a `Result`, whose `Error` has one constructor for each message, and
-- one for all the messages of the gates.
-- NFC is idempotent and leaves ASCII alone; a digest has 64 lower-case hexadecimal digits. Nothing
-- else is assumed of either.
--
-- The reader of `json.loads` recurs on fuel, 3 * length + 1, which is enough for every text. The
-- SDK's `serialize` normalizes its argument at every level and recurs on the result; its fuel is one
-- more than the depth limit, which is enough on the values of the profile. The search for descendants
-- has two more rounds than the map of parents has entries; every round but the last finds a new one.
-- The schema evaluators recur on the depth of the schema plus one, since every call descends into it.
--
-- The kernel that runs a filter is a parameter (`Kernel`), of which the meaning of the four instructions
-- used is assumed; the machine and the results of `prctl` are arguments. `re.search` is a parameter,
-- with no assumption; `none` is a pattern that is no regular expression. The two evaluators are one
-- definition with a `Dialect` for the three places where they differ. The history that the registry is
-- checked against is a parameter (`Git`), and so are the run of one replay (`ReplayProbe`) and that of a
-- probe, which may exit and return a result with a Boolean `ok`.
--
-- Git and SHA-1 are parameters (`Repository`), with no assumption: two byte strings of one digest appear as a
-- `Collision` in the theorems. What the file system shows is a parameter (`Worktree`). The traversal of a commit
-- has fuel for one tree more than there may be entries, since every tree but the root is an entry; the loop over
-- a tree has as much as the tree has bytes. The NEXUS verifier and its secret scrubber are parameters, with no
-- assumption.
--
-- Not modelled: the recursion limit of the Python interpreter, dictionary keys that are not texts,
-- `conformance_result` of the SDK, the rest of the repository's tools (the Moriarty runner beyond its
-- validators, replay, output capture, process search and git objects, the cache of the last commit's files, the
-- tar archive of a commit, the pinning of the executables, the isolation beyond its seccomp filters, the
-- phase gates beyond the schema evaluator and the claims and reports of phase 9, the
-- check of the NEXUS checkout and the loading of its modules),
-- floats as schema values or in a report, and the Rust, TypeScript and Lean code.
pub mod Base
pub mod Platform
pub mod Json
pub mod Canonical
pub mod Sdk
pub mod Isolation
pub mod Moriarty
pub mod Nexus
pub mod Phase9
pub mod Schema
pub mod Tree
pub mod Examples
