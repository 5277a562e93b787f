-- ===== src/Lib.antt =====
-- Verification of the onshape-export service.
--
-- The service turns models that a catalog names into previews, downloads and generated projects.
-- Requests become jobs in a table; workers claim them under a lease, run them, and report. What a job
-- makes is an artifact set with its files; a generator, an outside program, makes some of them and
-- speaks a JSON protocol. The model has a part for each:
--
-- - Base: lists, texts, results, and UPDATE on rows, shared by all. A text is the list of its Unicode
--   scalar values; `bytes` and `len` are those of its UTF-8 encoding, as in Rust.
-- - Jobs (src/db.rs): the table `jobs` is the record Queue, a row is Job, and each statement is a
--   function of the same name from the table to the table and its result: enqueue_job_inner,
--   claim_next_job, extend_job_lease, finish_job, record_job_failure, supersede_ready_job,
--   retry_failed_jobs and its variants. Jobs/Commands has the statements as one type, so that a list
--   of commands is an interleaving of workers and requests. Jobs/Keyed has the abstract view, a map
--   from work keys to jobs, and Jobs/Outcomes what a report, an enqueue and a retry do to a job, column
--   by column; the other children hold proofs.
-- - Jobs/Worker (src/main.rs): process_next_job, retry_backoff_seconds and
--   should_retire_legacy_export_job. `execute_job`, with all that happens to the table while it runs,
--   and the random jitter are the record WorkerWorld, an argument. There is no fuel: a round has no loop.
-- - Catalog (src/catalog.rs): the data and Catalog::validate, check by check (Catalog/Validate); the
--   independent description of a valid catalog is in Catalog/Validity. A HashMap is the list of its
--   entries.
-- - Selection (src/onshape_selection.rs, src/configuration_encoding.rs): the request that catalog
--   validation builds, and SelectionRequest::preflight.
-- - Failure (src/onshape_api.rs): ApiFailure and its safe diagnostics, is_sha256,
--   bounded_visible_ascii.
-- - Artifacts (src/db.rs): the tables `artifact_sets` and `artifact_files` and the statements that
--   change a status; Artifacts/Staging has stage_artifact_inner and stage_artifact,
--   Artifacts/Generated has load_generator_artifact, complete_generator_artifact and the two
--   statements that fail a generator's set. Artifacts/Operations has them as one type; an operation
--   that fails is rolled back. Artifacts/Resuming has stage_or_resume_generator_artifact, by which a
--   generator's set is staged once and found again by an equal retry. The JSON serializer is a section
--   parameter, and so is the record Recipes: the two hashes of src/generator_processing.rs (canonical
--   JSON and SHA-256), and the insertion and the check of the recipe's own tables. Byte lengths are not negative here.
-- - Protocol (src/generator_protocol.rs): the checks on single values; Protocol/Documents with
--   GeneratorRequest::validate, GeneratorResult::validate and validate_against_request;
--   Protocol/Manifest with InputManifest::validate and validate_with_manifest. The hash of the
--   canonical JSON is a parameter. The walk over an object's parents is on fuel, two more than there
--   are objects: it visits each object at most once, and then perhaps one identity that none has.
-- - Inputs (src/generator_inputs.rs): allocate_retained_paths, whose loops are structural. A position
--   is below 256, so its three digits are written out.
-- - Storage (src/storage.rs): verify_exact_object and its parts, url_path_segment and public_url. What
--   the S3 client answers, and SHA-256, are parameters; a body is a list of chunks, each with its
--   error.
-- - Deployment (src/deployed_generator.rs): the document of the configured generator, its checks,
--   those of the executable, and the comparison with a request. The decoding of the JSON and the
--   environment are left out; the file system and the hashes are parameters.
-- - Publication (src/generator_publication.rs): publish_generator_output and
--   reconcile_generator_artifact, with retain_candidate and the writer that measures.
--   Publication/Steps joins Artifacts, Storage and Deployment. The record Calls holds what is called
--   outside, the Recipes of Artifacts among it. The record World holds what is outside:
--   the answers of the object store, what becomes of the private file, and what others do to the
--   tables between staging and the last step.
-- - Projects (src/db.rs, src/bambu_project.rs): the table `bambu_project_requests` and its statements;
--   Projects/Failures has the categories and codes of failures, Projects/Status execute_job and the end
--   of `status`, Projects/Answers the whole of `status`. What execute_inner returns is an argument, and
--   what `status` calls (the decoding of a stored request, Onshape's source, the deployment, the
--   generator's recipe and artifact) is the record StatusCalls.
-- - Parameters (src/parameters.rs): apply_overrides and validate_values, whose loops are structural.
--   Parameters/Fits states the rule for one submitted value apart from the code.
--   What is done with a number is an argument of validate_values; Parameters/Quantities has it, as
--   accept_number, with QuantityUnit, parse_quantity and the two canonicalizations, over
--   Parameters/Decimals: parse_decimal_rational and rational_decimal_string. Numbers is the interface
--   of the crates num-bigint and num-rational; Fractions is an instance, used by the tests. The loops
--   on a denominator have one round more than its value, which is enough: see the result of
--   Parameters.Printed. A panic is the absence of a result.
-- - Assets (src/main.rs): safe_zip_asset_name and validate_glb.
--
-- A timestamp is a number of milliseconds; the stored texts have one fixed width, so they compare the
-- same way. SQLite runs one statement at a time, so a statement is a function. A failure of the
-- database itself (a lost connection, a full disk) is not modelled, and neither is a status that the
-- program never writes. Error values say which check failed; most messages are left out.
--
-- Not modelled: the HTTP handlers and pages, the calls to Onshape, processes and files of generators,
-- the unpacking of archives, the visibility conditions and the remote schema of parameters, and the other tables.
pub mod Base
pub mod Jobs
pub mod Failure
pub mod Storage
pub mod Selection
pub mod Catalog
pub mod Artifacts
pub mod Protocol
pub mod Deployment
pub mod Publication
pub mod Projects
pub mod Parameters
pub mod Inputs
pub mod Assets
