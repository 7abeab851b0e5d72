-- ===== src/Lib.antt =====
-- The OCI Distribution adapter of Meridian Storage: Object Catalog operations over an OCI registry.
--
-- A model of the Python package under src/meridian_storage/adapters/oci, and theorems about it. The
-- paths below start there. An object is a payload blob, a config blob with its metadata, and a manifest
-- that describes both and has the Object's anchor manifest as its subject. Private tags name the anchor,
-- each version and the latest version.
--
-- Effect: exceptions as values and computations over a world, which every effect of the environment
--   belongs to; Effect/Rules has the rules for what returns, Effect/Locals mutable local variables,
--   and Effect/Outcomes what holds after a return and what after an exception.
-- Hashing, Json: _json.py. SHA-256, HMAC and the json module are parameters.
-- Naming: the tags of _naming.py. Cursor and Cursor/Base64: CursorCodec, _b64 and _unb64 of the same.
-- Binding: OciDistributionBinding of descriptor/config.py, with the checks of its limits;
--   Binding/Credentials has the credential providers, Binding/Repository the grammar of repository
--   names, and Binding/Construct the endpoint, the provenance labels and the whole construction.
-- Transport/Models, Transport/Stored: the documents of transport/models.py.
-- Transport/Stream: IteratorReader of transport/stream.py.
-- Transport/Http: status codes, bounds, origins and addresses in transport/client.py.
-- Transport/Client: RegistryHttpClient._request with its retries; Client/Blobs, Client/Download and
--   Client/Manifests have the operations, by their names in the source.
-- Transport/Interface: what the adapter uses of the client, and what it relies on.
-- ObjectCommon: what the package uses of meridian_storage.object_common, as parameters.
-- Retention: require_delete_permitted of retention/__init__.py.
-- Adapter: OciDistributionAdapter of adapter.py. Adapter/Resolve reads an object, Adapter/Upload streams
--   a payload into an upload, Adapter/Commit publishes an object, Adapter/Put is the whole put, and
--   Adapter/Handlers has the other handlers and execute; Handlers/Recording is an adapter that records
--   which manifests it asks to delete.
-- Multipart: OciMultipartManager of multipart/__init__.py, whose sessions are a second part of the
--   world. Multipart/State has the sessions and their parts, Multipart/WellFormed says what a session
--   holds between two calls, Multipart/Transfer what holds while a part is sent, and Multipart/Runs
--   what holds after any calls in any order.
-- Capabilities: the declarations of descriptor/capabilities.py.
-- ProbeReport, Probe: probe/__init__.py; Probe/Recording is a probe that records the publications
--   that return and what it asks to delete, and Probe/Seen has the answers behind a probe that passes.
-- Factory: _Runtime and _Session of _factory.py; Factory/Refinement has the state machine that they
--   implement, and Factory/Create is OciAdapterFactory.create.
-- Migration: OciLogicalMigration of migration.py.
-- Tests: runs on concrete data.
--
-- Numbers are natural numbers without a bound, as Python's integers; the source's integers that are
-- modelled are not negative. Bytes are lists of numbers, and a stream of them is the sequence of chunks
-- that it will yield, with the error that may end it. The loops over attempts are recursion on the
-- attempts that are left, and the loops over chunks and tags are recursion on the sequence, so no
-- fuel is needed. Messages and details of errors are left out, and the adapter's lock is not modelled:
-- an adapter, a manager and a runtime run one call at a time. httpx, urllib.parse, tempfile and the
-- constructors of the spi package are parameters or keep their arguments. One send of httpx may follow
-- redirects, and is one call here. json.loads raises decoding errors or others, as the source tells them
-- apart.
--
-- Not modelled: documents.py, which reads one packaged JSON file; the scripts that verify contracts and
-- write a release's bill of materials, which read files and run no adapter; and, of a binding, the types
-- of its fields, verify_tls and the timeout. A setting of the factory is JSON, whose type is checked; its
-- numbers are not negative. The factory draws the random cursor key before the binding's checks, where the
-- source draws it among them.
pub mod Prelude
pub mod Effect
pub mod Hashing
pub mod Json
pub mod Naming
pub mod Cursor
pub mod Binding
pub mod Transport
pub mod ObjectCommon
pub mod Retention
pub mod Adapter
pub mod Capabilities
pub mod ProbeReport
pub mod Probe
pub mod Factory
pub mod Migration
pub mod Multipart
pub mod Tests
