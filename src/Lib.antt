-- ===== src/Lib.antt =====
-- bepper is a backend for Bazel's Build Event Service. Bazel streams the events of a build to
-- src/server over gRPC; the server appends each event to a blob of JSON lines for its invocation
-- (src/store, on a blobstore of src/blobstore) and feeds it to a parser that fills a summary record
-- (src/index), which is written to an index when the stream has ended. The web UI reads the blob back
-- and makes the log, the details and the list of targets of it, lists the invocations of the index, and
-- passes on files that an invocation has reported from a remote cache (src/bytestream). src/auth puts a
-- sign-on in front of it, and main.go chooses the parts from the environment.
--
-- Files:
--   Base       the shared names, and the parts of Go and its standard library that the code uses:
--              signed integers, texts, maps, results, the sort of the sequence numbers (Sort) and a
--              sort by an order (SortBy).
--   Events     the messages of proto/gen, as far as the code reads them.
--   Blobstore  src/blobstore/blobstore.go: the interface, and the contract of its writers.
--              Blobstore/Memory is an instance for concrete runs, Compression has Compress and
--              Decompress.
--   Disk       src/blobstore/disk: the store and its writers (disk.go, writer.go); Session has what a
--              writer leaves in the files, Writing what is read of it. Contract makes it a `Blobstore`,
--              which keeps the contract of the writers (Laws) and does not fail where the operating
--              system does not (Reliable).
--   S3         src/blobstore/s3: the store (s3.go) and its streaming writer (writer.go, Writer) over
--              the AWS SDK, with Laws for what S3 is relied on for; Streams, Commit and Atomic follow a
--              blob to its upload, Bucket is about New.
--   Diskcache  src/blobstore/diskcache/diskcache.go: the eviction of cached files (Eviction), and the
--              blobstore over a backing store and a cache (Cached, with Backing).
--   Store      src/store/store.go. Store/Defs has the operations AppendEvent, ReadEvents and
--              Finalize; Json is what protojson is relied on for; Invariant and Appends follow the
--              open writers through the operations; RoundTrip has sequences of operations,
--              Reliable the operations over writers that do not fail.
--   Index      src/index: Record, Tags (tags.go), GitUrl (giturl.go), Indexer (indexer.go), Parser
--              (parser.go: Setters has the setX methods, Sources the events that call them,
--              Precedence the fields after a stream), Targets (targets.go: FileSets has
--              resolveFileSets, Summary has ParseTargets) and Detail (detail.go).
--   Server     src/server/server.go: Defs has PublishBuildToolEventStream and finish, Loop what its
--              loop has done at the end of a stream, Streams and Persistence whole streams, and OnDisk a
--              whole stream to the files of Disk.
--   Webui      src/webui/webui.go: getBlob with its check of the URI (Guard) and its error path
--              (Streaming); Api has the handlers over the index, Details those over the stored events
--              and the headers of blobs; Stored and Indexed are about a stream from the server to
--              these views; Remote and Hosts have getBlob with the client of Bytestream, Routes the
--              routes of New. ServeMux takes the most specific pattern, Routes the first: no two
--              patterns match one path (Dispatch). Patterns has the paths of a pattern, Served those
--              of the routes, with their handlers.
--   Auth       src/auth: Config (config.go), Session (session.go, with RoundTrip for the codec of the
--              cookies), Provider (oidc.go), ReturnPath and Middleware (middleware.go: Gate has who is
--              let through, Callback when a session is issued, Login a whole sign-on).
--   Postgres   src/index/postgres/postgres.go: Rows has what is written and read back, Semantics how
--              the statement of List is read, Listing what it asks for, Selects what List gives.
--   Bytestream src/bytestream/bytestream.go: Limit has what a transfer writes, Connections the
--              connections that a client keeps.
--   Main       main.go: the choice of the parts, with SignOn for a required sign-on.
--   Samples    concrete parameters; Examples has runs at them.
--
-- Correspondence. A method that changes its receiver is a function that returns the new state with
-- its result; a call of an interface passes that interface's state along. A mutex makes its critical
-- section one step, so concurrent streams are sequences of operations in any order. Go's maps are
-- association lists, whose order is one in which a `range` may visit them. Times and durations are
-- signed numbers of nanoseconds, int64 values are unbounded, and texts are lists of characters; the
-- separators that the code looks for are ASCII characters. A column of type TIMESTAMPTZ keeps the whole
-- microseconds of a time. A file of Disk has one writer at a time: a write puts what the writer has
-- handed over so far at the start of its file, which is the file up to the offset of its descriptor.
-- What is only logged is left out.
--
-- Parameters: net/url (UrlPackage), protojson (ProtoJson with JsonLaws), the blobstore with
-- WriterLaws, the index, and in Server's Environment the clock, `Any.UnmarshalTo` and `Send`; the
-- package gzip (Gzip, with Inflates); in Disk the errors of the file system; in S3 the client of the
-- AWS SDK (Service, with ServiceLaws); in Diskcache the directory listing, `os.Remove` and
-- the order of files with the same time; in Auth the ciphers and base64 (Crypto with CryptoLaws),
-- JSON (JsonCodec with Inverts), rand.Read (Read with Fills), the packages oidc and oauth2 (Provider, Oauth2) and the
-- time of each request; in Postgres ILIKE, the order of rows that were created at the same time,
-- and the driver; in Webui net/http's ServeMux, strconv, time and
-- path/filepath; in Bytestream gRPC (Connection, Incoming); in Main the constructors that reach a
-- service. A request comes to Auth with the path that ServeMux has cleaned.
--
-- Fuel: resolveFileSets recurses on a map of sets that it has seen. The model bounds the depth of the
-- calls by the number of named sets plus one; every nested call has marked a new set as seen, so the
-- bound is never met.
--
-- Not modelled: the timeouts of the waiters of S3; the HTML of the sign-on pages and the files of the
-- frontend; the text of the schema of Postgres; and PublishLifecycleEvent, which only logs.
pub mod Base
pub mod Events
pub mod Blobstore
pub mod Diskcache
pub mod Disk
pub mod S3
pub mod Store
pub mod Index
pub mod Server
pub mod Auth
pub mod Postgres
pub mod Bytestream
pub mod Main
pub mod Webui
pub mod Samples
pub mod Examples
