-- ===== src/Lib.antt =====
-- Stencil, a schema registry. A client stores versions of a schema in a namespace, the service
-- checks each new version against the latest one, and answers which types depend on which.
--
-- The parts, and the files that model them:
--  * formats/protobuf/compatibility.go, error.go, utils.go: Formats/Protobuf.antt (Descriptor: what
--    protoreflect returns; Walk: the walks over a schema; Diff: kinds of changes and the error that
--    collects them; Compare: compareSchemas and what it calls). Compare/Schemas.antt says what a
--    compatible pair is, without the traversal.
--  * formats/protobuf/schema.go and provider.go, formats/avro, formats/json,
--    core/schema/provider/provider.go: Formats/Parsed.antt, with one constructor for each format.
--    The libraries for the formats, UUIDs and joined errors are the record `Libraries`.
--  * core/schema/lineage.go: Lineage.antt (Deps: buildDependencyMaps; Roots: findRootFQNs; Walk:
--    walkLineage; Compute: computeLineage). proto.Unmarshal and the order of a loop over a map are
--    parameters.
--  * core/changedetector/utils.go: Detector/Fields.antt; proto_change_detector_service.go: the rest of
--    Detector.antt (Event: IdentifySchemaChange; Reverse: getReverseDependencies; Impact:
--    getDependentImpactedSchemas). proto.Equal is a parameter.
--  * internal/store/postgres: Store.antt (Tables: the tables of the migrations; Schemas,
--    Namespaces and Notifications: the repositories, each query a function of the tables).
--    Store/Integrity.antt has the migrations' constraints and the calls that change the tables.
--  * core/schema/service.go, utils.go and compatibility.go: Service.antt (cachedGetSchema, Get,
--    GetLatest, CheckCompatibility, Create), Service/Checker.antt (the compatibility modes) and
--    Service/Versions.antt (ValidateVersions), Service/Calls.antt (GetLineage and the rest),
--    Service/Notify.antt and Service/Detect.antt (DetectSchemaChange and the notifications). The cache,
--    Kafka's producer, printing and reading numbers are parameters; the cache's state is passed on explicitly.
--  * clients/go: Client.antt (Refresh: the loaders; Store: a store and its goroutine, whose steps
--    interleave with readers, refreshes of the client and Close; Resolver: the types under their Java
--    names; Lookup: the client over the stores of its URLs). HTTP and the protobuf library are
--    parameters.
--  * core/search and internal/store/postgres/search_repository.go: Search.antt.
--  * internal/api: Api.antt (the enums), Api/Namespaces.antt and Api/Schemas.antt (the handlers).
--  * pkg/validator: Validator.antt, over what reflection gives for a message.
-- The service reads and writes the tables through the repositories, parses through the provider,
-- compares through the parsed schemas, and computes the lineage from the bytes of the latest version.
--
-- Numbers: stored versions and levels are never negative, so they are natural numbers.
-- Field numbers and ends of ranges are bit patterns of 32 bits, and `end - 1` wraps around.
-- Loops: the two breadth first searches run as many rounds as their level or depth allows, which is
-- the bound of the code itself; all other loops are recursion on the data.
-- A Go map to slices is a function that gives the empty list for a missing key.
--
-- Not modelled: the goroutine in which Create starts the change detection, the routes and the mapping
-- of errors to HTTP statuses, the command line, and the server's set-up. Times, logs and metrics are
-- left out, and so are failures of the database other than violated constraints, a lookup of one row
-- that finds none or more than one, and a query that is no regular expression.
pub mod Base
pub mod Formats
pub mod Descriptors
pub mod Lineage
pub mod Detector
pub mod Service
pub mod Client
pub mod Validator
pub mod Search
pub mod Api
pub mod Store
pub mod Tests
