-- ===== src/Lib.antt =====
-- wowdoc keeps an index of World of Warcraft UI sources and AddOns and answers questions about it.
-- This library models the parts of the program that carry its own logic, as functions on explicit
-- states, and proves what makes them correct.
--
-- The parts and the files that model them:
--
-- * internal/objectstore/store.go is modelled by ObjectStore. A pack is a byte string: eight magic
--   bytes and then records of a 52-byte header (ObjectStore.Header: `encodeRecordHeader`,
--   `decodeRecordHeader`) and a payload. `Store`, `put`, `openStaging` are `Store`, `put`,
--   `open_staging` of ObjectStore.Builder; `Publish`, `publishIndex`, `compactPack`, `Abort` are
--   `publish`, `publish_index`, `compact_pack`, `abort` of ObjectStore.Publish; `lookupRecord` is
--   in ObjectStore.Index, `openPackRecord` in ObjectStore.Pack, and `Open`, `OpenAST`,
--   `OpenSource`, `Exists`, `Location` in ObjectStore.Read. A `World` holds the files, the tables
--   of index.sqlite and the cache of this process. What can fail is a flag of `PutEnv` or
--   `PublishEnv`, so that a theorem over all environments is one over all failures; a failed write
--   may leave any part of its bytes. sha256 and gzip are the parameter `Platform`; `IsLawful` says
--   what the store relies on: a digest is 32 bytes and gunzip undoes gzip.
-- * internal/catalog/catalog.go is modelled by Catalog, with the table of sources in
--   Catalog.Table.
-- * internal/store/catalog.go is modelled by Refs: the tables of catalog.sqlite as association
--   lists, a transaction as a function that changes nothing where it fails. It resolves refs with
--   the version prefixes of Catalog's sources.
-- * internal/validator is modelled by Validator: types.go by Validator.Types, closure.go by
--   Validator.Closure (Resolve for the paths, Load for `load` and `parseXML`, Toc for `parseTOC`
--   and `BuildClosure`) over Validator.Paths, analyze.go by Validator.Analyze, validate.go by
--   Validator.Validate and matrix.go by Validator.Matrix. `Validate` builds the closure, analyses
--   its files and joins the evidence; `MergeMatrix` merges the reports of several targets. The
--   file system and the XML decoder are the parameter `Disk`; the Lua parser is a parameter of the
--   analysis.
-- * internal/query/compat.go is modelled by Query.Compat: `LookupCompatibility` is
--   `lookup_compatibility`, its resolver with the cache `lookup`. The rows that the SQL selects
--   from one snapshot are the parameter `Snapshot`.
-- * internal/query/query.go and search.go are modelled by Query: `search` of search.go is
--   Query.Search, over the tiers of Query.Tiers, the excerpts and the matching line of
--   Query.Excerpt and the guards of Query.Ready; `Diff` is Query.Diff. The parameter `Db` of
--   Query.Types gives the rows of each statement before its topic filter, order and limit, which
--   are modelled, and the lines of source objects. Query.Pattern has `escapeLike` and the patterns
--   made of it; how the database reads a pattern is a parameter, with its documented laws
--   `IsLike`.
-- * internal/store/branch.go is modelled by Branch: the tables in Branch.Types, `publishContent`
--   in Branch.Content and Branch.Facts, the snapshot's transaction in Branch.Snapshot, `Publish`
--   in Branch.Publish, the reads in Branch.Read. A failing statement rolls its transaction back,
--   so a transaction is its effect and the error that ends it.
-- * internal/gitstore/git.go is modelled in part by GitStore: `Tree` by GitStore.Tree,
--   `BlobReader` by GitStore.Blobs, `retryNetwork` by GitStore.Retry, `retryableGit`,
--   `redactGitText` and `classifyGit` by GitStore.Errors. What git writes is an input;
--   GitStore.Words has the laws of the words of a line.
-- * internal/result/result.go is modelled by Results.
-- * internal/indexer/version.go is modelled by Indexer.Version.
-- * internal/indexer/parse.go is modelled by Indexer: `extractLuaFacts` is in Indexer.Lua, over
--   the trees of Indexer.Syntax, `parseTOC` in Indexer.Toc, `parseGeneratedAPI` in Indexer.Api,
--   over the patterns and `findLuaTableEnd` of Indexer.Generated, and `parseLua` in
--   Indexer.Source. The Lua parser is a parameter; a slice out of range is a panic, which is a
--   value of the result.
-- * internal/lock/lock.go is modelled by Lock: the calls of `Acquire` and `Release` are the steps
--   of processes on one file, and a run is any sequence of them.
--
-- Base holds what all share: Boolean tests, decided equality as an instance, dictionaries,
-- sorting, the order of texts apart from any test of it (Base.Order), results. Strings holds Go's
-- string functions, Strings.Decimal the decimal numbers, Base.Int integers with a sign. Tests
-- holds concrete inputs for the theorems.
--
-- Bounds and fuel: numbers are natural, and the int64 fields of a header keep their 64 bits and
-- their sign in decoding. `load` recurs on fuel that bounds how deep files include one another;
-- fuel above the number of files that references can reach is enough. Digits are printed with fuel
-- above the number. A network command has four attempts, which its loop counts down.
--
-- Conventions: texts are code points, and letters are folded in ASCII, as the names of the program
-- are. Paths have a slash as their separator. A map is an association list in which a key is
-- looked up from the front.
--
-- Not modelled: of the indexer (internal/indexer), the XML files and the build of a snapshot; of
-- the queries, Inspect and Status; of the branch database, the opening, attaching and migration of
-- its files; of git, the synchronisation of mirrors, worktrees and tags (internal/gitstore) and
-- internal/gitinstall; the layout (internal/home), the commands (internal/app) and the packaging,
-- which are not covered yet or only call the operating system, SQLite and git; and the mutexes of
-- the object store, each operation of which is one step here.
pub mod Base
pub mod Strings
pub mod Catalog
pub mod Refs
pub mod Validator
pub mod ObjectStore
pub mod Query
pub mod Results
pub mod GitStore
pub mod Branch
pub mod Lock
pub mod Indexer
pub mod Tests
