-- ===== src/Lib.antt =====
-- The Go toolkit: its unit of work with the gorm plugin, its builder of SQL conditions, its functions
-- on maps, its percentages, its subsets of backends, its collector of structs, and the OpenAPI
-- schemas and protobuf types of Go types.
--
-- Parts, and the files that model them (paths are from the root of the repository):
--   unitofwork/entity.go       UnitOfWork/Entity      entities are pointers into a heap of objects
--   unitofwork/snapshot.go     UnitOfWork/Snapshot    snapshots of fields, comparison, changed fields
--   unitofwork/operation.go    UnitOfWork/Operation   the six operations, identity and merging
--                              UnitOfWork/Execute     `Execute` of each, over a database
--   unitofwork/dependency.go   UnitOfWork/Dependency  the dependency graph and the topological sort
--   unitofwork/unitofwork.go   UnitOfWork/Config      `Config` and its options
--                              UnitOfWork/State       `Create`, `Update`, `Delete`, `Rollback`
--                              UnitOfWork/Plan        cancelling, merging and sorting of operations
--                              UnitOfWork/Commit      `Commit`
--                              UnitOfWork/Registered  from the calls of a client to `Commit`
--   unitofwork/manager.go      UnitOfWork/Commit      `ExecuteInUnitOfWork`
--   unitofwork/plugin.go       UnitOfWork/Plugin      the callbacks around those of gorm
--   sqlext/query/query.go      Query, Query/Pages     `Criteria`, `Where`, `Page`, `PageRet`
--   copier/copier.go           UnitOfWork/Snapshot    `DeepCopy`
--   maputils/maputils.go       MapUtils               `Diff`
--                              MapUtils/Merging       `Merge`, `MergeOverwriteSlice`
--   numberutils/numberutils.go NumberUtils            `LargestRemainder`
--   loadbalance/subset.go      LoadBalance            `Subset`
--   astutils/funcs.go          AstUtils               `ExprString`, the text of a Go type
--                              AstUtils/Structs       `NewStructMeta`, `NewMethodMeta`
--   astutils/structcollector.go AstUtils/Structs, AstUtils/Flat  `Collect`, `DocFlatEmbed`
--   astutils/interfacecollector.go AstUtils/Interfaces  `Pattern`, `pathVariables`
--   openapi/v3/helper.go       OpenApi                `SchemaOf`, the schema of such a text
--   protobuf/v3/message.go     Protobuf               `MessageOf`, `NewMessage`, `NewEnum`
--   protobuf/v3/service.go     Protobuf/Rpcs          `NewRpc`
-- A function keeps its name, in lower case with underscores; a method takes its receiver as an
-- argument. The children of a file hold its theorems.
--
-- A client registers entities with a unit of work (State). `Commit` turns the operations into a plan
-- (Plan), for which it sorts the entities by the types that they depend on (Dependency), and executes
-- it in order (Execute); the manager wraps this around a callback. Between the two halves of `Commit`
-- (`begin_commit`, `finish_commit`) the lock is free, so other calls may stand there. The plugin
-- (Plugin) turns a statement of gorm into such calls, if a unit of work is in its context; the writes
-- of `Execute` pass through the same callbacks.
--
-- The state of a unit of work is a record that each operation takes and gives back; Go maps are
-- association lists; a revision is an int64 by its bit pattern, and its successor is taken modulo
-- 2 ^ 64, as are the ints of a page and of a sum of values. Errors are values. Parameters stand for code that is not in the
-- repository: gorm and the clock (`Gorm`), `reflect` and the JSON library (`Reflect`), the sort and the
-- order in which a map is visited (`Ordering`, which says that both only rearrange; `Range`), `%v` of
-- an ID, gorm's own callbacks and its transaction, `rand.Shuffle`, the regular expressions for an
-- anonymous struct and for a json tag; for protobuf the libraries that change the case of names, the
-- JSON of an anonymous struct and the name of a tag.
--
-- Fuel: the loop over the queue of the topological sort has as much as there are types, since a type
-- enters the queue once at most, when its in-degree falls to 0. `strings.TrimSpace` has as much as
-- there are bytes, since each round drops one at least. `SchemaOf` has one more than there are bytes,
-- since a nested type is shorter; `MessageOf` takes its depth as an argument, for which the length of
-- the text is enough on the texts of types. The loop of `LargestRemainder` has as many rounds as units of the last
-- place make 100 percent, since each adds one. `Merge` needs none: it follows its source, and its limit
-- on the depth is the code's.
--
-- Not modelled: logging, the callback lists of gorm, the schemas of anonymous structs, the parsing
-- and walking of source files, the
-- context of a unit of work, which nothing in the package reads, and the other packages. Some of those
-- are copies of other projects (memberlist, form, gocache, cache, caches, envconfig, pagination); the
-- rest wraps libraries or I/O.
pub mod Prelude
pub mod UnitOfWork
pub mod Query
pub mod MapUtils
pub mod AstUtils
pub mod OpenApi
pub mod NumberUtils
pub mod LoadBalance
pub mod Protobuf
