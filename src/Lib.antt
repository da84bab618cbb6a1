-- ===== src/Lib.antt =====
-- Xvector: a vector database service in three processes. The Gateway authenticates requests and
-- forwards them to the Writer or the Reader; the Writer changes the metadata and the data, the
-- Reader answers queries over what the Writer publishes.
--
-- The parts and their files (paths are from the repository's root):
--   Errors            the exceptions and their codes (xvector/common/errors.py)
--   Paths             names and directories (xvector/common/paths.py)
--   Pk                the generator of primary keys, and keys as ids (xvector/common/pk.py)
--   Meta/DocId        the ids of metadata documents (xvector/meta/docs.py)
--   Meta/Store        the store of metadata documents (xvector/meta/store.py)
--   Meta/Catalog      databases, collections, partitions, aliases, indexes, load states, users,
--                     roles and import jobs as documents (xvector/meta/catalog.py)
--   Auth              bearer headers and passwords (xvector/auth)
--   Gateway           the route table, the routes of both processes and the proxy
--                     (xvector/gateway/router_table.py, xvector/api/v2/routes.py,
--                     xvector/gateway/proxy.py, xvector/api/gateway_app.py)
--   Services          users, roles and aliases (xvector/services/user.py,
--                     xvector/services/role.py, xvector/services/alias.py)
--   Engine            the manager of open partitions and its fences
--                     (xvector/engine/partition_layout.py, xvector/engine/collection_mgr.py), and
--                     the parameters of indexes and queries (xvector/engine/index_map.py)
--   Schema            the schema of a collection (xvector/common/schema_map.py)
--   Services/Vector   the page of a search, the fusions of a hybrid search, documents,
--                     entities and `get` (xvector/services/vector.py)
--   Services/Imports  the run of an import job (xvector/services/import_job.py)
--   Services/Coordination
--                     Writer and Reader around a write, and the Reader's loop that brings its
--                     handles up to date (xvector/services/context.py,
--                     xvector/api/reader_app.py, xvector/api/writer_app.py)
--   Services/Collections
--                     loading and releasing collections and partitions
--                     (xvector/services/collection.py, xvector/services/partition.py)
-- Prelude, Text, Dict, Json and Exec hold what these share: names of the library, Python's text and
-- dictionary methods, JSON values, and methods that change an object and may raise. Examples has
-- concrete runs.
--
-- Each function carries the name of the Python function or method that it translates. An object is a
-- record of its fields, a method a function from the arguments and the object to a result or an
-- error and the object after it; what was changed before a raise stays changed. Messages of errors
-- are left out, but for the one that decides on a retry. The catalog is a user of the store, the
-- Gateway of the route table and of the authentication, and the manager of partitions of the paths.
-- Services/Coordination puts the managers of Writer and Reader over one disk, and
-- Services/Collections adds the Writer's catalog to them.
--
-- Not under src/, and so parameters: the zvec library (`Zvec` of Meta/Store, whose laws are
-- `ZvecLaws` of Meta/Store/Laws), the disk and the handles of collections (`Disk` of Engine), the
-- HTTP client, the S3 client and the JSON parser (`World` of Services/Imports, and arguments in
-- Services/Vector), the values of rows with their arithmetic (`Values` of Services/Vector/Ranking),
-- what the platform and zvec have (`Platform` of Engine/Indexes), the password hash, and the clock,
-- whose readings are arguments. Whether a notification arrives is an argument too. Writing the
-- snapshot file is taken to succeed, and so is publishing an import job. A call of zvec that raises
-- is taken to change nothing; a write of two calls keeps what the first has done. A fetch of zvec
-- answers for one id with None, a document, a list, or a dict of that id alone, which may be empty.
-- Numbers are integers: a fraction is left out. The calls of one store or one manager run one after
-- the other, as their locks have them do.
--
-- The wait of the key generator is recursion on the readings of the clock that are still to come,
-- and a theorem says that it ends; the retries of opening a partition are recursion on their number.
-- The rounds of an import are recursion on the number of its rows, which is enough for batches of one
-- row or more.
--
-- Not modelled: creating, dropping and renaming collections and partitions, the writes of the
-- vector service to the partitions, its reading of requests and the handles' queries, the index
-- service, the start and the stop of the Reader's loop, the OpenAPI merge, logging and trace
-- headers, the start of the processes, the Python client and the web console.
pub mod Auth
pub mod Dict
pub mod Engine
pub mod Errors
pub mod Examples
pub mod Exec
pub mod Gateway
pub mod Json
pub mod Meta
pub mod Paths
pub mod Pk
pub mod Prelude
pub mod Schema
pub mod Services
pub mod Text
