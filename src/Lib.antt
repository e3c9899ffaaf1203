-- ===== src/Lib.antt =====
-- A verification library of tusd, the server of the resumable upload protocol tus: its HTTP handlers and hooks,
-- the file store, the S3 store, the memory locker and the file locker.
--
-- A request passes the middleware and the router (pkg/handler/handler.go) to one of the handlers of
-- pkg/handler/unrouted_handler.go. A handler locks the upload, asks the data store of the composer for
-- it, and answers; PATCH and creation hand the body, through a body reader with a limit, to the store.
--
--   Base, Strconv    shared names; Go's strings as lists of bytes, `int64` as `ℤ` with its wrap-around, maps
--                    as association lists, package strconv
--   Http             pkg/handler/http.go and error.go, and the errors of unrouted_handler.go
--   Ids, Metadata    the headers and paths of unrouted_handler.go: `parseConcat`, `extractIDFromPath`,
--                    `extractIDFromURL`, `validateUploadId`, `ParseMetadataHeader`, `SerializeMetadataHeader`
--   BodyReader       pkg/handler/body_reader.go; `drain` is a store that reads to the end
--   DataStore        pkg/handler/datastore.go, composer.go and hooks.go: `StoreComposer` is the interface
--                    that the handlers use and that FileStore/Composer fills
--   Handler          unrouted_handler.go: Monad is the state of a request and its errors, Respond the way a
--                    handler ends, Chunk `writeChunk`, Post `PostFile`, Patch `PatchFile`, Read `HeadFile`
--                    and `GetFile`, Delete `DelFile`, Routes the router, with Middleware and Draft
--                    (`PostFileV2`); Keeps and Locks are about the locks of a request
--   FileStore        pkg/filestore/filestore.go over the file system of FileStore/Os, in which any call can
--                    fail and a write can stop part of the way; Composer joins it with the locker
--   MemoryLocker     pkg/memorylocker/memorylocker.go, as one request sees it; Waiting with all requests at once,
--                    as a step relation, with the channels that they wait for
--   FileLocker       pkg/filelocker/filelocker.go over the lock files of another package; Laws is about a request
--                    that waits for the lock of another process
--   System           PATCH over the file store, from the request to the data file
--   Action           calls that return a value and an error and change a state, in order
--   S3               pkg/s3store/s3store.go and s3store_part_producer.go over a service that is a parameter:
--                    Service the calls of `S3API`, Producer `produce`, Upload the creation of an upload and what
--                    a handle finds out about it, Write `WriteChunk` and `uploadParts`, Finish the rest, Serve
--                    pkg/s3store/serve_content.go, Composer `UseIn`; Laws is what is relied on in the service,
--                    in terms of the objects that there are and the parts of an upload; Write/Cut, Room, Steps,
--                    Content, Complete, Taken, Sent, Append and Success, Finished, Resumed and Handle prove
--                    what becomes of the bytes
--   Hooks            pkg/hooks/hooks.go: the callbacks that `NewHandlerWithHooks` gives to the handlers, and its counters
--   Tests            concrete runs
--
-- A function of the source keeps its name, in snake case. An early return with `sendError` is an error of
-- the monad; `handle` sends it, and then makes the deferred `Unlock` calls. Loops walk a list, a string or the
-- events of a body, but for two loops of the S3 store, which have rounds: the part producer takes one byte at least
-- in each, and `listAllParts` lists one part at least in each but the last. The requests that the S3 store sends at
-- once are made one after the other.
--
-- The law of HEAD in S3/Laws takes only NoSuchKey and NotFound for a missing object; an answer that access is denied says
-- nothing. `Unlock` of the memory locker without an entry panics, which FileStore/Composer does not pass on: a handler
-- unlocks what it has locked.
--
-- Parameters: the hooks, the store and locker behind `StoreComposer`, the S3 service, packages lockfile, mime,
-- encoding/json, path/filepath and regexp, `http.ServeFile`, and the IDs of internal/uid. The failures of the file
-- system are a part of its state, as are those of the temporary files of the S3 store.
--
-- Not modelled: logging, timeouts and deadlines, progress notifications, the request context, the stores on
-- Google Cloud and Azure, the presigned requests of the S3 store, the backends of the hooks, the Prometheus
-- collector and the command line; they are I/O, or stand behind interfaces that are parameters here.
pub mod Action
pub mod Base
pub mod BodyReader
pub mod DataStore
pub mod FileLocker
pub mod FileStore
pub mod Handler
pub mod Hooks
pub mod Http
pub mod Ids
pub mod MemoryLocker
pub mod Metadata
pub mod S3
pub mod Strconv
pub mod System
pub mod Tests
