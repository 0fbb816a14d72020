-- ===== src/Lib.antt =====
-- A model of PBFT-2PC: clusters of four nodes that run PBFT inside a shard, and two-phase commit
-- between the leaders of two shards, for transfers of money between clients.
--
-- The parts, and where each is modelled:
--   Config          config/constants.go
--   Strings         the functions of Go's strings and strconv that the program reads text with
--   Messages        the structs of pbft/pbft.pb.go and gateway/clientrpc/client.pb.go
--   Cryptox         cryptox/crypto.go: SignMessage, VerifySignature, MD5Hash; KeyFiles: the files of keys
--   Db              db/db.go; Db/Balances, Db/Locks, Db/Wal and Db/Logs are the files of db/
--   Timer           node/timer.go
--   Collect         collectPrepares and collectCommits of node/operations.go
--   Node            node/node.go: the struct Node as a record, and NewNode; below it
--     Node/Log          writeLog, updateLog, savePrePrepare, getViewLeader, collectGarbage
--     Node/Certs        validatePrepares, validateCommits, the datastore of node/utils.go
--     Node/Locking      the loops that wait for the locks of a transaction's clients
--     Node/Backup       PrePrepare of node/rpc.go, sendPrepareReq and sendCommitReq
--     Node/Primary      runPBFT of node/operations.go
--     Node/Executor     executor, executeDatastoreLog, undoWAL, replyToClient
--     Node/TwoPhase     node/pbft_runner.go, and PCPrepare and PCCommit of node/rpc.go
--     Node/Checkpoints  validateCheckpoint and validateCheckpointCerts
--     Node/ViewChange   sendViewChange, sendNewView; Handlers: ViewChange and NewView
--     Node/Service      the other handlers of node/rpc.go
--     Node/Report       GetTransactionLog, and the printing of certificates in node/utils.go
--     Node/Menu         the menu in Start of node/node.go, and the other printing of node/utils.go
--     Node/Keys         initKeys of node/utils.go: the exchange of public keys through files
--     Node/Startup      main.go, the map of nodes in NewNode, and establishConns
--   Gateway         gateway/, the client; below it
--     Gateway/Input      readCsv and readJson of gateway/helpers.go
--     Gateway/Servers    setLiveServers and setByzantineServers of gateway/operations.go
--     Gateway/Execution  executeTransactions, and the next set of the menu of gateway/gateway.go
--     Gateway/Routing    the choice of a cluster and a leader, and signed requests
--     Gateway/Replies    Reply of gateway/rpc.go, readReplies and sendTransaction
--     Gateway/Latency    storeLatency and the sums of the two reports
--     Gateway/Menu       the choices of the menu that show balances, datastores and latencies
--     Gateway/Startup    main of gateway/gateway.go up to the menu, and the gateway's keys
--
-- A method is a function from the node's state to its answer and the state after it. What it sends
-- and the goroutines that it starts are appended to the field `outbox`. A method that waits is cut
-- at its waits: what other goroutines do to the node meanwhile, what comes out of a channel and what
-- another node answers are arguments, lists with one element for each wait, and the result is `none`
-- where the method still waits at the end of the list; the coordinator's repeated calls of PCCommit, which
-- follow all that it does to its state, are instead the ending `resending`. So all recursion is on lists and no fuel is
-- needed; a loop that counts up to a number takes the number of its rounds. Theorems about loops say
-- that they end on lists that bring what they wait for.
--
-- An int64 is a natural number below 2^64, in two's complement, with its wrap-around written out. A
-- pair of a value and an error is a `Result`; a nil dereference is its third case. The gateway is taken to
-- run in a directory directly below that of the nodes, where its paths ../keys and ../config.json lead.
--
-- Parameters (Deps): a bucket of bbolt with what its documentation states of Get, Put and Delete;
-- the text forms of strconv and json with their round trips; protobuf, SHA-256, RSA and MD5, with
-- that a signature verifies; the x509 and PEM texts of keys with their round trips;
-- what fmt's `%v` makes of a struct. Instances has a concrete one of each, which the examples in Tests use.
--
-- Not modelled: generated gRPC code, opening files and connections, printState of the gateway, the
-- throughputs (floating-point numbers), the decoders of CSV and JSON, the generation of keys, real time,
-- failures of the disk, and interleavings inside a method between its waits.
pub mod Prelude
pub mod Strings
pub mod Config
pub mod Messages
pub mod Deps
pub mod Instances
pub mod Cryptox
pub mod Db
pub mod Timer
pub mod Collect
pub mod Node
pub mod Gateway
pub mod Tests
