-- ===== src/Lib.antt =====
-- udpfsd serves files over UDP to a small client. Its parts, from the wire up: the package udprdma
-- (reliable messages over datagrams), the package udpfs (requests and replies), internal/fs (files,
-- directories, a block device, compressed images) and internal/udpfsd (sockets and the table of peers).
--
-- Modelled are the packages udprdma and udpfs, the server's table of peers, the table of handles of
-- internal/fs with the operations on files and paths, and of internal/fs/compression the cache of
-- decompressed blocks, the reader on top of it and CISO, ZSO and ZISO images. A session turns each reply into
-- numbered DATA packets of at most 1408 bytes of payload, keeps at most eight of them unacknowledged in
-- a ring, sends them again on a NACK or a timeout, and passes on the payload of the packets that arrive
-- in order.
--
-- File                          Source
-- Udprdma/Protocol.antt         udprdma/protocol.go: Header, DiscHeader, DataHeader with Pack and
--                               Unpack..., ProcessDiscoveryPacket
-- Udprdma/Session.antt          udprdma/session.go and metrics.go: Session, NewSession, Close,
--                               ResetSession, InFlight, seqBetween, clearTransfer, resetSendState
-- Udprdma/AckTimer.antt         udprdma/ack_timer.go: armAckTimer, stopAckTimer, updateAckTimer
-- Udprdma/Transmit.antt         udprdma/session_tx.go: all of it; ackTimerFunc of ack_timer.go
-- Udprdma/Acks.antt             udprdma/acks.go: onAck, onPeerAck, onPeerNack
-- Udprdma/Receive.antt          udprdma/session_rx.go: ProcessDataPacket
-- Udpfs/MsgType.antt, Codes.antt  udpfs/protocol.go and fs.go: message types, error numbers, flags
-- Udpfs/Replies.antt            udpfs/utils.go: StatInfo, EncodeTime, StatInfoFromFile, Pack...
-- Udpfs/Interface.antt          udpfs/fs.go: FS, as a record of operations on a state
-- Udpfs/Connection.antt         udpfs/connection.go: Connection, Send..., the cache of handles,
--                               ResetPeer, Close
-- Udpfs/Requests.antt           udpfs/handlers.go: the fields of a request
-- Udpfs/Handlers.antt           udpfs/handlers.go: handleOpen, handleClose, handleRead, handleLseek,
--                               handleDread, handleGetstat, handleMkdir, handleRemove, handleRmdir,
--                               handleBread
-- Udpfs/Writes.antt             udpfs/handlers.go: handleWriteReq, handleWriteData, handleBwriteReq
-- Udpfs/Dispatch.antt           udpfs/handlers.go: HandlePayload
-- Fs/Handles.antt               internal/fs/handles.go: allocHandle, freeHandle, getFile,
--                               getFileByPath, getFileState, getDir; Shutdown of internal/fs/backend.go
-- Fs/Files.antt                 internal/fs/fileops.go: Close, Read, WriteStart, WriteChunk,
--                               CompleteWrite, Lseek, Bread, BwriteStart; writeState of handles.go
-- Fs/Paths.antt                 internal/fs/utils.go: resolvePath
-- Fs/Opening.antt               internal/fs/fileops.go: Open, Dread, Getstat, Mkdir, Remove, Rmdir
-- Compression/Cache.antt        internal/fs/compression/cache.go: blockCache
-- Compression/Reader.antt       internal/fs/compression/reader.go: CachedReader
-- Compression/Cso.antt          internal/fs/compression/cso/cso.go: parseHeader, ReadBlock
-- Compression/Zso.antt          internal/fs/compression/zso/zso.go: parseHeader, ReadBlock
-- Compression/Formats.antt      what cso.go and zso.go have in common
-- Server.antt                   internal/udpfsd/server.go, data.go, discovery.go: the table of peers
-- The other files under Udprdma/ hold proofs: Protocol/ on the bytes, Window/ on the ring as a
-- queue, Transfer/ on the loop of handleTransfer as a step relation, Invariant/ on what every
-- operation keeps, Acks/ on ranges of numbers, Receive/ on what is delivered, Timeout/ on silence,
-- Channel/ on two sessions, Progress/ on whole replies. Under Udpfs/, Client.antt has the requests
-- as a client means them, Laws.antt what is asked of a file system, Safety/ the proofs on which
-- requests do not panic, Reopen.antt those on a reset of the peer. Server/ has the proofs on the
-- server, Fs/Handles/ those on the table of handles, Fs/Files/ those on writes in chunks and on too
-- large reads, Fs/Paths/ and Fs/Opening/ those on paths, on Open and on the backend as the file
-- system of Laws.antt, and Compression/Cache/, Compression/Reader/, Compression/Cso/ and
-- Compression/Zso/ those on the cache, the reader and images; Cso/Encode.antt makes the bytes of an
-- image. The files Tests.antt hold runs.
--
-- A datagram goes from the server to the session of its sender, its payload to that peer's connection,
-- which calls the file system and answers through the session. A handle's file may be a reader of a
-- compressed image.
--
-- State and effects. A session is a record, and an operation a function from it to a new one, since the
-- code holds a lock over each. Datagrams and calls of the reset callback are events of a trace. A call
-- that can panic in Go (a slice out of range, a full ring) returns an Outcome, ok or panic.
-- Numbers are natural numbers, cut to the width of the Go type at each operation that can overflow.
-- A byte list stands for a slice; a nil `data` of a transfer is `none`, and the callers never pass nil.
--
-- Bounds and fuel. The loops over the ring take 2048 rounds, the number of slots, and stop before the
-- ring is once round. The loop of handleTransfer takes two rounds more than the data has bytes: a round
-- sends a byte or the header, or is the last. Transfer/Total.antt proves that this is enough, so a
-- model that runs out of fuel (`stuck`) is excluded wherever a theorem says that a call returns.
-- ceil of a float quotient is the quotient rounded up, which agrees below 2^50 bytes.
--
-- The loops over the table take 64 rounds, its size. Readings of the clock are arguments. The loop of
-- Read takes one round more than there are bytes to read, of which each round reads one at least.
--
-- Not modelled: when the timer fires (any order of calls is allowed), log output, the metrics' getter
-- and the metrics of udpfs, the files behind the handles (the parameters Storage and Os), images in
-- Open and Dread, the choice of a format by a path's extension, the decompressors (parameters), CHD
-- images (the reader takes any format as a parameter), the options, and the sockets.
pub mod Common
pub mod Udprdma
pub mod Fs
pub mod Udpfs
pub mod Compression
pub mod Server
