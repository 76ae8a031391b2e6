-- ===== src/Lib.antt =====
-- Verification of go.viam.com/utils, a library of Go utilities.
--
-- The parts that are modelled, and where:
--   * Artifact: the package artifact, versioned blobs that are found by path in a tree and by
--     hash in stores. Artifact/Tree is artifact/tree.go (TreeNodeTree.lookup, storeHash,
--     removePath), Artifact/Config is the part of artifact/config.go that works on paths,
--     Artifact/Stores is artifact/store.go and artifact/fs_store.go, Artifact/Hash is
--     computeHash, Artifact/Cache is Contains, Load, Store, NewPath and Ensure of cachedStore in
--     artifact/cache.go with emplaceFile of artifact/file.go, and Artifact/Walk is its Remove,
--     Clean, WriteThroughUser and Status. The cache uses the tree through the configuration, and
--     its stores through the record Store.
--   * Pexec: Pexec/Manager is process_manager.go of the package pexec, where a managed process is
--     its id and the object, and what its Start and Stop answer is a parameter. Pexec/Managed is
--     managed_process.go: Start, the goroutine of manage and Stop, as steps.
--   * Rpc: the gRPC streams of the package rpc over a WebRTC data channel. Rpc/Channel is write
--     and closeWithReason of rpc/wrtc_base_channel.go, Rpc/BaseStream is
--     rpc/wrtc_base_stream.go, Rpc/ClientStream is rpc/wrtc_client_stream.go, and
--     Rpc/ServerStream is rpc/wrtc_server_stream.go with the tickets, the workers and Stop of
--     rpc/wrtc_server.go; Rpc/ServerChannel is the map of streams of rpc/wrtc_server_channel.go.
--     The two ends share the base stream and the loop that writes packets; Rpc/RoundTrip joins
--     them. The size of a packet, which the sources compute with the library of protocol
--     buffers, is a parameter. The fuel of the loop is the length of the message, and each
--     packet takes a byte.
--     Rpc/Auth is rpc/server_auth.go with the simple handlers of rpc/auth.go: who may call a
--     method, for unary calls and streams, and the tokens that a server issues. What the library
--     for JSON web tokens answers, and the code of an error, are the record Libraries.
--     Rpc/CallQueue is rpc/wrtc_call_queue_memory.go: the queues that hosts share, and the
--     exchanges that a caller and an answerer share, by reference; its Steps run in any order.
--     Rpc/ClientChannel is the client's end of a connection, rpc/wrtc_client_channel.go; both ends
--     keep their streams in Rpc/StreamMap.
--     Rpc/CachedDialer is cachedDialer of rpc/dialer.go with its references, over the counts of
--     ref.go, as steps that interleave; DialFunc takes the state at its look-up and the one behind it.
--     Rpc/DialOptions is rpc/dial_options.go. Rpc/Dial is rpc/dial.go: the attempts over WebRTC
--     (Rpc/Dial/WebRtc) and mDNS (Rpc/Dial/Mdns), the choice among their results, and the direct dial behind them.
--     Rpc/DialDirect is dialDirectGRPC of rpc/dialer.go, the transport and the credentials of a
--     connection, with that to the server for external authentication, and cacheKey. Rpc/ClientAuth
--     is perRPCJWTCredentials there, with the interceptor of rpc/client_interceptors.go. What the
--     network, the resolver and the gRPC library answer are the records Net, Endpoints and AuthClient.
--   * Web: web/sessions.go, the manager of sessions over any store (Web/Sessions), and what a
--     store promises, with the store in memory as one that keeps it (Web/Sessions/Laws).
--   * Protoutils: protoutils/protoutils.go, which turns a Go value into a map for structpb. A value is
--     described by what reflection tells of it, as data types that hold each other.
--   * Mongo: the registered names of mongo/namespace.go, over a memory with pointers.
--   * Utils: the counts of ref.go (Utils/Ref), StringSet of string.go (Utils/StringSet),
--     FilterOutError of error.go (Utils/Errors), and stoppable_workers.go as steps that interleave
--     (Utils/Workers).
-- Common has what they share: tests on numbers, lists, maps as association lists, and the
-- hierarchies of names that are both the tree of artifacts and the files of the user.
--
-- Conventions. A Go map is an association list in an arbitrary order, which is the order in
-- which it is ranged over. A method that holds a mutex from its first line to its return is one
-- step. A nil error is `none` or `ok`. What was changed before an error stays changed. The
-- answers of the operating system that decide what the code does are part of the state: a
-- directory that cannot be listed or written, a commit that fails, a file that cannot be opened,
-- a link that leads nowhere. A file that is written to a temporary name and then renamed appears
-- in one step. Numbers that Go has as int and that count bytes held in memory are natural
-- numbers here. Loops are structural recursion, but for the loop named above and the nested calls of
-- FilterOutError, for which a fuel of two is enough.
--
-- Not modelled: links to directories and directories below the root that cannot be listed, paths
-- that lead out of the root directory by "..", the JSON form of the tree and of the
-- configuration, closing of the remote store, and the start-up that reads configuration files;
-- RecvMsg, the peer connection and dialWebRTC, interceptors, the keys of tokens and their times, a
-- dialer in the context of a dial but for its key, Close of the cached dialer, the kill and the logs
-- of a process, the call queue in a database, and the encoding of messages, which is a call of a
-- library. The remaining packages (servers, signaling, the database's driver, perf, serial, usb,
-- secrets) are input and output and calls of other libraries for the most part.
pub mod Common
pub mod Artifact
pub mod Mongo
pub mod Pexec
pub mod Protoutils
pub mod Rpc
pub mod Utils
pub mod Web
