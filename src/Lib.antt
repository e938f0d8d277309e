-- ===== src/Lib.antt =====
-- Verification of oldpart, a remote operation tool: objects with declared fields are serialized
-- into buffers, the buffers become numbered messages, in clear, compressed or encrypted, and the
-- messages travel over TCP between a daemon and its clients.
--
-- The parts, and the files that model them:
-- - Proto: common/OProtoBase.h, common/OProtoBase.cpp and opp/IOStream.cpp. A field type is a
--   value of `Ty`, so `write` and `read` are the instances of `WriteField` and `ReadField`, and
--   `write_fields` and `read_fields` are what PROTO_IMPLEMENTATION generates. A coroutine that
--   yields buffers is a `Writer`, which keeps the buffers it has sent; one that pulls them is a
--   `Reader`, which keeps the chunks to come. `encode` is the byte layout without buffers. The
--   fields of the daemon's messages, opp/OPCBasicProto.h, are in Messages, and the names of
--   enumerations, common/OEnum.h, in Enumeration.
-- - Message: common/OMessage.h, common/OMessage.cpp and the two reads of `TSocket::DoRead` in
--   common/TSocket.cpp.
-- - Crypto: common/crypto/DfcCrypto.cpp, AES on buffers, and on strings (Strings), RSA and Blowfish
--   (Keys).
-- - Serializer: common/OSerializer.cpp (Send and Compress are the sending direction, Receive the
--   other, Registry the creators of objects, Deflated and Whole what goes through deflate, Sealed
--   what is encrypted, and Sendable the messages on a stream),
--   common/compress/ZLibCompressBuf.cpp (Compress) and common/compress/ZLibUnCompressBuf.cpp
--   (Uncompress). A receiver runs `read_object` on the chunks that `feed` takes from the
--   messages.
-- - Net: common/IConnectionManager.h (Mapping), common/ConnectionManager.cpp (Connections),
--   common/IOContextPool.cpp (ContextPool), common/MessageDispatcher.cpp (Dispatcher), and as
--   steps common/TSocket.cpp (SendQueue and SendObject the sending side, Reading the other, and
--   Delivered the way of an object over the bytes of its messages),
--   common/TServer.cpp (Server), common/TClient.cpp (Client), and common/MSocket.cpp with
--   `FindOrganization` of opc/main.cpp (Discovery). Server uses Mapping and Connections.
-- - Opc: the daemon's services. opc/FileHandler.cpp is in Files (`FindFiles`, `CopyFiles`),
--   Replace (`FindAndReplace`) and Wildcard (`Wildcard2Regex`); of opc/OPCBasic.cpp `GrepFile` is
--   in Grep, and the handlers with common/OProtoResponseGuard.cpp are in Handlers. `main` of opc/main.cpp is in
--   Daemon: the way to a daemon (Streams), and its event loop (Loop).
-- - Ops: the class of ops/sender.cpp.
-- - Spsc: common/SPSCArray.h, the plain array (Array, Queue).
-- - Md5: common/crypto/Md5.cpp, the block function (Process), the digest (Update), its printed
--   form and its operators (Hex); its theorems are in Streaming, Padded, Printed and Sums.
--   Reference is MD5 as RFC 1321 describes it, and Digits, Agree and Equivalent lead from the
--   code to it.
-- - Base: the names and lemmas that all of them use. Tests: the theorems on concrete inputs.
--
-- Numbers of fixed width are their two's complement patterns. A run that can fail is an
-- `Outcome`: `fault` is undefined behaviour or a failed assertion, `starved` a coroutine that is
-- not given enough, `thrown` an exception. Loops that copy bytes run on fuel: the number of bytes
-- for writing, and the bytes and the chunks for reading, since each round takes a byte or a
-- chunk. `md5_update` runs its loop on the number of bytes, and takes 64 in a round.
-- `SReplaceVisit` runs on the length of the line, since a round passes a byte of it. A file that
-- is searched is its lines, fewer than 2 ^ 31, and a tree of directories is finite. `max` is
-- MAX_MESSAGE_BODY_LENGTH, and any size that fits the statements.
--
-- Of deflate it is assumed, where a theorem says so, that it takes a first part of its input and
-- writes what there is room for. Of the kernel it is assumed that `open` and `dup` take the
-- lowest free descriptor, of `notify_fork` that it keeps the descriptors that were open when the
-- program began, and of a context of asio that its `run` returns when it is stopped.
--
-- Parameters: OpenSSL's key set-up and CBC (`Aes`), boost's CRC, zlib's inflate (`Inflate`) and
-- deflate (`Deflate`), boost::filesystem with std::fstream and boost::xpressive (`FileSystem`),
-- boost::replace_all (`ReplaceAll`), OpenSSL's RSA and Blowfish (`Rsa`, `BlowFish`), the kernel
-- (`Kernel`), addresses and sockets (`Network`), what memory held before it was written, and the
-- handlers of a dispatcher and of a socket. Asio's completions and the interleaving of threads
-- are steps.
--
-- Not modelled: `ParseEx` of common/OEnum.h, which does not compile; the arrays of
-- common/SPSCArray.h with one atomic position, used by two threads that race on the other one;
-- handlers of a server that overlap on different contexts; what `on_body` does past the first
-- form of `OnMessage`, which is a fault there; the texts of exceptions, logging, `main` of
-- ops/sender.cpp, which makes a sender and runs it, ops/ops.py, and the copy of boost_process
-- under 3rd/.
pub mod Base
pub mod Proto
pub mod Message
pub mod Crypto
pub mod Serializer
pub mod Net
pub mod Spsc
pub mod Md5
pub mod Opc
pub mod Ops
pub mod Tests
