-- ===== src/Lib.antt =====
-- Verification of wdt, a library and command that transfers files over several TCP connections.
--
-- A sender thread reads blocks of files from a queue and writes each, behind a header, to a receiver
-- thread; the two exchange commands whose encodings are in Protocol.cpp, built from the variable and
-- fixed-length integers of util/SerializationUtil. This library models that wire protocol whole, and
-- what is listed below of the parts around it.
--
-- Files and sources:
--   Common      shared names, Boolean tests, lists over native numbers, signed integers, bit operations
--   Wire        how encoders and decoders end, memory as a list of bytes, and what it means that an
--               encoder writes and that a decoder reads given bytes
--   Varint      util/SerializationUtil.h: encodeZigZag, decodeZigZag, encodeVarU64, encodeVarI64,
--               encodeVarI64C, decodeVarU64, decodeVarI64 (push_var_u64 is the overload on a string)
--   Serial      util/SerializationUtil.cpp: decodeInt32 to decodeInt64C, the fixed-length integers, and
--               encodeString and decodeString
--   ErrorCodes  ErrorCodes.h and ErrorCodes.cpp
--   Protocol    Protocol.h and the small functions of Protocol.cpp; its children are named for the
--               messages: Header, CheckpointList, SettingsCmd, Commands (done, size, abort, chunks,
--               encryption, footer) and FileChunks, which has also the loop of
--               ReceiverThread::sendFileChunks
--   History     util/ThreadTransferHistory.cpp: the blocks a sender thread has sent, and what a local or
--               global checkpoint does to them; its children have the other operations (Operations)
--               and the controller of all threads (Controller)
--   Threads     util/ThreadsController.h and .cpp: ExecuteOnceFunc, Barrier, Funnel, and the controller
--   TransferLog util/TransferLogManager.h and .cpp: LogEncoderDecoder (Codec), what LogParser does with
--               an entry (Entries) and with a log (Parse), and TransferLogManager (Manager)
--   Resources   WdtResourceController.h and .cpp: the senders and receivers of a namespace, and the
--               controller of all namespaces (Root)
--   SourceQueue util/DirectorySourceQueue.h and .cpp: the blocks of a file and their queue
--   Examples    the theorems at concrete inputs, with a little-endian instance of the parameter
--
-- How the code is modelled:
--   An encoder takes a memory and an offset to a status, a memory and an offset; a failed WDT_CHECK is
--   a status of its own, and the memory of a failed call is kept. A decoder takes the bytes that are
--   left to a result and the bytes then left; `decode_at` adds makeByteRange before and the new offset
--   behind. Output parameters are returned on success; a field that a version does not carry keeps
--   what the caller's structure held, which is an argument. Offsets and limits are natural numbers:
--   the code refuses a negative offset or ends the process. Sizes of strings and buffers are below
--   2 ^ 63, so sums of offsets do not wrap. `char` is signed, as on the platforms that wdt supports,
--   so the ninth byte of a varint is sign-extended. PATH_MAX is 4096.
--   A uint64_t is a natural number with `% 2 ^ 64` written out, an int64_t an integer; sums of these
--   that overflow are undefined in C++, and are integers without bound here.
--   Loops over varints run on nine rounds, which is the bound the code counts to; the loop of
--   decodeFileChunksInfoList takes one unit of fuel for each byte, since an entry takes at least one.
--   The loop of sendFileChunks runs on fuel.
--   folly's loadUnaligned, storeUnaligned and Endian are the parameter FixedInt, with the laws that a
--   value takes its size in bytes and is loaded as it was stored.
--
-- A call on a shared object is what it does while it holds the lock of the object; threads interleave
-- by the order of their calls, which the theorems take as a sequence of events or steps. A wait is a
-- result, and a notification the change that ends it. std::sort is a parameter. The transfer log is
-- the list of its bytes, and the file system a record of what it answers: the size at a path, which
-- reads fail, how much of a write is taken. In History the vector of sent sources and the queue are
-- lists with the last source first, and the queue holds only what was returned to it; SourceQueue has
-- the priority queue itself, as the list in the order in which it is popped. Maps are association
-- lists, those of the log parser sorted by their keys. The loop of parseLog runs on one unit of fuel
-- more than the log has bytes, which is enough since a round reads three bytes or is the last; the
-- loop over the blocks of a chunk on one more than the chunk has bytes, of which a round takes one at
-- least.
--
-- Not modelled: sockets, the opening and locking of files, the walk of a directory, timed waits,
-- encryption, the throttler, URLs, options, statistics, logging and the formatting of text; of the
-- sender and receiver threads only what is named above.
pub mod Common
pub mod Wire
pub mod Varint
pub mod Serial
pub mod Protocol
pub mod ErrorCodes
pub mod History
pub mod Threads
pub mod TransferLog
pub mod Resources
pub mod SourceQueue
pub mod Examples
