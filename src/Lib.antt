-- ===== src/Lib.antt =====
-- alba, the C++ client library under cpp/: messages, manifests, the resolution of slices of objects
-- into parts of fragments, the caches and pools that go with it, and the requests to a proxy; and the C of the server.
--
-- Parts and files
-- - Llio: cpp/include/llio.h and cpp/src/lib/llio.cc. Llio.Message is the view `message` on a
--   `message_buffer`; Llio.Reader is what a `from` does to a view: it returns, throws, or halts where
--   the process ends or the behaviour is undefined. Llio.From has the readers. Llio.Builder and
--   Llio.To are `message_builder` and the `to` functions. Llio.Layout is the format by itself, to
--   which Llio.RoundTrip, Llio.VarintRoundTrip, Llio.Groups and Llio.Writing hold the code. Llio.Safety and
--   Llio.SafeFrom are about memory safety on arbitrary bytes.
-- - Common, Checksum, Encryption: cpp/src/lib/alba_common.cc, cpp/src/lib/checksum.cc and
--   cpp/src/lib/encryption.cc. Encryption.Counter and Encryption.Decrypt are `partial_decrypt`, which
--   Encryption.Blocks and Encryption.Streams hold to counter mode.
-- - Manifest: cpp/include/manifest.h and cpp/src/lib/manifest.cc. Manifest.Versions is `from2`, which
--   says where an exception leaves the message; Manifest.Entries is `_read_object_infos` of
--   cpp/src/lib/proxy_protocol.cc, which goes on after such an exception.
-- - Exec: methods that change an object and may throw; Exec.Triples is what holds before and after one.
-- - Client: cpp/include/transport.h, cpp/src/lib/transport.cc and cpp/src/lib/generic_proxy_client.cc;
--   Client.Calls has the methods, Client.Exchange and Client.Slices what goes over the transport.
-- - Rdma: cpp/src/lib/rdma_transport.cc, with what its reads and writes deliver in Rdma.Delivery and
--   Rdma.Sending. Partial: ocaml/src/tools/alba_partial_read_stubs.c, the worker that sends slices of a
--   file, with its loops in Partial.Loops and what it reports in Partial.Delivery. Crc:
--   ocaml/src/tools/alba_crc32c_stubs.c, of which Crc.Agree compares the two ways.
-- - Rora: cpp/src/lib/rora_proxy_client.cc. Rora.Slices has `get_location` and
--   `_resolve_slice_one_level`, Rora.Levels `_resolve_one_level`, Rora.Resolve
--   `_resolve_one_many_levels`, Rora.Key `_fragment_key`, Rora.Keys `get_encryption_key`,
--   Rora.ShortPath `_short_path` and the loop that decrypts, Rora.Reads `read_objects_slices`, and
--   Rora.Methods the constructor and the other methods. Rora.Client is the state, with the singletons
--   that the client uses; Rora.Access is how `OsdAccess` of cpp/src/lib/osd_access.cc is filled.
--   Rora.Choice, Rora.Upkeep, Rora.Invariant, Rora.Digests, Rora.Routes and Rora.Refusals are about reads.
-- - Cache: cpp/src/lib/lru_cache.h, over an interface for boost::bimap, and Cache.Manifests, the
--   `ManifestCache` of cpp/src/lib/manifest_cache.cc.
-- - Osd: the readers of cpp/src/lib/osd_info.cc.
-- - Proxy: the requests and responses of cpp/src/lib/proxy_protocol.cc, and
--   cpp/include/proxy_sequences.h.
-- - Asd: `ConnectionPool` of cpp/src/lib/asd_access.cc, and Asd.Direct, the reads of
--   cpp/src/lib/osd_access.cc over the pools; Asd.Requests and Asd.Responses are
--   cpp/src/lib/asd_protocol.cc, and Asd.Client is cpp/src/lib/asd_client.cc.
-- - Runs: the theorems on concrete messages, objects, caches and pools.
-- - Base: Boolean tests, lists and machine words over the native numbers.
--
-- Bounds and fuel. Bytes and words are natural numbers, with the wrap-around of uint32_t and uint64_t
-- written out; stores are of a little-endian machine. The reader of a varint has eleven rounds of
-- fuel, of which the last is only reached by a shift that is undefined; the writer has ten, as many as
-- a 64-bit number has groups. The loop over a slice has as much fuel as the slice has bytes, and
-- those of an rsocket as much as the buffer has; the worker's has a round more, and one for each time
-- that the socket is not ready. Theorems on writers are for messages of fewer than 2^30 bytes, below
-- which no size of the builder wraps.
--
-- Parameters. snappy is a function from the compressed to the plain bytes. boost::bimap is an
-- interface with the laws of its documentation. The ciphers of libgcrypt are an interface, with counter
-- mode as its law, and a digest is a function that may fail. A transport is an interface of three methods;
-- an rsocket and the system calls are interfaces, of a stream and of a socket that may not be ready.
-- The instructions for a CRC are an interface, with the division by its polynomial as their law.
-- A connection to an asd, the outcome of its reads and the time are arguments. A fast path of
-- `read_objects_slices` tracks where the slices are read, not the bytes in the buffers of the caller.
--
-- Not modelled: TCP_transport, which leaves its work to boost::asio, how transports connect, logging,
-- statistics, printing, the choice of a client in `make_proxy_client`, what threads do between the locks
-- of one call or while another one fills the maps of osds, and the OCaml of the server.
pub mod Base
pub mod Llio
pub mod Common
pub mod Checksum
pub mod Encryption
pub mod Manifest
pub mod Rora
pub mod Cache
pub mod Osd
pub mod Proxy
pub mod Asd
pub mod Exec
pub mod Client
pub mod Rdma
pub mod Partial
pub mod Crc
pub mod Runs
