-- ===== src/Lib.antt =====
-- Verification of wayring, a Wayland implementation around Linux io_uring.
--
-- Parts and how they interact. A receive buffer goes through the stream framer (src/stream.zig,
-- `Stream`), which cuts it into messages with the header and message codec (src/wire.zig, `Wire`).
-- Generated decoders read a message's arguments with the cursor of src/wire.zig; the encoders that
-- the scanner puts at the head of each generated module (src/codegen.zig, `Codec`) write them. The
-- programs under bench check interoperability with libwayland and measure it. Each is a set of
-- callbacks of libwayland and a main function around its event loop:
--   bench/shm-interop-server.c is `ShmServer`, bench/data-device-interop-server.c is
--   `DataDeviceServer`, bench/data-device-interop-client.c is `DataDeviceClient`,
--   bench/xdg-interop-server.c is `XdgServer`, bench/xdg-interop-client.c is `XdgClient`,
--   bench/shell-interop-server.c is `ShellServer`,
--   bench/subsurface-interop-server.c is `SubsurfaceServer`, bench/keyboard-interop-server.c is
--   `KeyboardServer`, bench/pointer-interop-server.c is `PointerServer`,
--   bench/touch-interop-server.c is `TouchServer`, bench/dmabuf-interop-server.c is `DmabufServer`,
--   bench/pointer-interop-client.c is `PointerClient`, bench/touch-interop-client.c is `TouchClient`,
--   bench/keyboard-interop-client.c is `KeyboardClient`, bench/output-interop-client.c is `OutputClient`,
--   bench/shell-interop-client.c is `ShellClient`, bench/shm-interop-client.c is `ShmClient`,
--   bench/dmabuf-interop-client.c is `DmabufClient`,
--   bench/subsurface-interop-client.c is `SubsurfaceClient`,
--   bench/output-interop-server.c is `OutputServer`, bench/libwayland-server.c is `BenchServer`,
--   bench/libwayland-client.c is `Transfer` (its loops on sockets) and `BenchClient`,
--   bench/raw.c is `RawBench`, and
--   bench/viewport-benchmark.c is `ViewportServer` and `ViewportClient`.
-- `Bench` has what they share: the calls that a handler makes, histories of requests, flags and
-- counters that follow them, descriptors, monitors of event protocols, texts, and the set-up of a
-- server. `Base` has what all modules share.
--
-- A byte is a number below 256 and a slice a list; the byte order is an argument; `usize` has 64
-- bits. An error union is `Result`, and a method that keeps its effects where it fails returns the
-- state beside it. The operations of the block pool that a framer leases from are the record
-- `Stream.BlockPool`, an argument of which nothing is assumed.
--
-- In the bench programs what libwayland and the kernel return is an argument of each handler, and
-- the calls made are its effects, in order; most versions and ids handed to libwayland are left out. Where libwayland-client.c hands NULL to
-- a call that dereferences it, the process ends: the status is then none.
-- Each handler is named as in the source; `Request` or `Event` lists what the interface or listener
-- tables route, `step` routes it, `init` is the initial state, `succeeded` the exit status as the
-- function at the end of the file computes it, and `Bench.History.run` the event loop. A history is
-- any list of requests, also one that libwayland would not deliver. An `int` that counts is a number
-- without bound, where C leaves the overflow open; a uint64_t wraps. The loop of `send_operations`
-- in `ViewportClient` runs on the operations left to go, the difference of its bounds; those that
-- send chunks, in `Transfer` and `BenchClient`, on fuel for one byte, message or ping each, of which
-- a round takes one at least. `XdgClient.Routed` gives the calls of the xdg client to its server, an
-- object's id standing for its resource. A loop that waits runs on the list of what the kernel or
-- the dispatches bring.
--
-- `Bench.Seats` is the main function that the pointer, touch and keyboard clients share, `Bench.Routes`
-- brings the calls of a client to its server's requests. `BenchClient.Arguments` and
-- `BenchClient.Measures` are main of bench/libwayland-client.c, `BenchClient.Transmit` and
-- `BenchClient.Receive` its two programs with a raw peer, the peer being the process that they fork.
--
-- Not modelled: completion routing, object namespaces, pools, the transmit queue, connections, the
-- client and server runtimes, SHM, and of the programs under bench resource.c, main of raw.c, the
-- handlers of globals of libwayland-client.c, all clocks and what is printed, and of
-- the interop programs, but for the output client, the versions of globals. Kernel input and output (src/io_uring.zig, src/unix_socket.zig), tracing and the
-- XML scanner are left out.
pub mod Base
pub mod Bench
pub mod BenchClient
pub mod BenchServer
pub mod Codec
pub mod DataDeviceClient
pub mod DataDeviceServer
pub mod DmabufClient
pub mod DmabufServer
pub mod KeyboardClient
pub mod KeyboardServer
pub mod OutputClient
pub mod OutputServer
pub mod PointerClient
pub mod PointerServer
pub mod RawBench
pub mod ShellClient
pub mod ShellServer
pub mod ShmClient
pub mod ShmServer
pub mod Stream
pub mod SubsurfaceClient
pub mod SubsurfaceServer
pub mod TouchClient
pub mod TouchServer
pub mod Transfer
pub mod ViewportClient
pub mod ViewportServer
pub mod Wire
pub mod XdgClient
pub mod XdgServer
