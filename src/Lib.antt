-- ===== src/Lib.antt =====
-- A verification library for levbdim, a data acquisition framework in C++. Data sources publish
-- blocks of bytes over DIM; sockets receive them and store each as a file in shared memory; the
-- driver pulls the files, builds events from the blocks of all sources, and hands complete events
-- to processors, of which one writes them to disk and one stores them again for a monitor. State
-- machines, driven by messages in JSON, control the processes; a client sends them transitions over
-- the web; and a job control starts and kills processes on each host. Applications wire these
-- parts together.
--
-- Files and what they model (paths from the root of the repository):
--   Base         shared names, Boolean tests, texts, lists; `std::map` as an association list in
--                the order of its keys (Base/StdMap); bit fields as arithmetic (Base/Bits)
--   Buffer       include/buffer.hh. Memory: the block as the list of its bytes and `_psize`, with
--                the setters and getters. Compress: `compress`, `uncompress` over zlib. Layout:
--                what the setters do to the fields.
--   Shm          src/shmdriver.cxx, include/shmdriver.hh. Name: `name`, `detId`, `sourceId`,
--                `eventId`, `bxId`. Posix: the calls on files. Files: `ls`, `pull`, `store`,
--                `purgeShm`. Driver: the state of `shmdriver`, the registrations, `processEvent`
--                (`process_event`). Scan: `scanMemory` (`scan_memory`, one round `scan_round`, the
--                body of its loop over files `collect`), `cleanBufferMap`, `processEvents`,
--                `start`, `stop`, `processRunHeader`. Threads: the steps of the scanning thread
--                and of the one that stops it. Transfer, Build, Delivery, Clean, Keys, Live,
--                Batch, Order, Flag: proofs.
--   Writer       src/basicwriter.cc, include/basicwriter.hh. File: the methods. Record, RunHeader:
--                proofs, with a reader of the file's format.
--   Json         jsoncpp, an interface with the laws that the messages rely on.
--   Fsm          src/fsm.cxx, src/fsmmessage.cxx, src/fsmweb.cxx and their headers. Message:
--                `fsmmessage`. Machine: `fsm`, with `processCommand` (`process_command`). Web:
--                `fsmweb` and its controller. Routes: `setup`, and `serving`. Table, Command,
--                Serve, Dispatch, Requests: proofs. Reach: what every run of a machine keeps, from what each
--                of its transitions keeps.
--   Source       src/datasource.cxx, src/datasocket.cxx, src/monitorProcessor.cxx and their
--                headers. Publish: from a source to a socket. Handover: on to the driver.
--                Monitored: from the monitor to a client that pulls.
--   Job          src/fsmjob.cxx, include/fsmjob.hh. Status: `processStatus`, `trimString`. Table:
--                the processes. Control: what the state machine calls. Web: the web commands.
--                Machine: the constructor. Kill, Always: proofs. Tailer: src/fileTailer.cxx,
--                `fileTail`, `findTail` and (Print) `tail`, with (Safe) the proof that accesses
--                are in range.
--   Caller       src/fsmwebCaller.cxx, include/fsmwebCaller.hh, and src/wget.cxx (Wget).
--                Encode: the encodings. Client: `fsmwebCaller`. Decode: readers of what was
--                encoded. Served, Routed: the client and the interface that it calls. Fetched:
--                the two ways to get a page.
--   Apps         Builder: example/src/exBuilder.cxx. Server: example/src/exServer.cxx.
--                Process, Application: src/baseApplication.cxx. Database: src/mdbReader.cxx.
--                Mains: example/src/exBuilder.cc, example/src/exServer.cc, the main programs.
--                Dummy: test/dummyServer.cxx, and the test program in src/fsmweb.cxx, whose
--                methods are the same. DummyBuilder: test/dummyBuilder.cxx.
--                Wiring, Statistics, Parameters, Startup, Service, Published: proofs.
--   Tests        concrete zlib, files, JSON and systems, and the theorems at concrete inputs.
--
-- Conventions. `none` of a definition that translates code is undefined behaviour or an exception
-- there: an access beyond a block or an array, a dereference of `end()`, a remainder by zero. A
-- definition returns the state that the code would leave, in place of mutating it; a processor
-- returns the buffers too, since `compress` changes them in place, and the next processor sees
-- that. Numbers are natural numbers, with the wrap-around of `uint32_t` and `uint64_t` written
-- out. `double` is a parameter with the operations that the driver uses. An exception out of the
-- code that handles a message, where an answer is put into a content that is neither null nor an
-- object, is told by `thrown` in the message: nothing of that code runs after it, the machine does
-- not move, and what the application did before stays.
--
-- Bounds and fuel. The decimal digits of a number are produced on fuel, one more than the number,
-- which is enough since each step divides by ten (Shm/Name/Fuel). `scanMemory` runs for as many
-- rounds as a list of changes of the disk by the sources has entries; all other loops are on the
-- structure of lists. The sizes are the code's: 0x20000 bytes for a read and for a compressed
-- payload, 0x80000 for a pulled block, 512 and 256 bytes for paths, 32768 for a DIM call, 4096 for
-- the content of a query, 1900 MiB for a file.
--
-- Outside the model. The operating system, zlib, jsoncpp, libcurl, the web server library, the
-- loader of libraries, the database, DIM and `double` are parameters; what is assumed of them is
-- named in Shm/Posix, Buffer/Compress, Json, Fsm/Routes and Caller/Fetched.
-- Threads: the scanning thread and the one that calls `stop` interleave in steps (Shm/Threads), of
-- which a round is one: files that the sources add while it lasts are seen by the next.
-- `processEvents` is not started by the code. A round of a thread of the server of sources is a
-- step too. Not modelled: log output; headers of web responses; the main function in test/ljc.cxx,
-- which starts a job control; and the exceptions of jsoncpp where a content is read or converted
-- that is of another kind than the code takes it for (the model has the parameter's value there).
pub mod Base
pub mod Buffer
pub mod Shm
pub mod Writer
pub mod Json
pub mod Fsm
pub mod Source
pub mod Job
pub mod Caller
pub mod Apps
pub mod Tests
