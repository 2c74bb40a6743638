-- ===== src/Lib.antt =====
-- A model of the core of a user-space Windows emulator: the bookkeeping of guest memory and the system
-- calls on it, the tables of the objects that guest handles name, the waits of guest threads for them, the
-- dispatch of system calls, the mapping of modules, the registry, and the snapshots of this state.
--
-- The program. A backend executes guest code and stops at system calls. The system calls work on a
-- process context, whose parts are the memory manager (src/emulator/memory_manager.cpp), which knows
-- what guest memory is reserved and committed and tells the backend to map, unmap and protect it, and
-- the handle stores (src/windows-emulator/handles.hpp), one for each kind of object. A thread
-- that waits for objects runs again when the scheduler finds it ready.
--
-- Memory. `Memory.Address` is src/emulator/address_utils.hpp. `Memory.Region` has the committed
-- regions, `split_regions` and `merge_regions`. `Memory.Reserved` has the reserved regions with
-- `find_reserved_region` and `overlaps_reserved_region`; `Memory.Manager` has `protect_memory`,
-- `allocate_mmio`, `allocate_memory`, `commit_memory`, `decommit_memory` and `release_memory`;
-- `Memory.Query` has `find_free_allocation_base` and `get_region_info`. A `std::map` is a list of
-- entries in the order of the keys (`Common.Maps`). An operation is a function from the map of
-- reserved regions to its outcome: the value it returns, the new map, and the calls of the pure
-- virtual functions of the class in their order. A C++ exception is `thrown`. Addresses and sizes are
-- 64-bit: `add64` and `sub64` wrap around.
-- The abstract view of the map is `mapped_at`, the permission at an address, and `is_reserved`. What
-- the calls do to the mapping of one address is `replay` (`Memory.Reserved.Valid`): the backend is in
-- step with the map when replaying the calls of an operation gives the new `mapped_at`. `IsValid`
-- says that the regions of both levels are not empty, are in order, do not meet, lie inside their
-- reservation, and end below 2 ^ 64.
-- `Memory.Spans`, `Memory.SpansErase` and `Memory.SpansInsert` have the lemmas on maps of intervals
-- that both levels share.
--
-- Handles. `Handles.Value` has the bit fields of a handle and the 64-bit word; `Handles.Store` has the
-- class template `handle_store`, its template parameters in the record `StoreKind`.
--
-- Objects. `Objects` is the events, mutants and the wait state of a thread
-- (src/windows-emulator/process_context.hpp), and the test whether a thread may run, `is_thread_ready`,
-- with `is_object_signaled` and `mark_as_ready` (src/windows-emulator/windows_emulator.cpp). The test
-- changes the objects, so it takes and returns the process, here the three stores that it reads. The
-- clock is an argument: a call reads it once at most. `Syscalls` is the handlers of NtSetEvent,
-- NtReleaseMutant, NtWaitForSingleObject and NtWaitForMultipleObjects (src/windows-emulator/syscalls.cpp);
-- what a handler reads from guest memory is an argument, what it writes there is part of the result.
--
-- Scheduler. `Scheduler` is the switch between threads and the choice of the next one
-- (src/windows-emulator/windows_emulator.cpp), over `Objects`. The first registers of a new thread, the write of a
-- register and the work of the devices are parameters. `Syscalls.Threads` is the handlers of NtTerminateThread,
-- NtDelayExecution, NtAlertThreadByThreadId and NtWaitForAlertByThreadId.
--
-- Modules. `Modules` has the record of a mapped module, and the lookups by an address and by the
-- name of an export (src/windows-emulator/module). `Modules.Mapping` is `map_module_from_data`
-- (src/windows-emulator/module/module_mapping.cpp) on top of the memory manager: a step takes the regions and the
-- guest memory and gives them back with what it returns or throws, so that what a failed mapping leaves
-- behind can be said. `Modules.Accessor` is the checked reads and writes of src/common/utils/buffer_accessor.hpp,
-- `Modules.Headers` the fields of the PE headers at their offsets (src/common/platform/win_pefile.hpp),
-- `Modules.Exports` and `Modules.Relocations` the export table and the relocations of an image.
-- `Modules.Manager` maps a file once for each canonical path and unmaps it. The backend is a parameter
-- (`Backend`), and so are the functions of std::filesystem, the read of a file, and the size that the
-- build has for `IMAGE_BASE_RELOCATION` (`os_windows`).
--
-- Registry. `Registry.File`, `Registry.Blocks` and `Registry.Hive` are the reader of hive files
-- (src/windows-emulator/registry/hive_parser.cpp): a key reads its values and sub keys when it is
-- first asked, and keeps them, so each question takes and returns the key. `Registry.Listing` is the
-- reading that keeps nothing, which `Registry.Parsing` and `Registry.Refines` compare with it;
-- `Registry.Stopped` is what a key holds after an exception. `Registry.Manager` is the path mapping
-- and the lookups of src/windows-emulator/registry/registry_manager.cpp. The functions of
-- std::filesystem::path on the elements of a path, as Windows splits it, are a parameter; an `int` of
-- the file is its bit pattern, and wide and narrow characters are the same numbers.
--
-- Dispatcher. `Dispatcher` reads the numbers of the system calls off the stubs of the libraries
-- (src/windows-emulator/syscall_utils.hpp) and calls the handler of a number
-- (src/windows-emulator/syscall_dispatcher.cpp). The state that a handler works on, and the table
-- that lists the handlers, are parameters; what is only logged is left out, apart from the read
-- of guest memory for it.
--
-- System calls on memory. `Syscalls.Memory` and `Syscalls.Query` are the handlers of
-- NtProtectVirtualMemory, NtAllocateVirtualMemory, NtFreeVirtualMemory and NtQueryVirtualMemory
-- on top of `Memory` and `Modules`; `Memory.Protection` is src/windows-emulator/memory_utils.hpp.
-- An exception that leaves a handler is a value of its reply, so that what was written before it
-- is not lost. `Memory.Manager.Steps` has sequences of operations of the memory manager as a step
-- relation on the regions and on what the backend has mapped.
--
-- Serialization. `Serialization.Buffer` has the two buffers of src/emulator/serialization.hpp on
-- lists of bytes, with the check words that a debug build writes behind every object (`debug`);
-- `Containers` has optional values, vectors, strings and maps over any type that can be written
-- and read, the interface `Serializable` of `Codec`, whose promise is `RoundTrips`. Numbers are
-- copied byte by byte, the lowest first. Reading into an object that exists is reading a new one.
--
-- Snapshots. `Snapshot.Objects` and `Snapshot.Threads` are the members serialize and deserialize
-- of the objects of src/windows-emulator/process_context.hpp, of registry_key, of
-- emulator_allocator and of handle_store; `Snapshot.MemoryState` is serialize_memory_state and
-- deserialize_memory_state. The memory of the guest is a parameter, a function that gives the
-- bytes at an address.
--
-- Allocator. `Allocator` is emulator_allocator (src/windows-emulator/emulator_utils.hpp): it
-- hands out the pieces of a block of guest memory; what it writes there is part of its result.
--
-- Fuzzing. `Fuzzing` is the mutation of inputs and the list of the best ones
-- (src/fuzzing-engine/input_generator.cpp). The random numbers that a call draws are arguments.
--
-- Fuel. `split_loop` visits the entries that it puts in, so its rounds are the number of entries and
-- of split points; each split point lies strictly inside one region at most, and cutting takes it out,
-- so no more rounds are needed. `free_index_loop` has one round more than the store has entries, so
-- that it meets a free index. `read_times` and `read_entries` have one round for each element that the
-- count in the buffer announces. `as_string` has a round for each byte of the buffer and one more. The
-- loop over the blocks of relocations has two rounds more than the image has bytes: each block that
-- is not the last one moves the offset by more than the size of its header, and a block behind the image
-- ends the loop; this holds for images below 4 GB.
--
-- Not modelled. Assertions, which a release build drops; the callbacks of an MMIO region, which are
-- code of the caller; the factories of a deserializer, and the exceptions where the host has no memory
-- for a vector; the lookup of an object by its address in a store. The other system calls, the stores
-- of files, devices, semaphores, sections and ports with NtClose over them, and the shared data page
-- are left out, as most of them copy structures in and out of guest memory. Of the modules and the
-- registry, the snapshot of the two managers, the lookup of a module by its name, and what is reserved
-- in a vector ahead of a loop are left out. The network, files and windows of the host, the unicorn
-- library, the debugger server and the generated reflection tables are outside the model.
pub mod Common
pub mod Memory
pub mod Handles
pub mod Allocator
pub mod Objects
pub mod Modules
pub mod Dispatcher
pub mod Registry
pub mod Scheduler
pub mod Syscalls
pub mod Serialization
pub mod Snapshot
pub mod Fuzzing
mod Tests
