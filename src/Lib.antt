-- ===== src/Lib.antt =====
-- juno-miner: a stand-alone miner that fetches block templates from a node by JSON-RPC, searches for a
-- nonce whose RandomX hash meets the target on several threads, and submits the block.
--
-- Files and what they model (paths from the repository's root):
--   Base        shared names; Lists and Bits for lists and bytes over native numbers; Results for the
--               outcome of a C++ call: a value, a thrown exception, or undefined behaviour
--   Text, Json  string literals as bytes; JsonCpp's `Json::Value` as an interface
--   Utils       src/utils.cpp: Numbers (the C library's number parsing), Endian, Hex, Varint, Target,
--               Block (`serialize_block`), Threads (`calculate_optimal_threads`) and Memory
--               (`detect_system_resources`)
--   Config      src/config.h and src/config.cpp: `parse_config`
--   Template    src/miner.cpp: `parse_block_template`, with the 140-byte header in `build_header`
--   Miner       src/miner.h and src/miner.cpp: Seed (`RandomX_SeedHeight`), Nonce (start, increment and
--               input of the hash), Workers (`worker_thread`, `start_mining`, `stop`, `get_solution`),
--               Numa (`get_vm_for_thread`, the sizes of `vms`, the parts of the dataset), with
--               `detect_numa_topology` in Numa.Topology and the CPUs of the threads in Numa.Pinning and
--               Numa.Cpus
--   Randomx     the calls that allocate, fill and release RandomX objects, as commands on a store
--   Resources   src/miner.cpp: `initialize`, `update_seed`, `set_thread_count` and the destructor, with
--               lemmas on the VMs (Vms), the nodes (Nodes) and the loops over them (Loops)
--   Rpc         src/rpc_client.cpp: `call` and the methods of the client; Wallet has `get_wallet_balance` and
--               the refresh of the statistics in src/main.cpp
--   Startup     src/main.cpp: `main` up to the mining loop, with the constructor of `Miner`
--   Mining      src/main.cpp: the main loop, from the fetching of a template to the submission of a block, and
--               in Input `get_thread_count_input`; Proven follows a template through the workers to the block
--   Zmq         src/main.cpp: `zmq_subscriber_thread` and the flag that it sets for the main loop
--   Screen      src/main.cpp: `update_log` and `add_update_message`; Layout for `visibleLength`, `drawRow`,
--               `drawCentered` and `drawLine`, and Status for `print_status_screen` and
--               `print_system_info`
--   Log         src/logger.h and src/logger.cpp: `Logger`
--
-- How the parts interact: `Startup` reads the configuration, chooses mode and number of threads with
-- `Utils.Threads`, asks the node through `Rpc`, and makes the miner of `Resources` on the topology of
-- `Miner.Numa` and the seed of `Template`; it ends in the state in which `Mining` begins. `Template` reads a
-- JSON value and uses `Utils.Hex`, `Utils.Endian` and `Utils.Target` to build a header and a target.
-- `Miner.Workers` hashes `Miner.Nonce.hash_input` of that header and tests the hash with
-- `Utils.Target.hash_meets_target`. `Resources` makes the VMs that the threads
-- hash with, as many as `Miner.Numa` hands out. `Utils.Block` serializes a solved block. `Mining` starts the
-- miner on each template, gives it a new seed at the change of an epoch, watches the network, and sends the
-- block that `Utils.Block` makes. `Zmq` runs beside it and sets the flag that `Mining.Tick.notified` reads.
--
-- Conventions. Integers of w bits are natural numbers with their wrap-around written out. A pointer is the
-- list of the bytes from it to the end of its object, and an access behind the end is `undefined`. Loops are
-- structural recursion on a counter or a list, so no fuel is needed. The threads of the miner are a step
-- relation (`Miner.Workers.Reach`) in which each access to a shared atomic is one step, and any worker may
-- take the next one. The plain members that the winner writes (`solution_header_` and its siblings) are
-- written in one step, since only the winner of the compare-exchange writes them. A pointer to a RandomX
-- object is a handle, and the store counts which handles are allocated; a call with any other is a fault. The
-- main loop runs on a list of rounds, and a round on a list of turns; a run may end at any of them, and a list
-- of any length is allowed.
--
-- Parameters: `randomx_calculate_hash` is a function from bytes to bytes, and `grants` tells which allocations
-- of RandomX objects succeed; libcurl, the JSON writer and the JSON parser are the fields of `Rpc.Node`, and
-- JsonCpp's accessors those of `Json.Json`. What the node, the user, the clock and the worker threads do in the
-- main loop is in `Mining.Round` and `Mining.Tick`, with what `Resources` gives for a change of the seed or the
-- number of threads. The lines of /proc/meminfo, what `sysinfo` writes, what
-- `read` gives and what libnuma and ZeroMQ answer are lists, options and records of the model. Doubles and
-- `int64_t` are types with operations in `Rpc.Wallet.Numbers`, and texts that are made of doubles are arguments.
--
-- Not modelled: RandomX itself, a vendored library (randomx/); in `Resources` the hashing of the workers with their
-- VMs, so that its faults are those of the miner's own calls; of src/main.cpp the signal handler, the modes of
-- the terminal, the keyboard, and when the status screen is drawn; `get_hashrate` and `format_hashrate`, which
-- compute with floating point; `set_thread_affinity`, which passes a CPU to the operating system; the texts that
-- are printed beside the boxes; the test programs, which repeat parts of the miner.
pub mod Base
pub mod Config
pub mod Json
pub mod Log
pub mod Miner
pub mod Mining
pub mod Randomx
pub mod Resources
pub mod Rpc
pub mod Screen
pub mod Startup
pub mod Template
pub mod Text
pub mod Utils
pub mod Zmq
