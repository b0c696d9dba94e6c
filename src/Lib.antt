-- ===== src/Lib.antt =====
-- titanoboa: a Vyper interpreter on py-evm. This library models the parts of it that carry its own
-- logic, translated from the Python, with the properties that make them correct.
--
-- How the program is put together: a script works in an environment (boa/environment.py), which
-- keeps the registries of contracts, the default sender and the count of gas, and drives a virtual
-- machine (boa/vm/py_evm.py, on py-evm). Block attributes are patched through `VMPatcher`. In fork
-- mode the machine's account database reads what it does not have from a node (boa/vm/fork.py, over
-- boa/rpc.py), through a cache. The machine meters gas by program counter (boa/vm/gas_meters.py),
-- from which the profiler makes reports by line (boa/profiling.py). Contracts are called and their
-- logs are decoded by their ABI (boa/contracts). A network environment (boa/network.py) runs each
-- message on a fork first and then asks or sends it to a node. The IR of a Vyper contract may be
-- compiled to Python (boa/contracts/vyper/ir_executor.py). boa/util has small self-contained parts.
--
-- Which file models which code:
--   Prelude           Python's dict, bytes, integers and exceptions, and lemmas on them
--   Util/Lrudict      boa/util/lrudict.py: the class as a record, a method as a function on it
--                     that gives the answer or the exception and the object afterwards
--   Util/Eip1167      boa/util/eip1167.py
--   Util/Eip5202      boa/util/eip5202.py; keccak256 and the address codecs are arguments
--   Rpc               boa/rpc.py: `EthereumRPC.fetch_multi` from its response on,
--                     `RPC.wait_for_tx_receipt` over a clock, and the hex texts in Rpc/Hex
--   Fork/CachingRpc   boa/vm/fork.py: `CachingRPC.fetch` and `fetch_multi` over any store
--   Fork/Storage      boa/vm/fork.py: `get_storage`, `set_storage`, `record`, `discard` and
--                     `commit` of `AccountDBFork` over py-evm's database and journal
--   Vm/FastAccountDb  boa/vm/fast_accountdb.py, and `PyEVM.enable_fast_mode` of boa/vm/py_evm.py
--   Vm/GasMeters      boa/vm/gas_meters.py: `ProfilingGasMeter` over the meter that it extends
--   Vm/Patcher        boa/vm/py_evm.py: `VMPatcher`
--   Vm/Precompiles    boa/vm/py_evm.py: the registry of precompiles
--   Profiling         boa/profiling.py: `Datum`, `_SingleComputation` and `LineProfile`
--   Env               boa/environment.py: registries and contexts in Env, calls, deployments and
--                     time travel in Env/Calls; py-evm is the record `Evm`
--   Network           boa/network.py: `Capabilities`, fees, `TraceObject` and `_send_txn` in Network/Send,
--                     `execute_code` in Network/Calls, `deploy` in Network/Deploy, `anchor` in
--                     Network/Anchor; the node, the fork and the codecs are the record `World`
--   Ir                boa/contracts/vyper/ir_executor.py: the analysis of variables in Ir/Analyze, the
--                     compiler in Ir/Compile and `executor_from_ir` in Ir/Translate; Ir/Python is the
--                     generated code, Ir/Names the texts of its names, and Ir/Eval what the IR means
--   Deployments       boa/deployments.py: the rows of the table, the commands on it and its migration
--   Decoder           boa/contracts/vyper/decoder_utils.py: storage as bytes, and the decoder of values
--   Abi               boa/contracts/abi/abi_contract.py: arguments and overloads in Abi/Function,
--                     schemas and named tuples in Abi/Json; boa/contracts/event_decoder.py in
--                     Abi/Events
--   Tests             the models run at concrete inputs, with instances of every assumed interface
--
-- State is a record that each operation takes and gives back; an exception is the error of a
-- `Result`, beside the state that it leaves. A dict is its entries in insertion order. Numbers that
-- may be negative are integers over the native numbers. Loops over sequences are structural. The
-- wait for a receipt runs on fuel: one poll more than the latencies in the timeout is enough; the
-- digits of a number are written on fuel of one step more than the number. A method of the network
-- environment is a `Program` of Prelude/Program, which gives its outcome and the state it leaves.
-- The floats of the fee cap are numbers over a power of two, rounded to 53 significant bits. Names of
-- the ABI are texts in ASCII, and amounts of time travel are not negative.
--
-- What is not part of the repository is a record of operations: py-evm's machine, database and gas
-- meter, the node, SQLite, JSON, pickle and the key-value store, and eth-stdlib's ABI codec.
-- Where a property relies on how they behave, a record of laws or a hypothesis says what is relied on.
--
-- Not modelled: printing, tables and HTTP; coverage tracing; the accounts, code and prefetch of
-- fork mode; py-evm's computation class; the word cache of memory; contracts of the Vyper compiler,
-- and of the IR executor the labels, the jumps between functions and the lines of each single
-- opcode; the session ids of deployments; caches on disk; IPython, Jupyter and pytest glue.
pub mod Prelude
pub mod Util
pub mod Rpc
pub mod Fork
pub mod Vm
pub mod Profiling
pub mod Env
pub mod Network
pub mod Deployments
pub mod Abi
pub mod Decoder
pub mod Ir
pub mod Tests
