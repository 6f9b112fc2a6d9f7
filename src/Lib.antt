-- ===== src/Lib.antt =====
-- A verification library of the ROCm Validation Suite: its launcher, the shared code below its
-- test modules, the memory test mem and the monitors gm and pesm.
--
-- The launcher rvs reads its command line into a map of options, loads test modules, and runs the
-- actions of a configuration file. An action reads its keys through `rvs::actionbase`, selects
-- its GPUs from the table `rvs::gpulist`, and reports through the logger, which writes rows of
-- text and a log of JSON records.
--
-- Files:
-- - Prelude: the shared names, Boolean tests, lists over native numbers, texts (`std::string` as
--   the list of its bytes) and maps (`std::map` from texts, order of iteration left out).
-- - Cli: rvs/src/rvscli.cpp. Cli/Grammar is `init_grammar`, Cli/Loop the state and `parse`;
--   Cli/Reads says what command lines mean, Cli/OnePass relates the loop to one pass, Cli/Correct
--   and Cli/Errors hold the theorems. `parse` has fuel for three rounds more than arguments.
-- - Util: src/rvs_util.cpp and include/rvs_util.h. Util/Split is `str_split`, with fuel for each
--   byte and one more; Util/Number the number parsers, at any width of the integer type.
-- - Gpu: Gpu/Table is `rvs::gpulist` of src/gpu_util.cpp with its look-ups, Gpu/Initialize fills it,
--   Gpu/Filled says when its vectors fit; Gpu/Select is `fetch_gpu_list` of src/rvs_util.cpp. The
--   nodes of /sys and the answers of SMI and HIP are parameters.
-- - Action: src/rvsactionbase.cpp and include/rvsactionbase.h. Action/Property has the getters,
--   Action/Keys `get_all_common_config_keys`.
-- - Log: Log/Node is the nodes of JSON records, src/rvslognode*.cpp and src/rvsminnode.cpp;
--   Log/Logger the logger of src/rvsliblogger.cpp, over a parameter for the files and the clock.
-- - Module: rvs/src/rvsmodule.cpp. Module/Interfaces is `init_interfaces`, Module/Load the maps of
--   `rvs::module` and its requests; Module/Outcome, Module/Loaded, Module/Requests and
--   Module/Config hold the theorems. dlopen, dlsym and the libraries' answers are parameters.
-- - Exec: `rvs::exec::run` of rvs/src/rvsexec.cpp. Exec/Conf finds the configuration file, Exec/Run
--   is the rest; Exec/Chosen, Exec/Status, Exec/Zero and Exec/Closed hold the theorems. `do_yaml`,
--   `stoi`, the readable files and the GPU's name are parameters.
-- - Exec/Actions: `do_yaml` of rvs/src/rvsexec_do_yaml.cpp, the loop over the actions of a file, on
--   the module loader of Module/Load. Exec/Properties is `do_yaml_properties`, Exec/Selection the
--   option -s; Exec/Objects, Exec/Reported, Exec/Ran, Exec/Indifferent and Exec/Duration hold the
--   theorems, and Exec/Launched puts `run` and `do_yaml` together. What yaml-cpp reads is data,
--   and what an action answers is a parameter.
-- - Mem: mem.so/src/rvs_memtest.cpp and rvs_memworker.cpp. Mem/Device is the memory of a GPU, a step
--   of a thread and the interleavings of a launch, Mem/Kernels and Mem/Walk the kernels, Mem/Host
--   the first ten tests, which launch them (the eleventh, `test10`, is not modelled), Mem/Worker
--   the allocation of the blocks; Mem/Silent and Mem/Cycle hold the theorems, Mem/Sequential one
--   order of the threads. BLOCKSIZE is a parameter.
-- - Api: rvs/src/rvs_interface.cpp. Api/State is the table of sessions, Api/Requests the functions
--   for applications, Api/RunOpt the executor `run(opt)` of rvs/src/rvsexec.cpp with its callbacks,
--   those that modules make while `module::terminate` ends them as a parameter; Api/Invariant,
--   Api/Moves, Api/Errors and Api/Completed hold the theorems. A lock makes each function one step.
--   RVS_MAX_SESSIONS is 1, and no proof depends on it.
-- - Pci: src/pci_caps.cpp, over the capabilities and registers that libpci gives; Pci/Caps has the
--   link speeds and the power state, Pci/Budget the power budget, Pci/Fields the other fields,
--   Pci/Serial a theorem on serial numbers.
-- - Gm: gm.so/src/worker.cpp, gm.so/src/action.cpp and src/rsmi_util.cpp. Gm/Worker is the thread that
--   watches clocks, temperature, fan and power, over any sequence of answers of SMI, Gm/Report what it
--   logs at its start and when it is stopped; Gm/Config reads the keys, Gm/Handles finds the handles of
--   devices, Gm/Action is `gm_action::run`. Gm/Counts, Gm/Rounds, Gm/Reported, Gm/Blind,
--   Gm/Bounds, Gm/Checks, Gm/Keys, Gm/Results and Gm/First hold the theorems.
-- - Pesm: pesm.so/src/worker.cpp and pesm.so/src/action.cpp. Pesm/Worker is the thread that watches
--   links and power states, any sequence of scans after another, Pesm/Numbered its maps, Pesm/Action
--   the action that starts and stops it; Pesm/Channel, Pesm/Changes and Pesm/Started hold the theorems.
--
-- The tests and the instances of the theorems stand in the modules named Examples and in
-- Exec/Sessions and Gm/Scenes.
--
-- Not modelled: the test modules other than mem, gm and pesm, `test10` of mem, the tables that the
-- executor prints, the reading of /sys, and the calls of HIP, HSA, BLAS, SMI, libpci and yaml-cpp. Negative log
-- levels and texts of 2^31 bytes or more are left out, and so is the cut of a message to the 1024
-- bytes of its buffer. Threads are left out: each operation of the logger is one step, as its locks
-- make it.
mod Prelude
pub mod Cli
pub mod Util
pub mod Gpu
pub mod Action
pub mod Log
pub mod Module
pub mod Exec
pub mod Mem
pub mod Pci
pub mod Pesm
pub mod Api
pub mod Gm
