-- ===== src/Lib.antt =====
-- Verification of the release updaters, of the streaming benchmark client, and of the checks of a
-- running server.
--
-- The repository packages ROCm, PyTorch and vLLM for AMD machines. Its Python programs are the
-- updaters under pkgs/therock/scripts, which read AMD's release indexes and git repositories and
-- write the pins that the Nix packages use, and the benchmark tools under lib/bench. The updaters
-- run one after another and meet in the pin files; the benchmark client talks to a running server
-- and appends to a CSV file; the glm53 checks of lib/bench ask a running server the same thing
-- twice, with and without its prefix cache, and compare; pkgs/vllm-metal/serve-smoke.py starts a
-- server of its own, asks it, and stops it.
--
-- Files:
-- - Prelude and its children: texts as lists of code points with the methods of Python's str,
--   dictionaries in the order of insertion, the stable sort, orders, decimal numerals, and lists
--   over the native numbers.
-- - Json: the values of Python's json.
-- - Version: version_key, public_package_version and in_rocm_series of
--   pkgs/therock/scripts/update-python-wheels.py; Version/Parse, Order, Prerelease and Series are
--   about them. update-rocm.py repeats version_key.
-- - Wheels: the data of pkgs/therock/scripts/update-python-wheels.py; Wheels/Filename has
--   parse_distribution and list_distributions, Wheels/Choose choose_rocm_version and
--   choose_distribution, Wheels/Retry the loops of fetch_index and prefetch, Wheels/Sources the
--   readings of the pin file, Wheels/Update main.
-- - Stream: lib/bench/vllm-stream-client.py; Stream/Consume has consume_stream, with the loop over
--   the lines as a recursion over the list of them, Stream/Stats percentile, Stream/Aggregate
--   stream_one and aggregate, Stream/Report append_csv and main.
-- - Tarball: pkgs/therock/scripts/update-rocm.py, with the greedy pattern of find_version as a
--   recursion over the text; Tarball/Version is about the chosen version, Tarball/Series compares
--   its test of a series with that of the wheels.
-- - SourcePin: pkgs/therock/scripts/update-rocm-source.py, which reads the lines of git ls-remote
--   with the find_ref of Tree/Git, as the two scripts repeat these loops; SourcePin/Pin is about
--   the file that a run writes.
-- - Tree: pkgs/therock/scripts/update-source-tree.py; Tree/Git has git_rev, submodules,
--   resolve_submodule and tree_commit, Tree/Names input_name and input_url, Tree/Flake input_lines,
--   update_flake_inputs and write_tree, Tree/Graph nested_specs and build_graph, with Loops,
--   Entries and Roots about its entries, Tree/Main resolve_source, update_sources_file,
--   enabled_root_paths and main.
-- - ThirdParty: sri, cmake_vars, expand and scan_archives of
--   pkgs/therock/scripts/update-rocm-third-party.py; ThirdParty/Reuse has ls_remote_peeled_tag and
--   source_hash, ThirdParty/Main parse_esmi_pin and main; ThirdParty/Archives is about what the
--   scan records.
-- - Stack: refresh of pkgs/therock/scripts/update-rocm-stack.py, as the list of the commands that
--   it runs up to the first one that fails; Stack/Plan is about their order.
-- - Bench: the checks of lib/bench. Bench/Script is their language: a function from the server's
--   state to a value and a state, or to the reason why the script stopped. Bench/Server is the
--   interface of the server and of floats, and the wait for its health; Bench/Numbers the largest
--   distance of two lists. Bench/Boundaries is glm53-cache-boundaries.py, with Agreement about what
--   a pass says and Complete about the servers that pass; Bench/Branches is
--   glm53-cache-branches.py, Bench/Consistency glm53-consistency.py, with First about the chosen
--   tokens and Verdict about its exit code, Bench/ContextCache glm53-context-cache.py, with Fit
--   about its search, Markers about its rows and Phases about its two answers, and Bench/ApiCheck
--   glm53-api-check.py, with Fragments, Gathered and Streamed about the streamed tool calls and
--   Conversation its main.
-- - Smoke: pkgs/vllm-metal/serve-smoke.py; Smoke/Greedy is about its reference, Ready about the
--   wait, Stopped about the finally clause, Verified about the verdict.
-- - Tests: the definitions on concrete inputs.
--
-- Correspondence. A function of the source is the function of the same name here. A loop is a
-- recursion over the list that it runs through. An exception is a value: an Option where nothing
-- tells the exceptions apart, Result, Step, Outcome, Ending or Exit where the source does. State
-- that a loop changes is an argument and a result, as the record Loop for consume_stream. A set is
-- the list of its members, and the order in which Python iterates over it is a parameter that lists
-- the same members.
--
-- Parameters. What is no code of the repository is an argument: the pages and the answers of nix by
-- address and try, what git prints for the checkout of a source, urllib.parse, shlex, hashlib,
-- json.loads and json.dumps of decoded values, str and int of decoded values, and the readings of
-- the clock by their number. A server, a process and an operating system are records of functions
-- on a state of their own, and a request that fails is a value. Theorems that need something of
-- them say so: that a clock does not go back, that an iteration lists the members.
--
-- Choices. Texts are ASCII where the source classifies characters, as in file names, versions and
-- git refs. Times are whole ticks of the clock and a quotient is an exact fraction, where the
-- source has floats. Numbers in JSON are non-negative integers. Floats of the checks of a server
-- are an interface with an order, a distance and the values that are not NaN. A file of
-- update-source-tree.py that cannot be opened for writing stays as it was and its write is an
-- exception; one that opens is written whole. Fuel occurs in the two loops of the search of
-- glm53-context-cache.py, where the number of doublings until a prompt exceeds the target is enough
-- for the first and the upper end for the second, in the wait of serve-smoke.py, where 182 rounds
-- are enough, in the printing of a decimal numeral, which gets one more than the number, and in
-- words, which splits at most as often as the text has characters; none runs out.
--
-- Not modelled: argparse, printing, threads other than by the order in which requests end, the
-- checks of GPU kernels under lib/bench, the Nix expressions, and run and fetch_repo of
-- update-source-tree.py.
pub mod Prelude
pub mod Json
pub mod Version
pub mod Wheels
pub mod Stream
pub mod Tree
pub mod Tarball
pub mod SourcePin
pub mod ThirdParty
pub mod Stack
pub mod Bench
pub mod Smoke
mod Tests
