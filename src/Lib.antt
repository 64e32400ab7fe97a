-- ===== src/Lib.antt =====
-- Verification of sys-tester, a Rust library that runs a program under seccomp and ptrace against a
-- model of the system calls it is expected to make.
--
-- A test is a `TaskInfo` (src/model.rs): tasks with an order between them. The compiler
-- (src/compiler.rs) flattens it into a `CompiledSetup`: the atoms in a topological order, and the
-- graphs of the atoms after and before each atom. It uses the graph algorithms of src/graph.rs. The
-- supervisor (src/runner/supervisor.rs) keeps the atoms that may run now, looks up the atom that
-- answers a request of the program, and marks atoms as done.
--
-- Base/       numbers, lists, membership, sorting: what the other files share.
-- Graph       src/graph.rs, `DirectedGraph` and `BasicGraph`; Graph/Walk: walks and cycles.
-- Graph/Packed   `VecGraph`: adjacency lists in one vector with a range per node.
-- Graph/Topo     `topological_order`. The explicit stack, `states`, `stack_pos` and `reverse_order` are
--                the fields of `Dfs`; one round of `'recurse` is `step`. Each round opens or closes a
--                node, so the fuel `2 * num_nodes` is enough.
-- Graph/Reduce   `transitive_solved_reduction` and `transitive_reduction`.
-- Graph/Labelled `BasicOrder`; a hash map is an association list of which only the keys matter.
-- Index       src/index.rs, `Idx` and `IndexSpan`; an index type is given by its largest index.
-- Model       src/model.rs, the data and `TaskInfo::new_file`.
-- Compiler/       src/compiler.rs, `TaskInfo::compile`: Compiler/Sets has the sets of edges, Compiler/Boundary
--                 `build_boundary`, Compiler/Links the edges between tasks and the contraction of empty
--                 tasks, Compiler/Flatten the order and the graphs of the atoms, Compiler/Compile the
--                 whole. `build_boundary` runs on fuel, one more than the number of tasks, the
--                 contraction on the number of edges; a recursive call passes the function on as `Visit`.
-- Runner/Request    src/runner/request.rs, `AtomReq::new`.
-- Runner/Schedule   src/runner/supervisor.rs, `Supervisor::new`, `mark_done`, `iter_undone` and
--                   `get_task` on the fields `ready_atoms`, `wait_counts` and `info`.
-- Runner/Errno      src/runner/errno.rs, `normalize` and `from_io`.
-- Runner/Tracker    src/runner/tracker.rs: each operation takes the calls made so far and adds its own.
--                   The kernel is a field of `Host`: it answers a call in view of the calls before.
--                   `recv` runs on fuel, one for each call: `n + 1` is enough for `n` interruptions.
-- Runner/Fd         src/runner/fd.rs: Runner/Fd/Range is `RangeFileSpace` (its `mock_fd` is `raw_fd`),
--                   Runner/Fd/Mapped is `MappedFileSpace`.
-- Seccomp           build.rs: Seccomp/Groups has the groups of system calls, Seccomp/Context the operations
--                   on a filter context, Seccomp/Export `export_filter`. libseccomp is the record
--                   `Seccomp`; `verdict` is the documented meaning of the default action and of the
--                   rules it has accepted.
-- Buffer            src/buffer.rs: Buffer the page buffer, Buffer/Read the loops that read the memory of a
--                   process. `process_vm_readv` is a field of `Kernel`. Each call copies a byte at least,
--                   so the fuel, the number of bytes wanted, is enough.
--
-- A panic of the code is an answer of its own: `panic` of `Outcome`, or `none` where the code has no
-- other failure. Nodes and atoms are native numbers, which the code holds as `usize` or `u32`;
-- arithmetic that could wrap around is written with its wrap-around. Left out of
-- this: the compiler's task numbers and its atom counter, `u32` in the code, are unbounded (the graph of
-- the tasks cannot have more than 2^32 nodes, so a larger test does not compile); `VecGraph` takes any
-- number of nodes, `IndexVec::push` asserts that they fit; `add_fd_at` is without its assertion that the
-- descriptor, one of `mock_fd`, is not negative; a write to the map of an order outside of it and the
-- end of a row longer than `covered` have no effect, where the code panics (the rows and the map have a
-- place for every node).
--
-- Not modelled: `tarjan`, the processes of the supervisor, ptrace, the
-- spawn handshake, `UnionFind`, and in build.rs the files and warnings it writes. The answers of the kernel, the constants of libc and libseccomp are outside the source.
pub mod Base
pub mod Graph
pub mod Index
pub mod Model
pub mod Runner
pub mod Seccomp
pub mod Compiler
pub mod Buffer
