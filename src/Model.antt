-- ===== src/Model.antt =====
-- src/model.rs: the data of a test and of its compiled form.
pub mod Files
mod Tests
use mathlib.Core.Logic.{ite}
use sys_tester.Base.{ℕ, ◌+◌, ◌-◌, ◌^◌, Option, none, some, List, ltb, if◌then◌else◌}
use sys_tester.Graph.Packed.{VecGraph}

abbrev pub u32_max : ℕ
u32_max = 2 ^ 32 - 1

-- `Text`, a static string: its bytes.
abbrev pub Text : Type 0
Text = List ℕ

-- `ErrCode`: no error, or a code that is not 0.
abbrev pub ErrCode : Type 0
ErrCode = Option ℕ

pub data MockFd : Type 0 where
  mock_fd : ℕ → MockFd

pub data IpFamily : Type 0 where
  v4 v6 : IpFamily

pub data ShutdownHow : Type 0 where
  read_half write_half both_halves : ShutdownHow

-- `std::net::SocketAddr`: the address and the port, and for IPv6 the flow information and the scope.
pub data SocketAddr : Type 0 where
  addr_v4 : (ip port : ℕ) → SocketAddr
  addr_v6 : (ip port flowinfo scope_id : ℕ) → SocketAddr

-- The backlog of `listen`, an `i32`, is its 32-bit pattern.
pub data AtomData : Type 0 where
  open_file : MockFd → Text → AtomData
  tcp_socket : IpFamily → AtomData
  bind : MockFd → SocketAddr → AtomData
  listen : MockFd → ℕ → AtomData
  connect : MockFd → SocketAddr → AtomData
  accept : MockFd → AtomData
  shutdown : MockFd → ShutdownHow → AtomData
  read : MockFd → Text → ℕ → AtomData
  write : MockFd → Text → ℕ → AtomData
  close : MockFd → AtomData
  debug_name : Text → AtomData

pub record Atom : Type 0 where
  pub content : AtomData
  pub error : ErrCode

pub data Task : Type 0 where
  atom : Atom → Task
  ordered : List ℕ → Task
  unordered : List ℕ → Task

-- `happens_before` is a map with vectors of tasks as values.
pub record TaskInfo : Type 0 where
  pub tasks : List Task
  pub happens_before : List (ℕ × List ℕ)
  pub file_count : ℕ

pub record CompiledSetup : Type 0 where
  pub atoms : List Atom
  pub file_count : ℕ
  pub after_graph : VecGraph
  pub before_graph : VecGraph

-- `TaskInfo::new_file`; `none` is the panic of `checked_add(1).expect(…)`.
pub new_file : TaskInfo → Option (MockFd × TaskInfo)
new_file info =
    if ltb info.file_count u32_max
    then some (mock_fd info.file_count, record info { file_count = info.file_count + 1 })
    else none
