-- ===== src/Runner/Request.antt =====
-- src/runner/request.rs: the request that an atom answers.
use sys_tester.Base.{ℕ, Option, none, some, ℕ_discrete}
use sys_tester.Model.{
  Text, MockFd, IpFamily, ShutdownHow, SocketAddr, AtomData, open_file, tcp_socket, bind, listen,
  connect, accept, shutdown, read, write, close, debug_name,
}

pub data AtomReq : Type 0 where
  open_req : Text → AtomReq
  tcp_socket_req : IpFamily → AtomReq
  bind_req : MockFd → SocketAddr → AtomReq
  listen_req : MockFd → ℕ → AtomReq
  connect_req : MockFd → SocketAddr → AtomReq
  accept_req : MockFd → AtomReq
  shutdown_req : MockFd → ShutdownHow → AtomReq
  read_req : MockFd → ℕ → AtomReq
  write_req : MockFd → Text → AtomReq
  close_req : MockFd → AtomReq

-- `AtomReq::new`
unfoldable pub request : AtomData → Option AtomReq
request (open_file file path) = some (open_req path)
request (tcp_socket family) = some (tcp_socket_req family)
request (bind socket address) = some (bind_req socket address)
request (listen socket backlog) = some (listen_req socket backlog)
request (connect socket address) = some (connect_req socket address)
request (accept socket) = some (accept_req socket)
request (shutdown socket how) = some (shutdown_req socket how)
request (read file expected size) = some (read_req file size)
request (write file text size) = some (write_req file text)
request (close file) = some (close_req file)
request (debug_name name) = none

-- The derived `Eq`, on which the map of ready atoms rests.
unfoldable pub AtomReq-discrete : Discrete AtomReq
AtomReq-discrete = hlevel ℕ_discrete
