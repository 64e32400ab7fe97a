-- ===== src/Seccomp/Groups.antt =====
-- build.rs, the groups of system calls by name.
use Prim.Native.String.{String}
use sys_tester.Base.{List, [], ◌∷◌}

abbrev pub process_exit : List String
process_exit = "exit" ∷ "exit_group" ∷ []

abbrev pub process_execution : List String
process_execution = "execve" ∷ []

abbrev pub local_signal_state : List String
local_signal_state =
    "rt_sigaction" ∷ "rt_sigprocmask" ∷ "rt_sigreturn" ∷ "sigaltstack" ∷ "restart_syscall" ∷ []

abbrev pub local_memory : List String
local_memory = "brk" ∷ "munmap" ∷ "mprotect" ∷ "mremap" ∷ "madvise" ∷ []

abbrev pub thread_runtime : List String
thread_runtime =
    "arch_prctl" ∷ "set_tid_address" ∷ "set_robust_list" ∷ "get_robust_list" ∷ "rseq" ∷ "futex"
    ∷ "futex_waitv" ∷ "sched_yield" ∷ []

abbrev pub nondeterministic_environment : List String
nondeterministic_environment =
    "clock_gettime" ∷ "clock_getres" ∷ "gettimeofday" ∷ "time" ∷ "times" ∷ "nanosleep"
    ∷ "clock_nanosleep" ∷ "getrandom" ∷ "uname" ∷ "sysinfo" ∷ "getrlimit" ∷ "getrusage" ∷ []

abbrev pub process_information : List String
process_information =
    "getpid" ∷ "getppid" ∷ "gettid" ∷ "getuid" ∷ "geteuid" ∷ "getgid" ∷ "getegid" ∷ "getresuid"
    ∷ "getresgid" ∷ "getgroups" ∷ "getpgrp" ∷ "getpgid" ∷ "getsid" ∷ []

abbrev pub process_change : List String
process_change =
    "kill" ∷ "tkill" ∷ "tgkill" ∷ "rt_sigqueueinfo" ∷ "rt_tgsigqueueinfo" ∷ "pidfd_send_signal"
    ∷ "setpgid" ∷ "setsid" ∷ "setpriority" ∷ "sched_setaffinity" ∷ "sched_setscheduler"
    ∷ "sched_setparam" ∷ "sched_setattr" ∷ []

abbrev pub process_configuration : List String
process_configuration = "prctl" ∷ "personality" ∷ []

abbrev pub filesystem_path_operations : List String
filesystem_path_operations =
    "open" ∷ "openat" ∷ "openat2" ∷ "creat" ∷ "unlink" ∷ "unlinkat" ∷ "rename" ∷ "renameat"
    ∷ "renameat2" ∷ "mkdir" ∷ "mkdirat" ∷ "rmdir" ∷ "chdir" ∷ "fchdir" ∷ "getcwd" ∷ "link"
    ∷ "linkat" ∷ "symlink" ∷ "symlinkat" ∷ "readlink" ∷ "readlinkat" ∷ "stat" ∷ "lstat"
    ∷ "newfstatat" ∷ "statx" ∷ "access" ∷ "faccessat" ∷ "faccessat2" ∷ "chmod" ∷ "fchmodat"
    ∷ "chown" ∷ "lchown" ∷ "fchownat" ∷ "truncate" ∷ "utime" ∷ "utimes" ∷ "utimensat" ∷ []

abbrev pub fd_topology : List String
fd_topology =
    "dup" ∷ "dup2" ∷ "dup3" ∷ "fcntl" ∷ "pipe" ∷ "pipe2" ∷ "close_range" ∷ "eventfd" ∷ "eventfd2"
    ∷ "signalfd" ∷ "signalfd4" ∷ "timerfd_create" ∷ "inotify_init" ∷ "inotify_init1"
    ∷ "memfd_create" ∷ "userfaultfd" ∷ "pidfd_open" ∷ "pidfd_getfd" ∷ []

abbrev pub network_topology : List String
network_topology =
    "socket" ∷ "socketpair" ∷ "accept" ∷ "accept4" ∷ "connect" ∷ "bind" ∷ "listen" ∷ []

abbrev pub process_topology : List String
process_topology = "fork" ∷ "vfork" ∷ "clone" ∷ "clone3" ∷ []

abbrev pub supervised_execution : List String
supervised_execution = "execveat" ∷ []

abbrev pub general_case_operations : List String
general_case_operations = "ioctl" ∷ "prlimit64" ∷ []

abbrev pub poll_and_readiness : List String
poll_and_readiness =
    "poll" ∷ "ppoll" ∷ "select" ∷ "pselect6" ∷ "epoll_create" ∷ "epoll_create1" ∷ "epoll_ctl"
    ∷ "epoll_wait" ∷ "epoll_pwait" ∷ "epoll_pwait2" ∷ []

abbrev pub special_fd_operations : List String
special_fd_operations =
    "sendfile" ∷ "splice" ∷ "tee" ∷ "vmsplice" ∷ "copy_file_range" ∷ "inotify_add_watch"
    ∷ "inotify_rm_watch" ∷ "timerfd_settime" ∷ "timerfd_gettime" ∷ "fstat" ∷ "fstatfs" ∷ "getdents"
    ∷ "getdents64" ∷ []

abbrev pub unsupported_async_io : List String
unsupported_async_io =
    "io_uring_setup" ∷ "io_uring_enter" ∷ "io_uring_register" ∷ "io_setup" ∷ "io_destroy"
    ∷ "io_submit" ∷ "io_cancel" ∷ "io_getevents" ∷ "io_pgetevents" ∷ []

abbrev pub fd_file_operations : List String
fd_file_operations =
    "read" ∷ "write" ∷ "readv" ∷ "writev" ∷ "pread64" ∷ "pwrite64" ∷ "preadv" ∷ "pwritev"
    ∷ "preadv2" ∷ "pwritev2" ∷ "lseek" ∷ "fsync" ∷ "fdatasync" ∷ "ftruncate" ∷ "close" ∷ []

abbrev pub fd_socket_operations : List String
fd_socket_operations =
    "sendto" ∷ "recvfrom" ∷ "sendmsg" ∷ "recvmsg" ∷ "sendmmsg" ∷ "recvmmsg" ∷ "shutdown"
    ∷ "getsockname" ∷ "getpeername" ∷ "getsockopt" ∷ "setsockopt" ∷ []
