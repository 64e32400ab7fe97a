-- ===== src/Seccomp/Export.antt =====
-- build.rs, `export_filter`: the rules of a policy. The optimisation level of the context and
-- the export of the compiled filter to a file are calls of libseccomp and are left out.
use sys_tester.Base.{List, [], ◌∷◌}
use sys_tester.Base.Result.{Result, done}
use Prim.Native.String.{String}
use sys_tester.Seccomp.Groups.{
  process_exit, process_execution, local_signal_state, local_memory, thread_runtime,
  nondeterministic_environment, process_information, process_change, process_configuration,
  filesystem_path_operations, fd_topology, network_topology, process_topology, supervised_execution,
  general_case_operations, poll_and_readiness, special_fd_operations, unsupported_async_io,
  fd_file_operations, fd_socket_operations,
}
use sys_tester.Seccomp.Context.{
  ScopePolicy, Policy, reserved_range, always_notify, file_behavior_only, strict, allow, trace,
  notify, ScmpAction, Seccomp, BuildError, Context, ◌>>=◌, register_notify_groups, add_group,
  add_fd_arg0_rules, add_mmap_rules,
}

abbrev pub policies : List Policy
policies =
    record {
      file_name = "x86_64_range_file_only.bpf";
      fd_policy = reserved_range;
      scope = file_behavior_only;
    }
    ∷ record { file_name = "x86_64_range_strict.bpf"; fd_policy = reserved_range; scope = strict }
    ∷ record {
      file_name = "x86_64_mapped_file_only.bpf";
      fd_policy = always_notify;
      scope = file_behavior_only;
    }
    ∷ record { file_name = "x86_64_mapped_strict.bpf"; fd_policy = always_notify; scope = strict }
    ∷ []

-- `ScmpFilterContext::new(default_action)` with the empty set `explicit`.
abbrev pub new_context : ScmpAction → Context
new_context default_action = record { explicit = []; default_action = default_action; rules = [] }

abbrev pub notify_groups : List (List String)
notify_groups =
    filesystem_path_operations ∷ fd_topology ∷ network_topology ∷ supervised_execution
    ∷ general_case_operations ∷ poll_and_readiness ∷ special_fd_operations ∷ unsupported_async_io
    ∷ []

module _ (lib : Seccomp) where
  -- The groups that are allowed in every policy.
  unfoldable pub add_runtime_groups : Context → Result Context BuildError
  add_runtime_groups c = do
    c₁ ← add_group lib allow process_exit c
    c₂ ← add_group lib allow process_execution c₁
    c₃ ← add_group lib allow local_signal_state c₂
    c₄ ← add_group lib allow local_memory c₃
    c₅ ← add_group lib allow thread_runtime c₄
    add_group lib allow nondeterministic_environment c₅

  unfoldable pub add_scope_groups : ScopePolicy → Context → Result Context BuildError
  add_scope_groups strict c = done c
  add_scope_groups file_behavior_only c = do
    c₁ ← add_group lib allow process_information c
    c₂ ← add_group lib allow process_change c₁
    add_group lib allow process_configuration c₂

  unfoldable pub export_filter : Policy → Result Context BuildError
  export_filter policy = do
    let default_action = notify
    c₁ ← add_runtime_groups (new_context default_action)
    c₂ ← add_scope_groups policy.scope c₁
    c₃ ← add_mmap_rules lib c₂
    c₄ ← add_fd_arg0_rules lib policy.fd_policy fd_file_operations c₃
    c₅ ← add_group lib trace process_topology c₄
    c₆ ← add_fd_arg0_rules lib policy.fd_policy fd_socket_operations c₅
    register_notify_groups notify_groups c₆
