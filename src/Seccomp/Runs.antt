-- ===== src/Seccomp/Runs.antt =====
-- `export_filter` succeeds for every policy: no name stands in two groups.
use Prim.Native.String.{String}
use sys_tester.Base.{ℕ, true, some, List, [], ◌∷◌, ◌++◌, ◌≡◌, refl}
use sys_tester.Base.Result.{done}
use sys_tester.Seccomp.Groups.{
  process_exit, process_execution, local_signal_state, local_memory, thread_runtime,
  nondeterministic_environment, process_information, process_change, process_configuration,
  process_topology, fd_file_operations, fd_socket_operations,
}
use sys_tester.Seccomp.Context.{
  notify, ScopePolicy, Policy, file_behavior_only, strict, allow, trace, always, arg3_masked, Rule,
  Seccomp,
}
use sys_tester.Seccomp.Export.{
  new_context, notify_groups, add_runtime_groups, add_scope_groups, export_filter,
}
use sys_tester.Seccomp.Fresh.{
  registered, fresh, registered_groups, fresh_groups, rules_of, fd_rules, add_group-fresh,
  add_fd_arg0_rules-fresh, add_mmap_rules-fresh, >>=-done, register_notify_groups-fresh,
}

abbrev runtime_names : List String
runtime_names = registered nondeterministic_environment (
    registered thread_runtime (
      registered local_memory (
        registered local_signal_state (registered process_execution (registered process_exit [])))))

abbrev scope_names : ScopePolicy → List String
scope_names strict = runtime_names
scope_names file_behavior_only =
    registered process_configuration
      (registered process_change (registered process_information runtime_names))

abbrev fd_names : ScopePolicy → List String
fd_names scope = registered fd_file_operations ("mmap" ∷ scope_names scope)

abbrev socket_names : ScopePolicy → List String
socket_names scope = registered fd_socket_operations (registered process_topology (fd_names scope))

module _ (lib : Seccomp)
    (accepting : (rules : List Rule) (rule : Rule) → lib.accepts rules rule ≡ true) (mmap : ℕ)
    (known : lib.from_name "mmap" ≡ some mmap) where
  -- The rules of the groups that every policy allows.
  abbrev pub runtime_rules : List Rule
  runtime_rules =
      ((((([] ++ rules_of lib allow always process_exit)
              ++ rules_of lib allow always process_execution)
            ++ rules_of lib allow always local_signal_state)
          ++ rules_of lib allow always local_memory)
        ++ rules_of lib allow always thread_runtime)
      ++ rules_of lib allow always nondeterministic_environment

  abbrev pub scope_rules : ScopePolicy → List Rule
  scope_rules strict = runtime_rules
  scope_rules file_behavior_only =
      ((runtime_rules ++ rules_of lib allow always process_information)
        ++ rules_of lib allow always process_change)
      ++ rules_of lib allow always process_configuration

  abbrev pub filter_rules : Policy → List Rule
  filter_rules policy =
      (((scope_rules policy.scope
            ++ rules_of lib allow (arg3_masked lib.map_anonymous) ("mmap" ∷ []))
          ++ fd_rules lib policy.fd_policy fd_file_operations)
        ++ rules_of lib trace always process_topology)
      ++ fd_rules lib policy.fd_policy fd_socket_operations

  runtime_runs :
      add_runtime_groups lib (new_context notify)
      ≡ done (record { explicit = runtime_names; default_action = notify; rules = runtime_rules })
  unfolding add_runtime_groups
  runtime_runs = >>=-done _ _ _ _ (add_group-fresh lib accepting allow process_exit _ _ refl) (
      >>=-done _ _ _ _ (add_group-fresh lib accepting allow process_execution _ _ refl) (
        >>=-done _ _ _ _ (add_group-fresh lib accepting allow local_signal_state _ _ refl) (
          >>=-done _ _ _ _ (add_group-fresh lib accepting allow local_memory _ _ refl) (
            >>=-done _ _ _ _ (add_group-fresh lib accepting allow thread_runtime _ _ refl)
              (add_group-fresh lib accepting allow nondeterministic_environment _ _ refl)))))

  scope_runs :
      (scope : ScopePolicy)
      → add_scope_groups lib scope
          (record { explicit = runtime_names; default_action = notify; rules = runtime_rules })
        ≡ done (record {
          explicit = scope_names scope;
          default_action = notify;
          rules = scope_rules scope;
        })
  unfolding add_scope_groups
  scope_runs strict = refl
  scope_runs file_behavior_only =
      >>=-done _ _ _ _
        (add_group-fresh lib accepting allow process_information runtime_names runtime_rules refl)
        (>>=-done _ _ _ _ (add_group-fresh lib accepting allow process_change _ _ refl)
          (add_group-fresh lib accepting allow process_configuration _ _ refl))

  pub export_filter_runs :
      (policy : Policy)
      → (explicit : List String) × (export_filter lib policy
          ≡ done (record {
            explicit = explicit;
            default_action = notify;
            rules = filter_rules policy;
          }))
  unfolding export_filter
  export_filter_runs policy = (
    registered_groups notify_groups (socket_names policy.scope),
    >>=-done _ _ _ _ runtime_runs (
        >>=-done _ _ _ _ (scope_runs policy.scope) (
          >>=-done _ _ _ _
            (add_mmap_rules-fresh lib accepting mmap _ _ known (no_mmap policy.scope))
            (>>=-done _ _ _ _
              (add_fd_arg0_rules-fresh lib accepting policy.fd_policy fd_file_operations _ _
                (new_files policy.scope))
              (>>=-done _ _ _ _
                (add_group-fresh lib accepting trace process_topology _ _
                  (new_processes policy.scope))
                (>>=-done _ _ _ _
                  (add_fd_arg0_rules-fresh lib accepting policy.fd_policy fd_socket_operations _ _
                    (new_sockets policy.scope))
                  (register_notify_groups-fresh notify_groups _ _ (new_notified policy.scope))))))),
  )
    where
      new_notified : (scope : ScopePolicy) → fresh_groups notify_groups (socket_names scope) ≡ true
      new_notified strict = refl
      new_notified file_behavior_only = refl

      no_mmap : (scope : ScopePolicy) → fresh ("mmap" ∷ []) (scope_names scope) ≡ true
      no_mmap strict = refl
      no_mmap file_behavior_only = refl

      new_files :
          (scope : ScopePolicy) → fresh fd_file_operations ("mmap" ∷ scope_names scope) ≡ true
      new_files strict = refl
      new_files file_behavior_only = refl

      new_processes : (scope : ScopePolicy) → fresh process_topology (fd_names scope) ≡ true
      new_processes strict = refl
      new_processes file_behavior_only = refl

      new_sockets :
          (scope : ScopePolicy)
          → fresh fd_socket_operations (registered process_topology (fd_names scope)) ≡ true
      new_sockets strict = refl
      new_sockets file_behavior_only = refl
