-- ===== src/Seccomp/Correct.antt =====
-- What the filters decide, as a description of the groups, and what follows for mock descriptors.
use Prim.Native.String.{String}
use Prim.Native.Nat.{bit_and}
use sys_tester.Base.{
  ℕ, Bool, true, false, ◌&&◌, ◌||◌, some, List, [], ◌∷◌, ◌++◌, ◌≡◌, ◌≢◌, refl, ◌∙◌, ap, ltb, ◌==◌,
  if◌then◌else◌,
}
use sys_tester.Base.Result.{done}
use sys_tester.Seccomp.Groups.{
  process_exit, process_execution, local_signal_state, local_memory, thread_runtime,
  nondeterministic_environment, process_information, process_change, process_configuration,
  process_topology, fd_file_operations, fd_socket_operations,
}
use sys_tester.Seccomp.Context.{
  FdPolicy, reserved_range, always_notify, ScopePolicy, Policy, file_behavior_only, strict,
  ScmpAction, allow, trace, notify, Compare, always, arg0_below, arg3_masked, Rule, Seccomp,
  Context, contains, reserved_base,
}
use sys_tester.Seccomp.Export.{export_filter}
use sys_tester.Seccomp.Fresh.{rules_of, fd_rules}
use sys_tester.Seccomp.Runs.{runtime_rules, scope_rules, filter_rules, export_filter_runs}
use sys_tester.Seccomp.Verdict.{
  verdict, decide, decide-append, decide-rules_of, decide-rules_of_nameless, holds, decide-append_5,
}

-- What libseccomp is taken to do: it accepts the rules, knows `mmap`, and gives different names
-- different numbers.
pub record IsWorking (lib : Seccomp) : Type 0 where
  pub accepting : (rules : List Rule) (rule : Rule) → lib.accepts rules rule ≡ true
  pub mmap : ℕ
  pub known : lib.from_name "mmap" ≡ some mmap
  pub apart : (n m : String) (s : ℕ) → lib.from_name n ≡ some s → lib.from_name m ≡ some s → n ≡ m

abbrev pub always_allowed : List (List String)
always_allowed =
    process_exit ∷ process_execution ∷ local_signal_state ∷ local_memory ∷ thread_runtime
    ∷ nondeterministic_environment ∷ []

abbrev pub allowed_for_files : List (List String)
allowed_for_files = process_information ∷ process_change ∷ process_configuration ∷ []

abbrev pub in_groups : (List String → Bool) → List (List String) → Bool
in_groups member [] = false
in_groups member (group ∷ groups) = member group || in_groups member groups

abbrev pub only_files : ScopePolicy → Bool
only_files strict = false
only_files file_behavior_only = true

abbrev pub by_range : FdPolicy → Bool
by_range always_notify = false
by_range reserved_range = true

-- The policy of build.rs in words of its groups; `member` tells which of them have the system call.
abbrev pub classify : ℕ → Policy → (List String → Bool) → ℕ → ℕ → ScmpAction
classify mask policy member arg0 arg3 =
    if in_groups member always_allowed
    then allow
    else if only_files policy.scope && in_groups member allowed_for_files
    then allow
    else if member ("mmap" ∷ []) && (bit_and arg3 mask == mask)
    then allow
    else if by_range policy.fd_policy && member fd_file_operations && ltb arg0 reserved_base
    then allow
    else if member process_topology
    then trace
    else if by_range policy.fd_policy && member fd_socket_operations && ltb arg0 reserved_base
    then allow
    else notify

any_of_6 :
    (a b c d e f : Bool) (x y : ScmpAction)
    → (if a
        then x
        else if b
        then x
        else if c
        then x
        else if d
        then x
        else if e
        then x
        else if f
        then x
        else y)
      ≡ (if a || (b || (c || (d || (e || (f || false))))) then x else y)
any_of_6 true b c d e f x y = refl
any_of_6 false true c d e f x y = refl
any_of_6 false false true d e f x y = refl
any_of_6 false false false true e f x y = refl
any_of_6 false false false false true f x y = refl
any_of_6 false false false false false true x y = refl
any_of_6 false false false false false false x y = refl

any_of_3 :
    (a b c : Bool) (x y : ScmpAction)
    → (if a then x else if b then x else if c then x else y)
      ≡ (if a || (b || (c || false)) then x else y)
any_of_3 true b c x y = refl
any_of_3 false true c x y = refl
any_of_3 false false true x y = refl
any_of_3 false false false x y = refl

if-and_true : (a : Bool) (x y : ScmpAction) → (if a && true then x else y) ≡ (if a then x else y)
if-and_true true x y = refl
if-and_true false x y = refl

-- The groups that have the system call, and what a group then decides.
module _ (lib : Seccomp) (works : IsWorking lib) (syscall arg0 arg3 : ℕ)
    (member : List String → Bool)
    (decides : (action fallback : ScmpAction) (compare : Compare) (names : List String)
      → decide (rules_of lib action compare names) fallback syscall arg0 arg3
        ≡ (if member names && holds compare arg0 arg3 then action else fallback)) where
  group_lem :
      (action fallback : ScmpAction) (names : List String)
      → decide (rules_of lib action always names) fallback syscall arg0 arg3
        ≡ (if member names then action else fallback)
  group_lem action fallback names =
      decides action fallback always names ∙ if-and_true (member names) action fallback

  fd_lem :
      (policy : FdPolicy) (fallback : ScmpAction) (names : List String)
      → decide (fd_rules lib policy names) fallback syscall arg0 arg3
        ≡ (if by_range policy && member names && ltb arg0 reserved_base then allow else fallback)
  fd_lem always_notify fallback names = refl
  fd_lem reserved_range fallback names = decides allow fallback (arg0_below reserved_base) names

  -- Rules and then a group.
  snoc_lem :
      (rules : List Rule) (names : List String) (fallback : ScmpAction)
      → decide (rules ++ rules_of lib allow always names) fallback syscall arg0 arg3
        ≡ decide rules (if member names then allow else fallback) syscall arg0 arg3
  snoc_lem rules names fallback =
      decide-append rules (rules_of lib allow always names) fallback syscall arg0 arg3
      ∙ ap (λ d. decide rules d syscall arg0 arg3) (group_lem allow fallback names)

  runtime_lem :
      (fallback : ScmpAction)
      → decide (runtime_rules lib works.accepting works.mmap works.known) fallback syscall arg0 arg3
        ≡ (if in_groups member always_allowed then allow else fallback)
  runtime_lem fallback =
      snoc_lem
        ((((([] ++ group process_exit) ++ group process_execution) ++ group local_signal_state)
            ++ group local_memory)
          ++ group thread_runtime)
        nondeterministic_environment fallback
      ∙ snoc_lem
          (((([] ++ group process_exit) ++ group process_execution) ++ group local_signal_state)
            ++ group local_memory)
          thread_runtime _
      ∙ snoc_lem
          ((([] ++ group process_exit) ++ group process_execution) ++ group local_signal_state)
          local_memory _
      ∙ snoc_lem (([] ++ group process_exit) ++ group process_execution) local_signal_state _
      ∙ snoc_lem ([] ++ group process_exit) process_execution _
      ∙ snoc_lem [] process_exit _
      ∙ any_of_6 (member process_exit) (member process_execution) (member local_signal_state)
          (member local_memory) (member thread_runtime) (member nondeterministic_environment) allow
          fallback
    where
      group : List String → List Rule
      group names = rules_of lib allow always names

  scope_lem :
      (scope : ScopePolicy) (fallback : ScmpAction)
      → decide
          (scope_rules lib works.accepting works.mmap works.known scope)
          fallback
          syscall
          arg0
          arg3
        ≡ (if in_groups member always_allowed
            then allow
            else if only_files scope && in_groups member allowed_for_files
            then allow
            else fallback)
  scope_lem strict fallback = runtime_lem fallback
  scope_lem file_behavior_only fallback =
      snoc_lem
        ((runtime ++ rules_of lib allow always process_information)
          ++ rules_of lib allow always process_change)
        process_configuration fallback
      ∙ snoc_lem (runtime ++ rules_of lib allow always process_information) process_change _
      ∙ snoc_lem runtime process_information _
      ∙ runtime_lem _
      ∙ ap (λ d. if in_groups member always_allowed then allow else d)
          (any_of_3 (member process_information) (member process_change)
            (member process_configuration) allow fallback)
    where
      runtime : List Rule
      runtime = runtime_rules lib works.accepting works.mmap works.known

  filter_lem :
      (policy : Policy)
      → decide
          (filter_rules lib works.accepting works.mmap works.known policy)
          notify
          syscall
          arg0
          arg3
        ≡ classify lib.map_anonymous policy member arg0 arg3
  filter_lem policy =
      decide-append_5 (scope_rules lib works.accepting works.mmap works.known policy.scope)
        (rules_of lib allow (arg3_masked lib.map_anonymous) ("mmap" ∷ []))
        (fd_rules lib policy.fd_policy fd_file_operations)
        (rules_of lib trace always process_topology)
        (fd_rules lib policy.fd_policy fd_socket_operations) notify syscall arg0 arg3
      ∙ scope_lem policy.scope _
      ∙ ap
          (λ d.
            if in_groups member always_allowed
            then allow
            else if only_files policy.scope && in_groups member allowed_for_files
            then allow
            else d)
          (decides allow _ (arg3_masked lib.map_anonymous) ("mmap" ∷ [])
            ∙ ap
                (λ d.
                  if member ("mmap" ∷ []) && (bit_and arg3 lib.map_anonymous == lib.map_anonymous)
                  then allow
                  else d)
                (fd_lem policy.fd_policy _ fd_file_operations
                  ∙ ap
                      (λ d.
                        if by_range policy.fd_policy
                          && member fd_file_operations
                          && ltb arg0 reserved_base
                        then allow
                        else d)
                      (group_lem trace _ process_topology
                        ∙ ap (λ d. if member process_topology then trace else d)
                            (fd_lem policy.fd_policy notify fd_socket_operations))))

no_group :
    (mask arg0 arg3 : ℕ) (policy : Policy) → classify mask policy (λ _. false) arg0 arg3 ≡ notify
no_group mask arg0 arg3 policy =
    elim policy.scope
      as (λ scope.
        classify mask (record policy { scope = scope }) (λ _. false) arg0 arg3 ≡ notify) [
          | strict ↦ by_fd policy.fd_policy
          | file_behavior_only ↦ by_fd policy.fd_policy
        ]
  where
    by_fd :
        (p : FdPolicy)
        → (if by_range p && false && ltb arg0 reserved_base
            then allow
            else if by_range p && false && ltb arg0 reserved_base
            then allow
            else notify)
          ≡ notify
    by_fd reserved_range = refl
    by_fd always_notify = refl

-- Let libseccomp work. Then `export_filter` succeeds for every policy: no name is registered twice.
-- For a system call that libseccomp knows by a name, the action of the filter (that of the rule that
-- applies, or its default action) is that of the description by groups.
pub export_filter-classify :
    (lib : Seccomp) (policy : Policy) (name : String) (syscall arg0 arg3 : ℕ)
    → IsWorking lib
    → lib.from_name name ≡ some syscall
    → (c : Context) × (export_filter lib policy ≡ done c)
      × (verdict c syscall arg0 arg3 ≡ classify lib.map_anonymous policy (contains name) arg0 arg3)
export_filter-classify lib policy name syscall arg0 arg3 works known =
    let (explicit, runs) = export_filter_runs lib works.accepting works.mmap works.known policy in
    (
      record {
        explicit = explicit;
        default_action = notify;
        rules = filter_rules lib works.accepting works.mmap works.known policy;
      },
      runs,
      filter_lem lib works syscall arg0 arg3 (contains name)
          (decide-rules_of lib works.apart name syscall known arg0 arg3) policy,
    )

-- Let libseccomp work. A system call whose number has no name notifies the supervisor, whatever its
-- arguments, in the filter of every policy.
pub export_filter_nameless :
    (lib : Seccomp) (policy : Policy) (syscall arg0 arg3 : ℕ)
    → IsWorking lib
    → ((name : String) → lib.from_name name ≢ some syscall)
    → (c : Context) × (export_filter lib policy ≡ done c) × (verdict c syscall arg0 arg3 ≡ notify)
export_filter_nameless lib policy syscall arg0 arg3 works nameless =
    let (explicit, runs) = export_filter_runs lib works.accepting works.mmap works.known policy in
    (
      record {
        explicit = explicit;
        default_action = notify;
        rules = filter_rules lib works.accepting works.mmap works.known policy;
      },
      runs,
      filter_lem lib works syscall arg0 arg3 (λ _. false)
            (decide-rules_of_nameless lib syscall arg0 arg3 nameless) policy
          ∙ no_group lib.map_anonymous arg0 arg3 policy,
    )
