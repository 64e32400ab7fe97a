-- ===== src/Seccomp/Context.antt =====
-- build.rs: the operations on a filter context. libseccomp is a parameter: it resolves names and may
-- refuse a rule. The state is the names registered so far, the last one first, the default
-- action of the filter, and the rules that libseccomp has accepted, in order. The warnings for unknown names are not modelled.
use Prim.Native.String.{String}
use text.Mathlib.Text
use sys_tester.Base.{ℕ, Bool, true, false, Option, none, some, List, [], ◌∷◌, ◌++◌, if◌then◌else◌}
use sys_tester.Base.Result.{Result, done, failed}

pub data FdPolicy : Type 0 where
  reserved_range always_notify : FdPolicy

pub data ScopePolicy : Type 0 where
  file_behavior_only strict : ScopePolicy

pub record Policy : Type 0 where
  pub file_name : String
  pub fd_policy : FdPolicy
  pub scope : ScopePolicy

-- `ScmpAction::Allow`, `Trace(0)` and `Notify`.
pub data ScmpAction : Type 0 where
  allow trace notify : ScmpAction

-- The comparisons of the rules: none, `$arg0 < bound`, `$arg3 & mask == mask`.
pub data Compare : Type 0 where
  always : Compare
  arg0_below : ℕ → Compare
  arg3_masked : ℕ → Compare

pub record Rule : Type 0 where
  pub action : ScmpAction
  pub syscall : ℕ
  pub compare : Compare

-- `MOCK_FD_BASE`
abbrev pub reserved_base : ℕ
reserved_base = 1048576

pub record Seccomp : Type 0 where
  pub from_name : String → Option ℕ
  pub accepts : List Rule → Rule → Bool
  pub map_anonymous : ℕ

pub data BuildError : Type 0 where
  duplicate : String → BuildError
  unresolved : String → BuildError
  refused : Rule → BuildError

pub record Context : Type 0 where
  pub explicit : List String
  pub default_action : ScmpAction
  pub rules : List Rule

infixl 5 ◌>>=◌
abbrev pub ◌>>=◌ :
    {A B : Type 0} → Result A BuildError → (A → Result B BuildError) → Result B BuildError
done a >>= f = f a
failed e >>= f = failed e

abbrev pub contains : String → List String → Bool
contains name [] = false
contains name (other ∷ names) =
    let rest = contains name names in if Text.◌==◌ name other then true else rest

-- `explicit.insert(name)`, which fails for a name that is there.
unfoldable pub register : String → Context → Result Context BuildError
register name c =
    if contains name c.explicit
    then failed (duplicate name)
    else done (record c { explicit = name ∷ c.explicit })

unfoldable pub register_group : List String → Context → Result Context BuildError
register_group [] c = done c
register_group (name ∷ names) c = register name c >>= register_group names

unfoldable pub register_notify_groups : List (List String) → Context → Result Context BuildError
register_notify_groups [] c = done c
register_notify_groups (group ∷ groups) c = register_group group c >>= register_notify_groups groups

module _ (lib : Seccomp) where
  -- `add_rule_exact` and `add_rule_conditional_exact`
  unfoldable pub add_rule : Rule → Context → Result Context BuildError
  add_rule rule c =
      if lib.accepts c.rules rule
      then done (record c { rules = c.rules ++ rule ∷ [] })
      else failed (refused rule)

  -- The rules of names that are registered already; a name that does not resolve gets none.
  unfoldable pub add_names : ScmpAction → List String → Context → Result Context BuildError
  add_names action [] c = done c
  add_names action (name ∷ names) c = elim (lib.from_name name) [
    | none ↦ add_names action names c
    | some syscall ↦
        add_rule (record { action = action; syscall = syscall; compare = always }) c
        >>= add_names action names
  ]

  unfoldable pub add_group : ScmpAction → List String → Context → Result Context BuildError
  add_group action names c = register_group names c >>= add_names action names

  -- The loop of `add_fd_arg0_rules` for `ReservedRange`: each name is registered, then gets its rule.
  unfoldable pub add_below : List String → Context → Result Context BuildError
  add_below [] c = done c
  add_below (name ∷ names) c = register name c >>= λ c'. elim (lib.from_name name) [
    | none ↦ add_below names c'
    | some syscall ↦
        add_rule (record { action = allow; syscall = syscall; compare = arg0_below reserved_base })
          c'
        >>= add_below names
  ]

  unfoldable pub add_fd_arg0_rules : FdPolicy → List String → Context → Result Context BuildError
  add_fd_arg0_rules always_notify operations = register_group operations
  add_fd_arg0_rules reserved_range operations = add_below operations

  unfoldable pub add_mmap_rules : Context → Result Context BuildError
  add_mmap_rules c = register "mmap" c >>= λ c'. elim (lib.from_name "mmap") [
    | none ↦ failed (unresolved "mmap")
    | some mmap ↦
        add_rule
          (record { action = allow; syscall = mmap; compare = arg3_masked lib.map_anonymous }) c'
  ]
