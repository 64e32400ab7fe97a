-- ===== src/Seccomp/Fresh.antt =====
-- The effect of the operations on a context, if libseccomp accepts every rule and no name comes twice.
use Prim.Native.String.{String}
use sys_tester.Base.{
  ℕ, Bool, true, false, none, some, Option-cases, Bool-cases, List, [], ◌∷◌, ◌++◌, ◌≡◌, refl, ◌∙◌,
  ap, sym, if◌then◌else◌, inl, inr, arith,
}
use mathlib.Core.List.{append_assoc, append-nil}
use sys_tester.Base.Result.{Result, done}
use sys_tester.Seccomp.Context.{
  notify, FdPolicy, reserved_range, always_notify, ScmpAction, allow, Compare, always, arg0_below,
  arg3_masked, Rule, Seccomp, BuildError, ◌>>=◌, contains, register, register_group,
  register_notify_groups, add_rule, add_names, add_group, add_below, add_fd_arg0_rules,
  add_mmap_rules, reserved_base,
}

-- The names registered after those of the list.
abbrev pub registered : List String → List String → List String
registered [] explicit = explicit
registered (name ∷ names) explicit = registered names (name ∷ explicit)

-- No name of the list is registered or comes again in the list.
abbrev pub fresh : List String → List String → Bool
fresh [] explicit = true
fresh (name ∷ names) explicit =
    if contains name explicit then false else fresh names (name ∷ explicit)

pub register_group-fresh :
    (names explicit : List String) (rules : List Rule)
    → fresh names explicit ≡ true
    → register_group names (record { explicit = explicit; default_action = notify; rules = rules })
      ≡ done
          (record { explicit = registered names explicit; default_action = notify; rules = rules })
unfolding register_group register
register_group-fresh [] explicit rules h = refl
register_group-fresh (name ∷ names) explicit rules h = elim (Bool-cases (contains name explicit)) [
  | inl e ↦ absurd (ground (arith, h, e))
  | inr e ↦
      rw (e, register_group)
        (register_group-fresh names (name ∷ explicit) rules (ground (arith, h, e)))
]

module _ (lib : Seccomp) where
  -- The rules of a group: one for each name that libseccomp knows.
  abbrev pub rules_of : ScmpAction → Compare → List String → List Rule
  rules_of action compare [] = []
  rules_of action compare (name ∷ names) = elim (lib.from_name name) [
    | none ↦ rules_of action compare names
    | some syscall ↦
        record { action = action; syscall = syscall; compare = compare }
        ∷ rules_of action compare names
  ]

  -- The rules of a group that is classified by the descriptor.
  abbrev pub fd_rules : FdPolicy → List String → List Rule
  fd_rules always_notify names = []
  fd_rules reserved_range names = rules_of allow (arg0_below reserved_base) names

  module _ (accepting : (rules : List Rule) (rule : Rule) → lib.accepts rules rule ≡ true) where
    add_rule-accepting :
        (rule : Rule) (explicit : List String) (rules : List Rule)
        → add_rule lib rule (record { explicit = explicit; default_action = notify; rules = rules })
          ≡ done
              (record { explicit = explicit; default_action = notify; rules = rules ++ rule ∷ [] })
    unfolding add_rule
    add_rule-accepting rule explicit rules = rw (add_rule, accepting rules rule) refl

    add_names-accepting :
        (action : ScmpAction) (names explicit : List String) (rules : List Rule)
        → add_names lib action names
            (record { explicit = explicit; default_action = notify; rules = rules })
          ≡ done (record {
            explicit = explicit;
            default_action = notify;
            rules = rules ++ rules_of action always names;
          })
    unfolding add_names
    add_names-accepting action [] explicit rules =
        ap (λ r. done (record { explicit = explicit; default_action = notify; rules = r }))
          (sym (append-nil rules))
    add_names-accepting action (name ∷ names) explicit rules =
        elim (Option-cases (lib.from_name name)) [
          | inl e ↦ rw (add_names, rules_of, e) (add_names-accepting action names explicit rules)
          | inr (syscall, e) ↦
              rw (add_names, rules_of, e, add_rule-accepting)
                (add_names-accepting action names explicit _
                  ∙ ap
                      (λ r.
                        done (record { explicit = explicit; default_action = notify; rules = r }))
                      (append_assoc rules _ _))
        ]

    pub add_group-fresh :
        (action : ScmpAction) (names explicit : List String) (rules : List Rule)
        → fresh names explicit ≡ true
        → add_group lib action names
            (record { explicit = explicit; default_action = notify; rules = rules })
          ≡ done (record {
            explicit = registered names explicit;
            default_action = notify;
            rules = rules ++ rules_of action always names;
          })
    unfolding add_group
    add_group-fresh action names explicit rules h =
        rw (add_group, register_group-fresh names explicit rules h)
          (add_names-accepting action names (registered names explicit) rules)

    pub add_below-fresh :
        (names explicit : List String) (rules : List Rule)
        → fresh names explicit ≡ true
        → add_below lib names
            (record { explicit = explicit; default_action = notify; rules = rules })
          ≡ done (record {
            explicit = registered names explicit;
            default_action = notify;
            rules = rules ++ rules_of allow (arg0_below reserved_base) names;
          })
    unfolding add_below register
    add_below-fresh [] explicit rules h =
        ap (λ r. done (record { explicit = explicit; default_action = notify; rules = r }))
          (sym (append-nil rules))
    add_below-fresh (name ∷ names) explicit rules h = elim (Bool-cases (contains name explicit)) [
      | inl e ↦ absurd (ground (arith, h, e))
      | inr e ↦ elim (Option-cases (lib.from_name name)) [
        | inl e' ↦
            rw (add_below, rules_of, e, e')
              (add_below-fresh names (name ∷ explicit) rules (ground (arith, h, e)))
        | inr (syscall, e') ↦
            rw (add_below, rules_of, e, e', add_rule-accepting)
              (add_below-fresh names (name ∷ explicit) _ (ground (arith, h, e))
                ∙ ap
                    (λ r. done (record {
                      explicit = registered names (name ∷ explicit);
                      default_action = notify;
                      rules = r;
                    }))
                    (append_assoc rules _ _))
      ]
    ]

    pub add_fd_arg0_rules-fresh :
        (policy : FdPolicy) (names explicit : List String) (rules : List Rule)
        → fresh names explicit ≡ true
        → add_fd_arg0_rules lib policy names
            (record { explicit = explicit; default_action = notify; rules = rules })
          ≡ done (record {
            explicit = registered names explicit;
            default_action = notify;
            rules = rules ++ fd_rules policy names;
          })
    unfolding add_fd_arg0_rules
    add_fd_arg0_rules-fresh reserved_range names explicit rules h =
        add_below-fresh names explicit rules h
    add_fd_arg0_rules-fresh always_notify names explicit rules h =
        register_group-fresh names explicit rules h
        ∙ ap
            (λ r.
              done (record {
                explicit = registered names explicit;
                default_action = notify;
                rules = r;
              }))
            (sym (append-nil rules))

    pub add_mmap_rules-fresh :
        (mmap : ℕ) (explicit : List String) (rules : List Rule)
        → lib.from_name "mmap" ≡ some mmap
        → fresh ("mmap" ∷ []) explicit ≡ true
        → add_mmap_rules lib
            (record { explicit = explicit; default_action = notify; rules = rules })
          ≡ done (record {
            explicit = "mmap" ∷ explicit;
            default_action = notify;
            rules = rules ++ rules_of allow (arg3_masked lib.map_anonymous) ("mmap" ∷ []);
          })
    unfolding add_mmap_rules register
    add_mmap_rules-fresh mmap explicit rules known h =
        elim (Bool-cases (contains "mmap" explicit)) [
          | inl e ↦ absurd (ground (arith, h, e))
          | inr e ↦ rw (add_mmap_rules, rules_of, e, known) (add_rule-accepting _ _ _)
        ]

-- `a?` and what follows, if `a` succeeds.
pub >>=-done :
    {A B : Type 0} (m : Result A BuildError) (f : A → Result B BuildError) (a : A) (b : B)
    → m ≡ done a
    → f a ≡ done b
    → (m >>= f) ≡ done b
>>=-done m f a b e e' = rw e e'

-- The same for a list of groups.
abbrev pub registered_groups : List (List String) → List String → List String
registered_groups [] explicit = explicit
registered_groups (group ∷ groups) explicit = registered_groups groups (registered group explicit)

abbrev pub fresh_groups : List (List String) → List String → Bool
fresh_groups [] explicit = true
fresh_groups (group ∷ groups) explicit =
    if fresh group explicit then fresh_groups groups (registered group explicit) else false

pub register_notify_groups-fresh :
    (groups : List (List String)) (explicit : List String) (rules : List Rule)
    → fresh_groups groups explicit ≡ true
    → register_notify_groups groups
        (record { explicit = explicit; default_action = notify; rules = rules })
      ≡ done (record {
        explicit = registered_groups groups explicit;
        default_action = notify;
        rules = rules;
      })
unfolding register_notify_groups
register_notify_groups-fresh [] explicit rules h = refl
register_notify_groups-fresh (group ∷ groups) explicit rules h =
    elim (Bool-cases (fresh group explicit)) [
      | inl e ↦
          rw (register_notify_groups, register_group-fresh group explicit rules e)
            (register_notify_groups-fresh groups (registered group explicit) rules
              (ground (arith, h, e)))
      | inr e ↦ absurd (ground (arith, h, e))
    ]
