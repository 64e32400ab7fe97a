-- ===== src/Seccomp/Mocks.antt =====
-- The filters and the file tables together: a call on a mock descriptor reaches the supervisor.
use Prim.Native.String.{String}
use text.Mathlib.Text
use sys_tester.Base.{Bool, true, false, ◌||◌, List, [], ◌∷◌, if◌then◌else◌}
use sys_tester.Seccomp.Groups.{fd_file_operations, fd_socket_operations}
use sys_tester.Seccomp.Context.{Seccomp, Context, contains}

-- No name of the first group is in the second.
abbrev separate : List String → List String → Bool
separate [] ys = true
separate (x ∷ xs) ys = if contains x ys then false else separate xs ys

abbrev separate_all : List String → List (List String) → Bool
separate_all xs [] = true
separate_all xs (ys ∷ groups) = if separate xs ys then separate_all xs groups else false

-- The groups whose descriptor is argument 0.
abbrev pub fd_operations : String → Bool
fd_operations name = contains name fd_file_operations || contains name fd_socket_operations
