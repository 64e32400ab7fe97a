-- ===== src/Runner/Fd/Mapped.antt =====
-- src/runner/fd.rs, `MappedFileSpace`: the map as an association list. A clone shares the map until one
-- of the two is changed (`Arc::make_mut`), which is a value here.
pub mod Correct
use sys_tester.Base.{Option, none, some, List, [], ◌∷◌, false, if◌then◌else◌}
use sys_tester.Base.Signed.{ℤ, same}
use sys_tester.Base.Result.{done, failed}
use sys_tester.Model.{MockFd}
use sys_tester.Runner.Tracker.{Notif, Host, Calls, Action, respond, add_fd}
use sys_tester.Runner.Fd.{ChildFile, real, mock}

pub record Files : Type 0 where
  pub files : List (ℤ × ChildFile)

abbrev pub empty : Files
empty = record { files = [] }

pub get : List (ℤ × ChildFile) → ℤ → Option ChildFile
get [] fd = none
get ((key, file) ∷ rest) fd = if same key fd then some file else get rest fd

pub without : List (ℤ × ChildFile) → ℤ → List (ℤ × ChildFile)
without [] fd = []
without ((key, file) ∷ rest) fd =
    if same key fd then without rest fd else (key, file) ∷ without rest fd

unfoldable pub lookup_fd : Files → ℤ → Option ChildFile
unfolding get
lookup_fd s fd = get s.files fd

unfoldable pub insert : Files → ℤ → ChildFile → Files
unfolding without
insert s fd file = record { files = (fd, file) ∷ without s.files fd }

-- The removed file and the map without it.
unfoldable pub remove_file : Files → ℤ → Option ChildFile × Files
unfolding get without
remove_file s fd = (get s.files fd, record { files = without s.files fd })

module _ (h : Host) where
  -- What follows `add_fd`, whose error is passed on: `files.insert(fd, …)`, then the response.
  pub recorded : (ℤ → Files) → Files → Notif → Action ℤ → Action (Unit {0}) × Files
  recorded inserted s req (failed e, calls) = ((failed e, calls), s)
  recorded inserted s req (done fd, calls) = (respond h req fd calls, inserted fd)

  unfoldable pub respond_real : Files → ℤ → Notif → Calls → Action (Unit {0}) × Files
  unfolding recorded
  respond_real s backing req calls =
      recorded (λ fd. insert s fd real) s req (add_fd h req backing false calls)

  unfoldable pub respond_mock : MockFd → Files → ℤ → Notif → Calls → Action (Unit {0}) × Files
  unfolding recorded
  respond_mock m s backing req calls =
      recorded (λ fd. insert s fd (mock m)) s req (add_fd h req backing false calls)
