-- ===== src/Model/Tests.antt =====
-- Runs of `new_file`, and the theorem on them.
use sys_tester.Base.{◌≡◌, refl, none, some, [], map, range_from, arith}
use sys_tester.Model.{mock_fd, TaskInfo, new_file, u32_max}
use sys_tester.Model.Files.{new_files, new_files_dense}

abbrev empty_info : TaskInfo
empty_info = record { tasks = []; happens_before = []; file_count = 0 }

first_file : new_file empty_info ≡ some (mock_fd 0, record empty_info { file_count = 1 })
unfolding new_file
first_file = refl

new_files_dense_example :
    (new_files 3 empty_info
      ≡ some (map mock_fd (range_from 0 3), record empty_info { file_count = 3 }))
    × (3 ≡ u32_max → new_file (record empty_info { file_count = 3 }) ≡ none)
new_files_dense_example = new_files_dense 3 empty_info (omega arith)
