-- ===== src/Fs/Tests.antt =====
-- Runs of the table of handles of internal/fs/handles.go, and the theorems at concrete values.
use udpfsd.Common.{◌-◌, ◌≡◌, refl, arith, [], ◌∷◌, true, none, some, ok, panic, Returns}
use udpfsd.Fs.Handles.{
  FileHandle, file, Backend, handle, set_handle, touch, alloc_handle, get_file, get_dir,
  free_handle, shutdown, get_file_by_path, get_file_state, scan, allocate,
}
use udpfsd.Fs.Handles.Allocation.{IsPast, Allocates, alloc_handle-Allocates, get_file-alloc_handle}
use udpfsd.Fs.Handles.Release.{handle_out_of_range, IsShutdown, shutdown_lem}
use udpfsd.Fs.Handles.Paths.{state_of, get_file_state-get_file_by_path}

abbrev no_files : Backend
no_files = record { handles = λ i. none; last_used = λ i. 0; block_device = none; closed = [] }

abbrev readme : FileHandle
readme = record { object = 1; name = 47 ∷ 97 ∷ []; read_only = true }

-- Two files are open: handles 1 and 2.
abbrev two_files : Backend
two_files = set_handle 1 (some (file readme)) (set_handle 0 (some (file readme)) no_files)

two_files-IsPast : IsPast two_files 5
unfolding IsPast
two_files-IsPast k lt = omega arith

alloc_handle-Allocates_example :
    Allocates two_files (file readme) 6 7 (alloc_handle (file readme) 5 6 7 two_files)
alloc_handle-Allocates_example =
    alloc_handle-Allocates two_files (file readme) 5 6 7 two_files-IsPast

third :
    alloc_handle (file readme) 5 6 7 two_files
    ≡ (handle 3, touch 2 7 (set_handle 2 (some (file readme)) two_files))
unfolding alloc_handle scan allocate
third = refl

get_file-alloc_handle_example :
    get_file 3 9 (touch 2 7 (set_handle 2 (some (file readme)) two_files))
    ≡ ok (some readme, touch (3 - 1) 9 (touch 2 7 (set_handle 2 (some (file readme)) two_files)))
get_file-alloc_handle_example =
    get_file-alloc_handle two_files readme 5 6 7 9 3
      (touch 2 7 (set_handle 2 (some (file readme)) two_files)) two_files-IsPast third

handle_out_of_range_example :
    (free_handle 65 two_files ≡ panic)
    × (get_file 65 9 two_files ≡ panic)
    × (get_dir 65 9 two_files ≡ panic)
handle_out_of_range_example = handle_out_of_range 65 9 two_files (omega arith) (omega arith)

shutdown_example : Returns (IsShutdown two_files) (shutdown two_files)
shutdown_example = shutdown_lem two_files

get_file_state_example :
    get_file_state (47 ∷ 97 ∷ []) two_files
    ≡ state_of (get_file_by_path (47 ∷ 97 ∷ []) 9 two_files).0
get_file_state_example = get_file_state-get_file_by_path (47 ∷ 97 ∷ []) 9 two_files
