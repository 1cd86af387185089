-- ===== src/Fs/Handles/Paths.antt =====
-- internal/fs/handles.go: the two searches for a path agree.
use udpfsd.Common.{
  ℕ, zero, suc, ◌+◌, ◌≡◌, refl, List, Bool, true, false, Option, none, some, Option-cases, inl, inr,
}
use udpfsd.Fs.Handles.{
  FileHandle, Backend, named, path_loop, get_file_by_path, state_loop, get_file_state,
}

-- What `getFileState` says of the file that was found
abbrev pub state_of : Option FileHandle → Bool × Bool
state_of none = (false, true)
state_of (some f) = (true, f.read_only)

loops_agree :
    (n i : ℕ) (path : List ℕ) (now : ℕ) (b : Backend)
    → state_loop n i path b ≡ state_of (path_loop n i path now b).0
unfolding state_loop path_loop
loops_agree zero i path now b = refl
loops_agree (suc n) i path now b = elim (Option-cases (named path (b.handles i))) [
  | inl e ↦ rw (state_loop, path_loop, e) (loops_agree n (i + 1) path now b)
  | inr (f, e) ↦ rw (state_loop, path_loop, e)
]

-- `getFileState` says that a file is open just where `getFileByPath` finds it, and then whether that
-- handle is read-only.
pub get_file_state-get_file_by_path :
    (path : List ℕ) (now : ℕ) (b : Backend)
    → get_file_state path b ≡ state_of (get_file_by_path path now b).0
unfolding get_file_state get_file_by_path
get_file_state-get_file_by_path path now b = loops_agree 64 0 path now b
