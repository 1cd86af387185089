-- ===== src/Udpfs/Interface.antt =====
-- udpfs/fs.go: the interface FS, as operations on a state `F` of the files.
use udpfsd.Common.{ℕ, Bool, Option, List, Outcome}
use udpfsd.Udpfs.Codes.{Error}
use udpfsd.Udpfs.Replies.{StatInfo}

-- The results, or the error
pub data Result (A : Type 0) : Type 0 where
  done : A → Result A
  failed : Error → Result A

-- What `Open` returns
pub record Opened : Type 0 where
  pub handle : ℕ
  pub stat : StatInfo
  pub error : Option Error

-- Handles are int32, offsets, positions and sector numbers int64, `whence` a byte. `read_handle` and
-- `bread` take the length of the buffer that they read into; `dread` has no name at the end.
pub record FileSystem (F : Type 0) : Type 0 where
  pub open_path : List ℕ → ℕ → Bool → F → Outcome (Opened × F)
  pub close_handle : ℕ → F → Outcome (Option Error × F)
  pub read_handle : ℕ → ℕ → ℕ → F → Outcome (Result (ℕ × List ℕ) × F)
  pub write_start : ℕ → F → Outcome (Option Error × F)
  pub write_chunk : ℕ → ℕ → ℕ → ℕ → List ℕ → F → Outcome (Result Bool × F)
  pub complete_write : ℕ → F → Outcome (Result ℕ × F)
  pub lseek : ℕ → ℕ → ℕ → F → Outcome (Result ℕ × F)
  pub dread : ℕ → F → Outcome (Result (Option (List ℕ × StatInfo)) × F)
  pub getstat : List ℕ → F → Outcome (Result StatInfo × F)
  pub mkdir : List ℕ → F → Outcome (Option Error × F)
  pub remove : List ℕ → F → Outcome (Option Error × F)
  pub rmdir : List ℕ → F → Outcome (Option Error × F)
  pub bread : ℕ → ℕ → ℕ → ℕ → F → Outcome (Result (List ℕ) × F)
  pub bwrite_start : ℕ → ℕ → ℕ → F → Outcome (Option Error × F)
