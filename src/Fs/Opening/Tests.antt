-- ===== src/Fs/Opening/Tests.antt =====
-- The theorems on paths and on opening at concrete values: a root "/s" in which every path is a file.
use udpfsd.Common.{ℕ, arith, List, ◌≡◌, refl, false, none, some, [], ◌∷◌, Returns}
use udpfsd.Fs.Handles.{FileHandle, file, set_handle}
use udpfsd.Fs.Files.{Files}
use udpfsd.Fs.Paths.{clean, is_under, within_root, resolve_path}
use udpfsd.Fs.Paths.Confined.{Below, IsPlain, resolve_path-IsPlain}
use udpfsd.Fs.Opening.Sample.{
  plain_os, settings, storage, plain_os-StatWorks, plain_os-ShortNames, plain_backend,
  plain_backend-IsFileSystem, no_files,
}
use udpfsd.Fs.Opening.Total.{SmallSectors}
use udpfsd.Udprdma.Session.{new_session}
use udpfsd.Udprdma.Invariant.{new_session-IsSession}
use udpfsd.Udpfs.Connection.{Connection, no_handle, reset_peer}
use udpfsd.Udpfs.Dispatch.{handle_payload}
use udpfsd.Udpfs.Laws.{IsFileSystem, IsConnection}
use udpfsd.Fs.Opening.Serves.{file_system-IsFileSystem}
use udpfsd.Udpfs.Safety.Writing.{IsFair, handle_payload-IsConnection}
use udpfsd.Udpfs.Reopen.{here, there, Reopens, reset_peer-Reopens}
use udpfsd.Fs.Opening.{open_path, file_system}
use udpfsd.Fs.Opening.Exclusive.{Exclusive, put-Exclusive}
use udpfsd.Fs.Opening.Once.{Once, open_path-Once}

-- "/s/a" is open for writing.
abbrev writer : FileHandle
writer = record { object = 1; name = 47 ∷ 115 ∷ 47 ∷ 97 ∷ []; read_only = false }

abbrev one_writer : Files ℕ
one_writer = record {
  backend =
      set_handle 0 (some (file writer))
        (record { handles = λ i. none; last_used = λ i. 0; block_device = none; closed = [] });
  writes = λ i. record {
    buffer = [];
    sector_number = 0;
    sector_count = 0;
    total_chunks = 0;
    received_chunks = 0;
    block_write = false;
  };
  sector_size = 512;
  clock = 5;
  world = 0;
}

none_open : Exclusive (λ i. none)
none_open = record { reads = λ i j f g li lj ne si sj e. absurd (cc) }

one_writer-Once : Once one_writer
one_writer-Once = put-Exclusive (λ i. none) 0 writer none_open (λ k g lt e n. absurd (cc))

open_path-Once_example :
    Returns (λ r. Once r.1) (open_path settings plain_os (97 ∷ []) 2 false one_writer)
open_path-Once_example =
    open_path-Once settings plain_os plain_os-StatWorks (97 ∷ []) 2 false one_writer one_writer-Once

resolved :
    resolve_path (47 ∷ 115 ∷ []) (120 ∷ 92 ∷ 46 ∷ 46 ∷ 47 ∷ 97 ∷ [])
    ≡ some (47 ∷ 115 ∷ 47 ∷ 97 ∷ [])
unfolding resolve_path within_root is_under clean
resolved = refl

-- A path that leads out of the root
outside_test : resolve_path (47 ∷ 115 ∷ []) (46 ∷ 46 ∷ 47 ∷ 97 ∷ []) ≡ none
unfolding resolve_path within_root is_under clean
outside_test = refl

resolve_path-IsPlain_example :
    Below (47 ∷ 115 ∷ []) (47 ∷ 115 ∷ 47 ∷ 97 ∷ []) × IsPlain (47 ∷ 115 ∷ 47 ∷ 97 ∷ [])
resolve_path-IsPlain_example =
    resolve_path-IsPlain (115 ∷ []) (120 ∷ 92 ∷ 46 ∷ 46 ∷ 47 ∷ 97 ∷ []) (47 ∷ 115 ∷ 47 ∷ 97 ∷ [])
      resolved

-- The peer has two files open; the second is "/a", for reading.
abbrev two_open : Connection (Files ℕ)
two_open = record {
  files = no_files;
  session = new_session;
  used_handles =
      (1, record { path = 47 ∷ 98 ∷ []; flag = 0; reset = false; is_dir = false })
      ∷ (2, record { path = 47 ∷ 97 ∷ []; flag = 0; reset = false; is_dir = false })
      ∷ [];
  active_write_handle = no_handle;
}

two_open-IsConnection : IsConnection SmallSectors two_open
two_open-IsConnection = record {
  of_session = new_session-IsSession;
  of_files = omega arith;
  of_handles = (omega arith, (omega arith, tt));
  of_write = λ n. absurd (n refl);
}

-- A READ of two bytes of handle 1
abbrev read_two : List ℕ
read_two = 0x14 ∷ 0 ∷ 0 ∷ 0 ∷ 1 ∷ 0 ∷ 0 ∷ 0 ∷ 2 ∷ 0 ∷ 0 ∷ 0 ∷ []

read_two-IsFair : IsFair 0x14 read_two
read_two-IsFair = record {
  handle = λ e. omega arith;
  some_dir = λ e. absurd (omega arith);
  size = λ e. omega arith;
  count = λ e. absurd (omega arith);
}

handle_payload-IsConnection_example :
    Returns (λ r. IsConnection SmallSectors r.1) (handle_payload plain_backend read_two two_open)
handle_payload-IsConnection_example =
    handle_payload-IsConnection plain_backend-IsFileSystem read_two two_open read_two-IsFair
      two_open-IsConnection

reset_peer-Reopens_example :
    Returns
      (λ d. Reopens plain_backend (47 ∷ 97 ∷ []) 0 two_open d)
      (reset_peer plain_backend two_open)
reset_peer-Reopens_example =
    reset_peer-Reopens plain_backend-IsFileSystem (47 ∷ 97 ∷ []) 0 two_open 2 two_open-IsConnection
      (there (here refl refl))

file_system-IsFileSystem_example : IsFileSystem SmallSectors (file_system settings plain_os storage)
file_system-IsFileSystem_example =
    file_system-IsFileSystem settings plain_os plain_os-StatWorks storage plain_os-ShortNames
