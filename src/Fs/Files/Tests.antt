-- ===== src/Fs/Files/Tests.antt =====
-- The theorems on internal/fs/fileops.go at concrete values: one object, whose bytes are the world.
use udpfsd.Common.{
  ℕ, ◌≡◌, refl, arith, false, none, some, List, [], ◌∷◌, ◌++◌, length, ok, panic, Returns,
}
use mathlib.Core.List.{flatten}
use udpfsd.Udprdma.Session.{new_session}
use udpfsd.Udprdma.Invariant.{new_session-IsSession}
use udpfsd.Udpfs.Codes.{not_exist}
use udpfsd.Udpfs.Replies.{no_stat}
use udpfsd.Udpfs.Interface.{FileSystem, done, failed}
use udpfsd.Udpfs.Connection.{Connection, no_handle}
use udpfsd.Udpfs.Dispatch.{handle_payload}
use udpfsd.Udpfs.Client.{write_file, read_file, read_sectors, request_bytes}
use udpfsd.Fs.Handles.{FileHandle, file, Backend, set_handle}
use udpfsd.Fs.Files.{Storage, fine, WriteState, Files, on_files}
use udpfsd.Fs.Files.Writing.{Holds}
use udpfsd.Fs.Files.Requests.{Landed}
use udpfsd.Fs.Files.Delivery.{chunk_payloads, handle_all, handle_all-Landed}
use udpfsd.Fs.Files.Oversized.{oversized_panics}

abbrev memory : Storage (List ℕ)
memory = record {
  read_object = λ i n w. ((w, fine), w);
  write_object = λ i bytes w. (done (length bytes), w ++ bytes);
  seek_object = λ i offset whence w. (done offset, w);
}

abbrev no_paths : FileSystem (Files (List ℕ))
no_paths = record {
  open_path =
      λ path flag is_dir s. ok (record { handle = 0; stat = no_stat; error = some not_exist }, s);
  close_handle = λ h s. ok (none, s);
  read_handle = λ h size cap s. ok (failed not_exist, s);
  write_start = λ h s. ok (some not_exist, s);
  write_chunk = λ h number size total bytes s. ok (failed not_exist, s);
  complete_write = λ h s. ok (failed not_exist, s);
  lseek = λ h offset whence s. ok (failed not_exist, s);
  dread = λ h s. ok (failed not_exist, s);
  getstat = λ path s. ok (failed not_exist, s);
  mkdir = λ path s. ok (some not_exist, s);
  remove = λ path s. ok (some not_exist, s);
  rmdir = λ path s. ok (some not_exist, s);
  bread = λ h sector count cap s. ok (failed not_exist, s);
  bwrite_start = λ h sector count s. ok (some not_exist, s);
}

-- "/a", open for writing under handle 3
abbrev notes : FileHandle
notes = record { object = 1; name = 47 ∷ 97 ∷ []; read_only = false }

abbrev table : Backend
table =
    set_handle 2 (some (file notes))
      (record { handles = λ i. none; last_used = λ i. 0; block_device = none; closed = [] })

abbrev fresh : WriteState
fresh = record {
  buffer = [];
  sector_number = 0;
  sector_count = 0;
  total_chunks = 0;
  received_chunks = 0;
  block_write = false;
}

abbrev client : Connection (Files (List ℕ))
client = record {
  files = record {
    backend = table;
    writes = λ i. fresh;
    sector_size = 512;
    clock = 5;
    world = 1 ∷ [];
  };
  session = new_session;
  used_handles = [];
  active_write_handle = no_handle;
}

notes-Holds : Holds 3 notes client.files.backend
notes-Holds = record { above = omega arith; below = omega arith; slot = refl }

abbrev first_piece : List ℕ
first_piece = 7 ∷ 8 ∷ []

abbrev other_pieces : List (List ℕ)
other_pieces = (9 ∷ []) ∷ []

handle_all-Landed_example :
    Returns (Landed memory notes (flatten (first_piece ∷ other_pieces)) client.files.world) (
      handle_all memory no_paths
        (request_bytes (write_file 3 3 [])
          ∷ chunk_payloads (length (first_piece ∷ other_pieces)) 0 (first_piece ∷ other_pieces))
        client)
handle_all-Landed_example =
    handle_all-Landed memory no_paths 3 notes 3 first_piece other_pieces client notes-Holds refl
      new_session-IsSession (omega arith) (omega arith, (omega arith, tt))

oversized_panics_example :
    (handle_payload (on_files memory no_paths) (request_bytes (read_file 3 131073)) client ≡ panic)
    × (handle_payload (on_files memory no_paths) (request_bytes (read_sectors 3 2 257)) client
        ≡ panic)
oversized_panics_example =
    oversized_panics memory no_paths 3 131073 2 257 1024 notes client notes-Holds (omega arith)
      (omega arith) (omega arith) (omega arith) (omega arith) refl
