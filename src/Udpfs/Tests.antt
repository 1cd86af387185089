-- ===== src/Udpfs/Tests.antt =====
-- The theorems on udpfs/ at concrete values: a file system with one file, whose state is a number.
use udpfsd.Common.{ℕ, ◌≡◌, arith, true, false, none, [], ◌∷◌, length, take, drop, ◌%◌, get_u16, ok}
use udpfsd.Udprdma.Session.{new_session}
use udpfsd.Udpfs.Codes.{not_exist}
use udpfsd.Udpfs.Replies.{no_stat, pack_dread_reply}
use udpfsd.Udpfs.Replies.Layout.{ShowsStat, pack_dread_reply-ShowsStat}
use udpfsd.Udpfs.Interface.{FileSystem, done, failed}
use udpfsd.Udpfs.Connection.{Connection, no_handle}
use udpfsd.Udpfs.Dispatch.{handle_payload}
use udpfsd.Udpfs.Client.{open_file, request_bytes, serve}
use udpfsd.Udpfs.Client.Served.{handle_payload-serve}

abbrev toy : FileSystem ℕ
toy = record {
  open_path = λ path flag is_dir s. ok (record { handle = 1; stat = no_stat; error = none }, s);
  close_handle = λ h s. ok (none, s);
  read_handle = λ h size cap s. ok (done (2, 7 ∷ 8 ∷ []), s);
  write_start = λ h s. ok (none, s);
  write_chunk = λ h number size total bytes s. ok (done true, s);
  complete_write = λ h s. ok (done 2, s);
  lseek = λ h offset whence s. ok (done 0, offset);
  dread = λ h s. ok (done none, s);
  getstat = λ path s. ok (failed not_exist, s);
  mkdir = λ path s. ok (none, s);
  remove = λ path s. ok (none, s);
  rmdir = λ path s. ok (none, s);
  bread = λ h sector count cap s. ok (done (7 ∷ 8 ∷ []), s);
  bwrite_start = λ h sector count s. ok (none, s);
}

-- The peer has two files open; the second is "/a", for reading.
abbrev two_open : Connection ℕ
two_open = record {
  files = 5;
  session = new_session;
  used_handles =
      (1, record { path = 47 ∷ 98 ∷ []; flag = 0; reset = false; is_dir = false })
      ∷ (2, record { path = 47 ∷ 97 ∷ []; flag = 0; reset = false; is_dir = false })
      ∷ [];
  active_write_handle = no_handle;
}

handle_payload-serve_example :
    handle_payload toy (request_bytes (open_file false 1 (47 ∷ 97 ∷ []) (0 ∷ []))) two_open
    ≡ serve toy (open_file false 1 (47 ∷ 97 ∷ []) (0 ∷ [])) two_open
handle_payload-serve_example =
    handle_payload-serve toy two_open (open_file false 1 (47 ∷ 97 ∷ []) (0 ∷ []))
      (omega arith, (omega arith, (omega arith, tt)))

pack_dread_reply-ShowsStat_example :
    ShowsStat (pack_dread_reply 1 (97 ∷ 98 ∷ []) no_stat) 1 no_stat
    × (take
          (get_u16 (pack_dread_reply 1 (97 ∷ 98 ∷ []) no_stat) 2)
          (drop 48 (pack_dread_reply 1 (97 ∷ 98 ∷ []) no_stat))
        ≡ 97 ∷ 98 ∷ [])
    × (length (pack_dread_reply 1 (97 ∷ 98 ∷ []) no_stat) % 4 ≡ 0)
pack_dread_reply-ShowsStat_example =
    pack_dread_reply-ShowsStat 1 (97 ∷ 98 ∷ []) no_stat (omega arith) (omega arith) (omega arith)
      (record {
        mode_fits = omega arith;
        attr_fits = omega arith;
        size_fits = omega arith;
        hisize_fits = omega arith;
      })
