-- ===== src/Fs/Opening/Sample.antt =====
-- internal/fs/: a backend for runs, with a root "/s" in which every path is a file of five bytes.
use udpfsd.Common.{
  ℕ, Bool-cases, inl, inr, ltb→le, if◌then◌else◌, ltb, ◌≡◌, refl, true, false, none, [], ◌∷◌,
  length,
}
use udpfsd.Udpfs.Interface.{done, failed, FileSystem}
use udpfsd.Udpfs.Codes.{not_exist}
use udpfsd.Udpfs.Laws.{IsFileSystem}
use udpfsd.Udpfs.Replies.{FileInfo}
use udpfsd.Fs.Files.{Files, Storage, fine}
use udpfsd.Fs.Opening.{Settings, Os, file_system}
use udpfsd.Fs.Opening.Once.{StatWorks}
use udpfsd.Fs.Opening.Total.{SmallSectors, ShortNames}
use udpfsd.Fs.Opening.Serves.{file_system-IsFileSystem}

abbrev pub info : FileInfo
info = record {
  is_regular = true;
  is_dir = false;
  size = 5;
  mod_time = record { second = 0; minute = 0; hour = 0; day = 1; month = 1; year = 2000 };
}

abbrev pub plain_os : Os ℕ
plain_os = record {
  make_dir = λ path w. (none, w);
  make_dirs = λ path w. w;
  remove_path = λ path w. (none, w);
  stat_path = λ path w. done info;
  list_dir = λ path w. done [];
  open_object = λ path flag w. (done 9, w);
  stat_object = λ i w. done info;
  entry_info = λ path name w. if ltb 1024 (length name) then failed not_exist else done info;
}

pub plain_os-StatWorks : StatWorks plain_os
plain_os-StatWorks = record {
  of_object = λ i w. (info, refl);
  of_listed = λ path w names e. (info, refl);
}

abbrev pub settings : Settings
settings = record { fs_root = 47 ∷ 115 ∷ []; is_read_only = false; total_sector_count = 0 }

pub plain_os-ShortNames : ShortNames plain_os
plain_os-ShortNames path name w i e = elim (Bool-cases (ltb 1024 (length name))) [
  | inl long ↦ absurd (let s : failed not_exist ≡ done i = rw long at e in cc)
  | inr short ↦ ltb→le 1024 (length name) short
]

abbrev pub storage : Storage ℕ
storage = record {
  read_object = λ i n w. ((7 ∷ 8 ∷ [], fine), w);
  write_object = λ i bytes w. (done (length bytes), w);
  seek_object = λ i offset whence w. (done offset, w);
}

abbrev pub plain_backend : FileSystem (Files ℕ)
plain_backend = file_system settings plain_os storage

pub plain_backend-IsFileSystem : IsFileSystem SmallSectors plain_backend
plain_backend-IsFileSystem =
    file_system-IsFileSystem settings plain_os plain_os-StatWorks storage plain_os-ShortNames

abbrev pub no_files : Files ℕ
no_files = record {
  backend = record { handles = λ i. none; last_used = λ i. 0; block_device = none; closed = [] };
  writes = λ i. record {
    buffer = [];
    sector_number = 0;
    sector_count = 0;
    total_chunks = 0;
    received_chunks = 0;
    block_write = false;
  };
  sector_size = 512;
  clock = 5;
  world = 0;
}
