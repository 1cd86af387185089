-- ===== src/Udpfs/Replies.antt =====
-- udpfs/utils.go: the bytes of the replies.
pub mod Layout
pub mod Sizes
use udpfsd.Common.{
  ℕ, ◌+◌, ◌-◌, ◌*◌, ◌/◌, ◌^◌, Bool, List, [], ◌∷◌, ◌++◌, ltb, leb, ◌==◌, ◌&&◌, if◌then◌else◌,
  length, replicate, u8, u16, u32, shr, put_u16, put_u32,
}
use udpfsd.Udpfs.MsgType
use udpfsd.Udpfs.Codes.{fio_s_ifreg, fio_s_ifdir}

-- The eight bytes of an iox_stat_t time
pub record Stamp : Type 0 where
  pub unused : ℕ
  pub second : ℕ
  pub minute : ℕ
  pub hour : ℕ
  pub day : ℕ
  pub month : ℕ
  pub year_low : ℕ
  pub year_high : ℕ

pub record StatInfo : Type 0 where
  pub mode : ℕ
  pub attr : ℕ
  pub size : ℕ
  pub hisize : ℕ
  pub ctime : Stamp
  pub atime : Stamp
  pub mtime : Stamp

-- time.Time, in the location in which it is read, and os.FileInfo
pub record Time : Type 0 where
  pub second : ℕ
  pub minute : ℕ
  pub hour : ℕ
  pub day : ℕ
  pub month : ℕ
  pub year : ℕ

pub record FileInfo : Type 0 where
  pub is_regular : Bool
  pub is_dir : Bool
  pub size : ℕ
  pub mod_time : Time

abbrev pub no_stamp : Stamp
no_stamp = record {
  unused = 0;
  second = 0;
  minute = 0;
  hour = 0;
  day = 0;
  month = 0;
  year_low = 0;
  year_high = 0;
}

-- StatInfo{}
abbrev pub no_stat : StatInfo
no_stat = record {
  mode = 0;
  attr = 0;
  size = 0;
  hisize = 0;
  ctime = no_stamp;
  atime = no_stamp;
  mtime = no_stamp;
}

unfoldable pub encode_time : Time → Stamp
encode_time t = record {
  unused = 0;
  second = u8 t.second;
  minute = u8 t.minute;
  hour = u8 t.hour;
  day = u8 t.day;
  month = u8 t.month;
  year_low = u8 t.year;
  year_high = u8 (shr t.year 8);
}

unfoldable pub stat_info_from_file : FileInfo → StatInfo
stat_info_from_file fi =
    let t = encode_time fi.mod_time in
    record {
      mode = if fi.is_regular then fio_s_ifreg else if fi.is_dir then fio_s_ifdir else 0;
      attr = 0;
      size = u32 fi.size;
      hisize = u32 (shr fi.size 32);
      ctime = t;
      atime = t;
      mtime = t;
    }

abbrev pub stamp_bytes : Stamp → List ℕ
stamp_bytes t =
    t.unused ∷ t.second ∷ t.minute ∷ t.hour ∷ t.day ∷ t.month ∷ t.year_low ∷ t.year_high ∷ []

-- The first four bytes of a reply, of which the type is the first, and the result behind them
abbrev pub start : ℕ → ℕ → List ℕ
start msg_type result = msg_type ∷ 0 ∷ 0 ∷ 0 ∷ put_u32 result

-- The buffer has eight bytes more than are written.
unfoldable pub pack_open_reply : ℕ → StatInfo → List ℕ
pack_open_reply handle st =
    start MsgType.open_reply handle
    ++ (put_u32 st.mode
        ++ (put_u32 st.size
            ++ (put_u32 st.hisize
                ++ (stamp_bytes st.ctime ++ (stamp_bytes st.mtime ++ replicate 8 0)))))

unfoldable pub pack_close_reply : ℕ → List ℕ
pack_close_reply result = start MsgType.close_reply result

unfoldable pub pack_result_reply : ℕ → List ℕ
pack_result_reply result = start MsgType.result_reply result

unfoldable pub pack_write_done : ℕ → List ℕ
pack_write_done result = start MsgType.write_done result

-- An int64 position is its 64 bits.
unfoldable pub pack_lseek_reply : ℕ → List ℕ
pack_lseek_reply position =
    start MsgType.lseek_reply (u32 position)
    ++ put_u32 (if leb (2 ^ 63) position then 0xFFFFFFFF else u32 (shr position 32))

-- mode, attr, size, hisize and the three times
abbrev pub stat_bytes : StatInfo → List ℕ
stat_bytes st =
    put_u32 st.mode
    ++ (put_u32 st.attr
        ++ (put_u32 st.size
            ++ (put_u32 st.hisize
                ++ (stamp_bytes st.ctime ++ (stamp_bytes st.atime ++ stamp_bytes st.mtime)))))

-- The name with a zero behind it, unless it is empty
abbrev pub terminated : List ℕ → List ℕ
terminated name = if ltb 0 (length name) then name ++ (0 ∷ []) else name

-- (n + 3) & ^3, and the zeros appended up to there
abbrev pub padded_name : List ℕ → List ℕ
padded_name name =
    let bytes = terminated name in bytes ++ replicate ((length bytes + 3) / 4 * 4 - length bytes) 0

unfoldable pub pack_dread_reply : ℕ → List ℕ → StatInfo → List ℕ
pack_dread_reply result name st =
    (MsgType.dread_reply ∷ 0 ∷ put_u16 (u16 (length name)))
    ++ (put_u32 result
        ++ (stat_bytes st
            ++ (if ltb 0 result && ltb result (2 ^ 31) then padded_name name else [])))

unfoldable pub pack_getstat_reply : ℕ → StatInfo → List ℕ
pack_getstat_reply result st = start MsgType.getstat_reply result ++ stat_bytes st
