-- ===== src/Udpfs/Codes.antt =====
-- udpfs/fs.go, and the modes and limits of udpfs/protocol.go and udpfs/utils.go. An int32 result and an
-- int status are their low 32 bits: from 2^31 on they are negative. The numbers of the package os are
-- those of Linux.
use udpfsd.Common.{ℕ, ◌-◌, ◌/◌, ◌%◌, ◌^◌, Bool, ◌==◌, if◌then◌else◌, u32, bit_or}

-- -n
abbrev pub minus : ℕ → ℕ
minus n = u32 (2 ^ 32 - n)

abbrev pub einval : ℕ
einval = 22

abbrev pub ebadf : ℕ
ebadf = 9

-- What `errToErrno` tells errors apart by; `errno e` is an Errno of -e, with 0 < e.
pub data Error : Type 0 where
  not_exist exist permission other : Error
  errno : ℕ → Error

unfoldable pub err_to_errno : Error → ℕ
err_to_errno not_exist = 2
err_to_errno exist = 17
err_to_errno permission = 13
err_to_errno (errno e) = e
err_to_errno other = 5

-- -errToErrno(err)
abbrev pub err_code : Error → ℕ
err_code e = minus (err_to_errno e)

abbrev pub o_wronly : ℕ
o_wronly = 1

abbrev pub o_rdwr : ℕ
o_rdwr = 2

abbrev pub o_create : ℕ
o_create = 0x40

abbrev pub o_truncate : ℕ
o_truncate = 0x200

abbrev pub o_append : ℕ
o_append = 0x400

abbrev pub fio_s_ifreg : ℕ
fio_s_ifreg = 0x2000

abbrev pub fio_s_ifdir : ℕ
fio_s_ifdir = 0x1000

abbrev pub block_device_handle : ℕ
block_device_handle = 0

-- `flags & 2^k > 0`
abbrev pub has_flag : ℕ → ℕ → Bool
has_flag flags k = flags / 2 ^ k % 2 == 1

unfoldable pub parse_mode : ℕ → ℕ
parse_mode flags =
    let f = if has_flag flags 8 then o_append else 0 in
    let f = if has_flag flags 9 then bit_or f o_create else f in
    if has_flag flags 10 then bit_or f o_truncate else f

unfoldable pub udpfs_flags_to_os_flags : ℕ → ℕ
udpfs_flags_to_os_flags flags =
    let mode = flags % 4 in
    if mode == 1
    then 0
    else if mode == 2
    then bit_or o_wronly (parse_mode flags)
    else if mode == 3
    then bit_or o_rdwr (parse_mode flags)
    else 0
