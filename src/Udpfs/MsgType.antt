-- ===== src/Udpfs/MsgType.antt =====
-- udpfs/protocol.go: MsgType, the first byte of a message.
use udpfsd.Common.{ℕ}

abbrev pub open_req : ℕ
open_req = 0x10

abbrev pub open_reply : ℕ
open_reply = 0x11

abbrev pub close_req : ℕ
close_req = 0x12

abbrev pub close_reply : ℕ
close_reply = 0x13

abbrev pub read_req : ℕ
read_req = 0x14

abbrev pub write_req : ℕ
write_req = 0x16

abbrev pub write_data : ℕ
write_data = 0x17

abbrev pub write_done : ℕ
write_done = 0x18

abbrev pub lseek_req : ℕ
lseek_req = 0x1A

abbrev pub lseek_reply : ℕ
lseek_reply = 0x1B

abbrev pub dread_req : ℕ
dread_req = 0x1C

abbrev pub dread_reply : ℕ
dread_reply = 0x1D

abbrev pub getstat_req : ℕ
getstat_req = 0x1E

abbrev pub getstat_reply : ℕ
getstat_reply = 0x1F

abbrev pub mkdir_req : ℕ
mkdir_req = 0x20

abbrev pub remove_req : ℕ
remove_req = 0x22

abbrev pub rmdir_req : ℕ
rmdir_req = 0x24

abbrev pub result_reply : ℕ
result_reply = 0x26

abbrev pub bread_req : ℕ
bread_req = 0x28

abbrev pub bwrite_req : ℕ
bwrite_req = 0x2A
