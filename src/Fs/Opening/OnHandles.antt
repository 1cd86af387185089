-- ===== src/Fs/Opening/OnHandles.antt =====
-- internal/fs/fileops.go: the operations on handles of the table return.
use udpfsd.Common.{
  ℕ, ◌*◌, ◌≤◌, ◌==◌, arith, Option, none, some, List, ok, ◌>>=◌, Returns, Returns-ok, Returns-bind,
  Bool-cases, inl, inr, le→ltb,
}
use native.Mathlib.Nat.{mul-le-mul_left}
use udpfsd.Udpfs.Interface.{Result, done, failed}
use udpfsd.Udpfs.Laws.{InTable}
use udpfsd.Fs.Handles.{FileHandle}
use udpfsd.Fs.Files.{
  Storage, Files, locate, read_from, read_sectors, seek_sectors, start_write, put_chunk,
  finish_write, seek_from, start_bwrite, sector_size_of, write_all, write_sectors,
}
use udpfsd.Fs.Opening.Total.{SmallSectors, get_file-Returns}

module _ {W : Type 0} where
  pub locate-Returns :
      (h : ℕ) (s : Files W)
      → InTable h
      → SmallSectors s
      → Returns (λ r. SmallSectors r.1) (locate h s)
  locate-Returns h s k i =
      Returns-bind _ _ (get_file-Returns h s.clock s.backend k) (λ r u. Returns-ok _ i)

  -- An operation that finds the file and does what cannot fail
  pub located :
      {A : Type 0} (h : ℕ) (s : Files W) (f : Option FileHandle → Files W → A × Files W)
      → InTable h
      → SmallSectors s
      → ((o : Option FileHandle) (t : Files W) → SmallSectors t → SmallSectors (f o t).1)
      → Returns (λ r. SmallSectors r.1) (locate h s >>= λ r. ok (f r.0 r.1))
  located h s f k i step =
      Returns-bind _ _ (locate-Returns h s k i) (λ r j. Returns-ok _ (step r.0 r.1 j))

  pub start_write-kept :
      (o : Option FileHandle) (t : Files W) → SmallSectors t → SmallSectors (start_write o t).1
  unfolding start_write
  start_write-kept none t i = i
  start_write-kept (some f) t i = elim (Bool-cases f.read_only) [ inl e ↦ rw e i | inr e ↦ rw e i ]

  pub start_bwrite-kept :
      (sector count : ℕ) (o : Option FileHandle) (t : Files W)
      → SmallSectors t
      → SmallSectors (start_bwrite sector count o t).1
  unfolding start_bwrite
  start_bwrite-kept sector count none t i = i
  start_bwrite-kept sector count (some f) t i = elim (Bool-cases f.read_only) [
    | inl e ↦ rw e i
    | inr e ↦ rw e i
  ]

  pub put_chunk-kept :
      (number total : ℕ) (bytes : List ℕ) (o : Option FileHandle) (t : Files W)
      → SmallSectors t
      → SmallSectors (put_chunk number total bytes o t).1
  unfolding put_chunk
  put_chunk-kept number total bytes none t i = i
  put_chunk-kept number total bytes (some f) t i =
      elim (Bool-cases (number == (t.writes f.object).received_chunks)) [
        | inl e ↦ rw e i
        | inr e ↦ rw e i
      ]

  module _ (st : Storage W) where
    write_sectors-kept :
        (n : ℕ) (bytes : List ℕ) (p : Result ℕ) (t : Files W)
        → SmallSectors t
        → SmallSectors (write_sectors st n bytes p t).1
    unfolding write_sectors write_all
    write_sectors-kept n bytes (failed e) t i = i
    write_sectors-kept n bytes (done p) t i = i

    pub finish_write-kept :
        (h : ℕ) (o : Option FileHandle) (t : Files W)
        → SmallSectors t
        → SmallSectors (finish_write st h o t).1
    unfolding finish_write write_all
    finish_write-kept h none t i = i
    finish_write-kept h (some f) t i = elim (Bool-cases (t.writes f.object).block_write) [
      | inl e ↦ rw e (write_sectors-kept f.object _ _ _ i)
      | inr e ↦ rw e i
    ]

    pub seek_from-kept :
        (offset whence : ℕ) (o : Option FileHandle) (t : Files W)
        → SmallSectors t
        → SmallSectors (seek_from st offset whence o t).1
    unfolding seek_from
    seek_from-kept offset whence none t i = i
    seek_from-kept offset whence (some f) t i = i

    pub read_from-Returns :
        (size cap : ℕ) (o : Option FileHandle) (t : Files W)
        → size ≤ cap
        → SmallSectors t
        → Returns (λ r. SmallSectors r.1) (read_from st size cap o t)
    unfolding read_from
    read_from-Returns size cap none t room i = Returns-ok _ i
    read_from-Returns size cap (some f) t room i = rw (le→ltb cap size room) (Returns-ok _ i)

    read_sectors-Returns :
        (n size cap : ℕ) (p : Result ℕ) (t : Files W)
        → size ≤ cap
        → SmallSectors t
        → Returns (λ r. SmallSectors r.1) (read_sectors st n size cap p t)
    unfolding read_sectors
    read_sectors-Returns n size cap (failed e) t room i = Returns-ok _ i
    read_sectors-Returns n size cap (done p) t room i = rw (le→ltb cap size room) (Returns-ok _ i)

    size_small : (h : ℕ) (t : Files W) → SmallSectors t → sector_size_of h t ≤ 512
    size_small h t i = ground (arith, i)

    pub seek_sectors-Returns :
        (h sector count cap : ℕ) (o : Option FileHandle) (t : Files W)
        → count * 512 ≤ cap
        → SmallSectors t
        → Returns (λ r. SmallSectors r.1) (seek_sectors st h sector count cap o t)
    unfolding seek_sectors
    seek_sectors-Returns h sector count cap none t room i = Returns-ok _ i
    seek_sectors-Returns h sector count cap (some f) t room i =
        read_sectors-Returns f.object (count * sector_size_of h t) cap _ _
          (omega (arith, mul-le-mul_left count (size_small h t i), room)) i
