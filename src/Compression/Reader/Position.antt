-- ===== src/Compression/Reader/Position.antt =====
-- internal/fs/compression/reader.go: where Seek goes.
use udpfsd.Common.{ℕ, ◌+◌, ◌-◌, ◌^◌, ◌≤◌, ◌<◌, ◌≡◌, arith, min}
use udpfsd.Compression.Reader.{CachedReader, seek_base, clamp, seek}

-- A seek by less than 2^62 bytes from the current position, forward or back, in data of less than 2^62
-- bytes: the new position is the sum, cut to the size, and 0 where the sum is negative.
pub seek_current :
    (n : ℕ) (c : CachedReader)
    → n < 2 ^ 62
    → c.size < 2 ^ 62
    → c.pos ≤ c.size
    → ((seek n 1 c).1.pos ≡ min (c.pos + n) c.size) × ((seek (2 ^ 64 - n) 1 c).1.pos ≡ c.pos - n)
unfolding seek seek_base clamp
seek_current n c small size_small inside = (ground arith, ground arith)

-- If the position was within the data it is so after any seek, also with an invalid base.
pub seek-within :
    (offset whence : ℕ) (c : CachedReader) → c.pos ≤ c.size → (seek offset whence c).1.pos ≤ c.size
unfolding seek seek_base clamp
seek-within offset whence c inside = ground arith
