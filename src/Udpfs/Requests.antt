-- ===== src/Udpfs/Requests.antt =====
-- udpfs/handlers.go: what the handlers read from the bytes of a request.
pub mod Parsing
use Prim.Native.Nat.{bit_or}
use udpfsd.Common.{
  ℕ, suc, ◌+◌, ◌-◌, ◌==◌, Option, none, some, List, [], ◌∷◌, if◌then◌else◌, length, take, drop, ltb,
  get_u16, get_u32, shl,
}

-- bytes.IndexByte(b, 0)
unfoldable pub index_of_zero : List ℕ → Option ℕ
index_of_zero [] = none
index_of_zero (x ∷ xs) =
    let rest = index_of_zero xs in
    if x == 0 then some 0 else elim rest [ none ↦ none | some n ↦ some (suc n) ]

-- The bytes before the zero, or all the `left` bytes
unfoldable pub up_to : Option ℕ → ℕ → List ℕ → List ℕ
up_to none left b = take left b
up_to (some n) left b = take n b

-- The bytes from `start` on, up to a zero or to the end
unfoldable pub path_from : ℕ → List ℕ → List ℕ
path_from start payload =
    up_to (index_of_zero (drop start payload)) (length payload - start) (drop start payload)

-- `int64(hi)<<32 | int64(lo)`, of the two words at an offset
unfoldable pub int64_from : ℕ → List ℕ → ℕ
int64_from i payload = bit_or (get_u32 payload i) (shl (get_u32 payload (i + 4)) 32)

-- The header of a chunk and its bytes, at most as many as the header says
pub record Chunk : Type 0 where
  pub number : ℕ
  pub size : ℕ
  pub total : ℕ
  pub bytes : List ℕ

unfoldable pub chunk_from : List ℕ → Chunk
chunk_from b =
    let size = get_u16 b 4 in
    let bytes = drop 8 b in
    record {
      number = get_u16 b 2;
      size = size;
      total = get_u16 b 6;
      bytes = if ltb size (length bytes) then take size bytes else bytes;
    }
