-- ===== src/Fs/Files/Writing.antt =====
-- internal/fs/fileops.go: a write in chunks puts the bytes of the chunks together.
use udpfsd.Common.{
  ℕ, ◌+◌, ◌-◌, ◌^◌, ◌≤◌, ◌<◌, ◌==◌, ◌≡◌, ◌≢◌, refl, sym, subst, ap, ◌∙◌, arith, true, false, none,
  some, List, [], ◌++◌, leb, update, u16, ok, Returns, Returns-ok,
}
use udpfsd.Udpfs.Interface.{done}
use udpfsd.Fs.Handles.{FileHandle, file, Backend, touch, slot_of, get_file, file_at}
use udpfsd.Fs.Files.{
  Storage, WriteState, Files, locate, set_writes, add_chunk, start_write, write_start, put_chunk,
  write_chunk, written, write_all, finish_write, complete_write,
}

-- The file has this handle.
pub record Holds (h : ℕ) (f : FileHandle) (b : Backend) : Type 0 where
  pub above : 1 ≤ h
  pub below : h ≤ 64
  pub slot : b.handles (h - 1) ≡ some (file f)

-- A write to the file at `h` has got `bytes` in `n` chunks.
pub record Writing {W : Type 0} (h : ℕ) (f : FileHandle) (bytes : List ℕ) (n : ℕ) (s : Files W)
    : Type 0 where
  pub holds : Holds h f s.backend
  pub buffered : (s.writes f.object).buffer ≡ bytes
  pub received : (s.writes f.object).received_chunks ≡ n
  pub plain : (s.writes f.object).block_write ≡ false

get_file-Holds :
    (h : ℕ) (f : FileHandle) (now : ℕ) (b : Backend)
    → Holds h f b
    → get_file h now b ≡ ok (some f, touch (h - 1) now b)
unfolding get_file slot_of file_at
get_file-Holds h f now b i = ground arith

update_same : {A : Type 0} (g : ℕ → A) (i : ℕ) (a : A) → update g i a i ≡ a
update_same g i a = ground arith

module _ {W : Type 0} where
  abbrev pub touched : ℕ → Files W → Files W
  touched h s = record s { backend = touch (h - 1) s.clock s.backend }

  touched-Holds :
      (h : ℕ) (f : FileHandle) (s : Files W) → Holds h f s.backend → Holds h f (touched h s).backend
  touched-Holds h f s i = record { above = i.above; below = i.below; slot = i.slot }

  pub locate-Holds :
      (h : ℕ) (f : FileHandle) (s : Files W)
      → Holds h f s.backend
      → locate h s ≡ ok (some f, touched h s)
  locate-Holds h f s i = rw (get_file-Holds h f s.clock s.backend i) refl

  set_writes-Writing :
      (h : ℕ) (f : FileHandle) (w : WriteState) (bytes : List ℕ) (n : ℕ) (s : Files W)
      → Holds h f s.backend
      → w.buffer ≡ bytes
      → w.received_chunks ≡ n
      → w.block_write ≡ false
      → Writing h f bytes n (set_writes f.object w s)
  set_writes-Writing h f w bytes n s i b r p =
      let e = update_same s.writes f.object w in
      record {
        holds = record { above = i.above; below = i.below; slot = i.slot };
        buffered = ap (λ (x : WriteState). x.buffer) e ∙ b;
        received = ap (λ (x : WriteState). x.received_chunks) e ∙ r;
        plain = ap (λ (x : WriteState). x.block_write) e ∙ p;
      }

  start_write-open :
      (f : FileHandle) (s : Files W)
      → f.read_only ≡ false
      → (start_write (some f) s).0 ≡ none
        × ((start_write (some f) s).1
            ≡ set_writes f.object
                (record (s.writes f.object) {
                  block_write = false;
                  buffer = [];
                  total_chunks = 0;
                  received_chunks = 0;
                })
                s)
  unfolding start_write
  start_write-open f s e = (ground arith, ground arith)

  pub write_start-Writing :
      (h : ℕ) (f : FileHandle) (s : Files W)
      → Holds h f s.backend
      → f.read_only ≡ false
      → Returns (λ r. (r.0 ≡ none) × Writing h f [] 0 r.1 × (r.1.world ≡ s.world)) (write_start h s)
  unfolding write_start
  write_start-Writing h f s i e =
      let o = start_write-open f (touched h s) e in
      rw (locate-Holds h f s i) (
        Returns-ok _ (
          o.0,
          subst (Writing h f [] 0) (sym o.1)
              (set_writes-Writing h f _ [] 0 (touched h s) (touched-Holds h f s i) refl refl refl),
          ap (λ (t : Files W). t.world) o.1,
        ))

  put_next :
      (number total n : ℕ) (more : List ℕ) (f : FileHandle) (s : Files W)
      → (s.writes f.object).received_chunks ≡ n
      → number ≡ n
      → n + 1 < 2 ^ 16
      → ((put_chunk number total more (some f) s).0 ≡ done (leb total (n + 1)))
        × ((put_chunk number total more (some f) s).1
            ≡ set_writes f.object (add_chunk total more (s.writes f.object)) s)
  unfolding put_chunk
  put_next number total n more f s r e small =
      let t : (number == (s.writes f.object).received_chunks) ≡ true = ground arith in
      let u : u16 ((s.writes f.object).received_chunks + 1) ≡ n + 1 = omega arith in
      (rw (t, u) refl, rw t refl)

  pub write_chunk-Writing :
      (h : ℕ) (f : FileHandle) (bytes : List ℕ) (n : ℕ) (s : Files W) (size total : ℕ)
      (more : List ℕ)
      → Writing h f bytes n s
      → n + 1 < 2 ^ 16
      → Returns
          (λ r.
            (r.0 ≡ done (leb total (n + 1)))
            × Writing h f (bytes ++ more) (n + 1) r.1
            × (r.1.world ≡ s.world))
          (write_chunk h n size total more s)
  unfolding write_chunk
  write_chunk-Writing h f bytes n s size total more i small =
      let o = put_next n total n more f (touched h s) i.received refl small in
      rw (locate-Holds h f s i.holds) (
        Returns-ok _ (
          o.0,
          subst (Writing h f (bytes ++ more) (n + 1)) (sym o.1) (
              set_writes-Writing h f _ (bytes ++ more) (n + 1) (touched h s)
                (touched-Holds h f s i.holds) (ap (λ t. t ++ more) i.buffered)
                (omega (arith, i.received)) i.plain),
          ap (λ (t : Files W). t.world) o.1,
        ))

  -- A chunk whose number is not the next is not taken.
  pub write_chunk-ignored :
      (h : ℕ) (f : FileHandle) (bytes : List ℕ) (n number : ℕ) (s : Files W) (size total : ℕ)
      (more : List ℕ)
      → Writing h f bytes n s
      → number ≢ n
      → Returns
          (λ r. (r.0 ≡ done false) × Writing h f bytes n r.1 × (r.1.world ≡ s.world))
          (write_chunk h number size total more s)
  unfolding write_chunk put_chunk
  write_chunk-ignored h f bytes n number s size total more i other =
      let t : (number == (s.writes f.object).received_chunks) ≡ false = ground arith in
      rw (locate-Holds h f s i.holds, t)
        (Returns-ok _ (
          refl,
          record {
            holds = touched-Holds h f s i.holds;
            buffered = i.buffered;
            received = i.received;
            plain = i.plain;
          },
          refl,
        ))

  pub complete_write-Writing :
      (st : Storage W) (h : ℕ) (f : FileHandle) (bytes : List ℕ) (n : ℕ) (s : Files W)
      → Writing h f bytes n s
      → Returns
          (λ r.
            (r.0 ≡ written false (st.write_object f.object bytes s.world).0)
            × (r.1.world ≡ (st.write_object f.object bytes s.world).1))
          (complete_write st h s)
  unfolding complete_write finish_write write_all
  complete_write-Writing st h f bytes n s i =
      rw (locate-Holds h f s i.holds, i.plain, i.buffered) (Returns-ok _ (refl, refl))
