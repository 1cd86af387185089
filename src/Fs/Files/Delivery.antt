-- ===== src/Fs/Files/Delivery.antt =====
-- udpfs/handlers.go over internal/fs/fileops.go: a file that a client writes in chunks.
use udpfsd.Common.{
  ℕ, ◌+◌, ◌^◌, ◌<◌, ◌≡◌, sym, subst, arith, false, List, [], ◌∷◌, ◌++◌, append-nil, append_assoc,
  length, Outcome, ok, ◌>>=◌, Returns, Returns-ok, Returns-bind,
}
use mathlib.Core.List.{flatten}
use udpfsd.Udprdma.Invariant.{IsSession}
use udpfsd.Udpfs.Interface.{FileSystem}
use udpfsd.Udpfs.Connection.{Connection}
use udpfsd.Udpfs.Dispatch.{handle_payload}
use udpfsd.Udpfs.Client.{write_file, request_bytes}
use udpfsd.Fs.Handles.{FileHandle}
use udpfsd.Fs.Files.{Storage, Files, on_files}
use udpfsd.Fs.Files.Writing.{Holds}
use udpfsd.Fs.Files.Requests.{Busy, Landed, start-Busy, next-Busy, last-Landed, chunk}

-- The payloads of the chunks from number `n` on
abbrev pub chunk_payloads : ℕ → ℕ → List (List ℕ) → List (List ℕ)
chunk_payloads total n [] = []
chunk_payloads total n (p ∷ ps) = request_bytes (chunk total n p) ∷ chunk_payloads total (n + 1) ps

abbrev pub AllFit : List (List ℕ) → Type 0
AllFit [] = Unit
AllFit (p ∷ ps) = (length p < 2 ^ 16) × AllFit ps

module _ {W : Type 0} (st : Storage W) (base : FileSystem (Files W)) where
  unfoldable pub handle_all : List (List ℕ) → Connection (Files W) → Outcome (Connection (Files W))
  handle_all [] c = ok c
  handle_all (p ∷ ps) c = handle_payload (on_files st base) p c >>= λ r. handle_all ps r.1

  chunks-Landed :
      (h : ℕ) (f : FileHandle) (bytes : List ℕ) (n total : ℕ) (p : List ℕ) (ps : List (List ℕ))
      (w : W) (c : Connection (Files W))
      → Busy h f bytes n w c
      → n + 1 + length ps ≡ total
      → total < 2 ^ 16
      → AllFit (p ∷ ps)
      → Returns
          (Landed st f (bytes ++ flatten (p ∷ ps)) w)
          (handle_all (chunk_payloads total n (p ∷ ps)) c)
  unfolding handle_all flatten
  chunks-Landed h f bytes n total p [] w c i count small fit =
      Returns-bind _ _ (last-Landed st base h f bytes n total p w c i (omega arith) small fit.0)
        (λ r j. Returns-ok _ (subst (λ b. Landed st f (bytes ++ b) w r.1) (sym (append-nil p)) j))
  chunks-Landed h f bytes n total p (q ∷ ps) w c i count small fit =
      Returns-bind _ _ (next-Busy st base h f bytes n total p w c i (omega arith) small fit.0)
        (λ r j.
          subst
            (λ b.
              Returns (Landed st f b w) (handle_all (chunk_payloads total (n + 1) (q ∷ ps)) r.1))
            (append_assoc bytes p (flatten (q ∷ ps)))
            (chunks-Landed h f (bytes ++ p) (n + 1) total q ps w r.1 j (omega arith) small fit.1))

  -- A client asks to write to a file that is open for writing and sends the bytes in one chunk or more, each of
  -- less than 2^16 bytes and fewer than 2^16 of them, in their order. Then no request panics, the bytes of
  -- all chunks, put together, were written to the file by one call, nothing else was, WRITE_DONE was
  -- sent with its outcome, and no write is active.
  pub handle_all-Landed :
      (h : ℕ) (f : FileHandle) (size : ℕ) (p : List ℕ) (ps : List (List ℕ))
      (c : Connection (Files W))
      → Holds h f c.files.backend
      → f.read_only ≡ false
      → IsSession c.session
      → length (p ∷ ps) < 2 ^ 16
      → AllFit (p ∷ ps)
      → Returns (Landed st f (flatten (p ∷ ps)) c.files.world) (
          handle_all
            (request_bytes (write_file h size []) ∷ chunk_payloads (length (p ∷ ps)) 0 (p ∷ ps))
            c)
  unfolding handle_all
  handle_all-Landed h f size p ps c i e j small fit =
      Returns-bind _ _ (start-Busy st base h f size c i e j) (λ r b.
        chunks-Landed h f [] 0 (length (p ∷ ps)) p ps c.files.world r.1 b (omega arith) small fit)
