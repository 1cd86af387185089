-- ===== src/Udpfs/Replies/Layout.antt =====
-- udpfs/utils.go: where the fields of a reply stand.
use udpfsd.Common.{
  ℕ, ◌+◌, ◌-◌, ◌*◌, ◌/◌, ◌%◌, ◌^◌, ◌<◌, ◌≡◌, refl, arith, List, [], ◌∷◌, ◌++◌, append_assoc, length,
  take, drop, replicate, u16, get_u16, get_u32, lt→ltb, length-append, length-replicate,
}
use udpfsd.Udpfs.Replies.{StatInfo, pack_dread_reply, terminated, padded_name}
use udpfsd.Udpfs.Requests.Parsing.{word, half, take-append}

pub record IsStat (st : StatInfo) : Type 0 where
  pub mode_fits : st.mode < 2 ^ 32
  pub attr_fits : st.attr < 2 ^ 32
  pub size_fits : st.size < 2 ^ 32
  pub hisize_fits : st.hisize < 2 ^ 32

-- The fields of a directory entry or of a file: its result, mode, attributes and size
pub record ShowsStat (b : List ℕ) (result : ℕ) (st : StatInfo) : Type 0 where
  pub result_at : get_u32 b 4 ≡ result
  pub mode_at : get_u32 b 8 ≡ st.mode
  pub attr_at : get_u32 b 12 ≡ st.attr
  pub size_at : get_u32 b 16 + get_u32 b 20 * 2 ^ 32 ≡ st.size + st.hisize * 2 ^ 32

terminated_lem : (x : ℕ) (xs : List ℕ) → terminated (x ∷ xs) ≡ (x ∷ xs) ++ (0 ∷ [])
terminated_lem x xs = rw (lt→ltb 0 (length (x ∷ xs)) (omega arith)) refl

starts_with : (t name rest more : List ℕ) → t ≡ name ++ rest → take (length name) (t ++ more) ≡ name
starts_with t name rest more e =
    rw e (rw (append_assoc name rest more) (take-append name (rest ++ more)))

take_name : (name : List ℕ) → take (length name) (padded_name name) ≡ name
take_name [] = refl
take_name (x ∷ xs) = starts_with _ (x ∷ xs) (0 ∷ []) _ (terminated_lem x xs)

padded : (name : List ℕ) → length (padded_name name) % 4 ≡ 0
padded name =
    let t = terminated name in
    let n = (length t + 3) / 4 * 4 - length t in
    let a : length (padded_name name) ≡ length t + length (replicate {A = ℕ} n 0) =
      length-append t (replicate n 0) in
    omega (arith, length-replicate {A = ℕ} n 0, a)

-- A client reads from a directory entry whose name has less than 2^16 bytes, with a positive result, the
-- result, mode, attributes and size that were put there, and the name at its length; and the reply ends
-- at a multiple of four bytes.
pub pack_dread_reply-ShowsStat :
    (result : ℕ) (name : List ℕ) (st : StatInfo)
    → 0 < result
    → result < 2 ^ 31
    → length name < 2 ^ 16
    → IsStat st
    → ShowsStat (pack_dread_reply result name st) result st
      × (take
            (get_u16 (pack_dread_reply result name st) 2)
            (drop 48 (pack_dread_reply result name st))
          ≡ name)
      × (length (pack_dread_reply result name st) % 4 ≡ 0)
unfolding pack_dread_reply
pack_dread_reply-ShowsStat result name st p r l s =
    rw (lt→ltb 0 result p, lt→ltb result (2 ^ 31) r)
      (
        record {
          result_at = word result (omega arith);
          mode_at = word st.mode s.mode_fits;
          attr_at = word st.attr s.attr_fits;
          size_at = rw (word st.size s.size_fits, word st.hisize s.hisize_fits) refl;
        },
        let m : u16 (length name) ≡ length name = omega arith in
            rw (half (u16 (length name)) (omega arith), m) (take_name name),
        omega (arith, padded name),
      )
