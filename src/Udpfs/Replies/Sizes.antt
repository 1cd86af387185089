-- ===== src/Udpfs/Replies/Sizes.antt =====
-- udpfs/utils.go: the sizes of the replies.
use udpfsd.Common.{
  ℕ, ◌+◌, ◌-◌, ◌*◌, ◌/◌, ◌≤◌, ◌≡◌, refl, arith, Bool, true, false, List, [], ◌∷◌, if◌then◌else◌,
  length, length-append, length-replicate, replicate,
}
use udpfsd.Udpfs.Replies.{
  StatInfo, pack_open_reply, pack_close_reply, pack_result_reply, pack_write_done, pack_lseek_reply,
  pack_dread_reply, pack_getstat_reply, terminated, padded_name,
}

pub length-pack_open_reply : (h : ℕ) (st : StatInfo) → length (pack_open_reply h st) ≡ 44
unfolding pack_open_reply
length-pack_open_reply h st = refl

pub length-pack_close_reply : (r : ℕ) → length (pack_close_reply r) ≡ 8
unfolding pack_close_reply
length-pack_close_reply r = refl

pub length-pack_result_reply : (r : ℕ) → length (pack_result_reply r) ≡ 8
unfolding pack_result_reply
length-pack_result_reply r = refl

pub length-pack_write_done : (r : ℕ) → length (pack_write_done r) ≡ 8
unfolding pack_write_done
length-pack_write_done r = refl

pub length-pack_lseek_reply : (p : ℕ) → length (pack_lseek_reply p) ≡ 12
unfolding pack_lseek_reply
length-pack_lseek_reply p = refl

pub length-pack_getstat_reply : (r : ℕ) (st : StatInfo) → length (pack_getstat_reply r st) ≡ 48
unfolding pack_getstat_reply
length-pack_getstat_reply r st = refl

length-terminated : (name : List ℕ) → length (terminated name) ≤ length name + 1
length-terminated [] = omega arith
length-terminated (x ∷ xs) = grind (arith, length-append (x ∷ xs) (0 ∷ []))

length-padded_name : (name : List ℕ) → length (padded_name name) ≤ length name + 4
length-padded_name name =
    let t = terminated name in
    let n = (length t + 3) / 4 * 4 - length t in
    let a : length (padded_name name) ≡ length t + length (replicate {A = ℕ} n 0) =
      length-append t (replicate n 0) in
    omega (arith, length-replicate {A = ℕ} n 0, length-terminated name, a)

part_size :
    (b : Bool) (name : List ℕ) → length (if b then padded_name name else []) ≤ length name + 4
part_size true name = length-padded_name name
part_size false name = omega arith

pub length-pack_dread_reply :
    (r : ℕ) (name : List ℕ) (st : StatInfo) → length (pack_dread_reply r name st) ≤ length name + 52
unfolding pack_dread_reply
length-pack_dread_reply r name st = omega (arith, part_size _ name)
