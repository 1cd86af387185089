-- ===== src/Udprdma/Window.antt =====
-- The send window of udprdma/session.go: which packets the ring holds, and how many.
pub mod Prune
pub mod Resend
pub mod Pack
use udpfsd.Common.{
  ℕ, zero, suc, ◌+◌, ◌-◌, ◌%◌, ◌<◌, ◌≤◌, ◌≡◌, arith, List, [], ◌∷◌, length, ap, ◌∙◌,
}
use udpfsd.Udprdma.Session.{TxPacket, Ring, Session, Metrics}

-- How many packets lie between the read and the write index
abbrev pub buffered : Ring → ℕ
buffered r = (r.write_index + 2048 - r.read_index) % 2048

-- How many sequence numbers lie after `acked` and before `tx`
abbrev pub outstanding : ℕ → ℕ → ℕ
outstanding tx acked = (tx + 4095 - acked) % 4096

abbrev pub advance : ℕ → ℕ → ℕ
advance i k = (i + k) % 2048

-- The `n` slots from `read` on hold the `n` sequence numbers before `tx`, in order.
abbrev pub IsContiguous : (ℕ → TxPacket) → ℕ → ℕ → ℕ → Type 0
IsContiguous slots read n tx =
    (k : ℕ) → k < n → (slots (advance read k)).seq ≡ (tx + 4096 - n + k) % 4096

-- The bytes of the `n` packets from `read` on
pub contents : (ℕ → TxPacket) → ℕ → ℕ → List (List ℕ)
contents slots read zero = []
contents slots read (suc n) = (slots read).bytes ∷ contents slots (advance read 1) n

pub length-contents : (slots : ℕ → TxPacket) (read n : ℕ) → length (contents slots read n) ≡ n
unfolding contents
length-contents slots read zero = omega arith
length-contents slots read (suc n) = omega (arith, length-contents slots (advance read 1) n)

-- The indices and numbers are in range; at most nine packets are buffered, and all but at most one of
-- them are outstanding; they are contiguous.
pub record IsQueue (r : Ring) (tx acked : ℕ) : Type 0 where
  pub read_in : r.read_index < 2048
  pub write_in : r.write_index < 2048
  pub tx_in : tx < 4096
  pub acked_in : acked < 4096
  pub few : buffered r ≤ 9
  pub within : buffered r ≤ outstanding tx acked + 1
  pub contiguous : IsContiguous r.slots r.read_index (buffered r) tx

pub IsContiguous-tail :
    (slots : ℕ → TxPacket) (read n tx : ℕ)
    → suc n < 2048
    → IsContiguous slots read (suc n) tx
    → IsContiguous slots (advance read 1) n tx
IsContiguous-tail slots read n tx small h k lt =
    ap (λ i. (slots i).seq) index ∙ h (suc k) (omega arith) ∙ omega arith
  where
    index : advance (advance read 1) k ≡ advance read (suc k)
    index = omega arith
