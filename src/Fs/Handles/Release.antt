-- ===== src/Fs/Handles/Release.antt =====
-- internal/fs/handles.go and Shutdown of backend.go: what freeHandle and Shutdown close, and the handles
-- at which the lookups panic.
use udpfsd.Common.{
  ℕ, zero, suc, ◌+◌, ◌-◌, ◌^◌, ◌<◌, ◌≤◌, ◌≡◌, ◌≢◌, inl, inr, refl, sym, ap, ◌∙◌, arith, false,
  Option, none, some, List, [], ◌∷◌, ◌++◌, append-nil, append_assoc, max, Option-cases, leb, ◌==◌,
  update, ok, panic, Returns, Returns-ok, Returns-bind, Returns-imp, lt_or_le, subst, ◌>>=◌,
}
use udpfsd.Fs.Handles.{
  Handle, Backend, slot_of, get_file, get_dir, free_slot, free_handle, set_handle, close_handle,
  shutdown_loop, shutdown,
}
use udpfsd.Fs.Handles.Allocation.{slot_of-in}

slot_of-out : (n : ℕ) → 64 < n → slot_of n ≡ none
unfolding slot_of
slot_of-out n h = ground arith

-- A client that names a handle above 64 makes `freeHandle`, `getFile` (where it is not negative) and
-- `getDir` panic.
pub handle_out_of_range :
    (n now : ℕ) (b : Backend)
    → 64 < n
    → n < 2 ^ 31
    → (free_handle n b ≡ panic) × (get_file n now b ≡ panic) × (get_dir n now b ≡ panic)
unfolding free_handle get_file get_dir
handle_out_of_range n now b h small =
    let out = slot_of-out n h in
    let positive : leb (2 ^ 31) n ≡ false = ground arith in
    let some_handle : (n == 0) ≡ false = ground arith in
    (
      rw (free_handle, some_handle, out),
      rw (get_file, positive, some_handle, out),
      rw (get_dir, out),
    )

abbrev pub in_slot : Option Handle → List Handle
in_slot none = []
in_slot (some h) = h ∷ []

-- What the `n` slots from the i-th on hold
abbrev pub held : ℕ → ℕ → (ℕ → Option Handle) → List Handle
held zero i f = []
held (suc n) i f = in_slot (f i) ++ held n (i + 1) f

held-same :
    (n i : ℕ) (f g : ℕ → Option Handle) → ((j : ℕ) → i ≤ j → f j ≡ g j) → held n i f ≡ held n i g
held-same zero i f g e = refl
held-same (suc n) i f g e =
    rw (e i (omega arith))
      (ap (λ l. in_slot (g i) ++ l) (held-same n (i + 1) f g (λ j le. e j (omega arith))))

-- What closing handle `n` leaves
record Freed (n : ℕ) (b c : Backend) : Type 0 where
  empty : c.handles (n - 1) ≡ none
  others : (j : ℕ) → j ≢ n - 1 → c.handles j ≡ b.handles j
  closes : c.closed ≡ b.closed ++ in_slot (b.handles (n - 1))

free_slot-empty : (i : ℕ) (b : Backend) → b.handles i ≡ none → free_slot i b ≡ b
free_slot-empty i b e = rw (free_slot, e)

free_slot-some :
    (i : ℕ) (b : Backend) {h : Handle}
    → b.handles i ≡ some h
    → free_slot i b ≡ set_handle i none (close_handle h b)
free_slot-some i b e = rw (free_slot, e)

free_slot-Freed : (n : ℕ) (b : Backend) → Freed n b (free_slot (n - 1) b)
free_slot-Freed n b = elim (Option-cases (b.handles (n - 1))) [
  | inl e ↦
      subst (λ c. Freed n b c) (sym (free_slot-empty (n - 1) b e))
        (record { empty = e; others = λ j o. refl; closes = nothing_held e })
  | inr (h, e) ↦
      subst (λ c. Freed n b c) (sym (free_slot-some (n - 1) b e))
        (record {
          empty = at_index (n - 1) b.handles;
          others = λ j o. off_index (n - 1) j b.handles o;
          closes = ap (λ o. b.closed ++ in_slot o) (sym e);
        })
]
  where
    nothing_held : b.handles (n - 1) ≡ none → b.closed ≡ b.closed ++ in_slot (b.handles (n - 1))
    nothing_held e = sym (append-nil b.closed) ∙ ap (λ o. b.closed ++ in_slot o) (sym e)

    at_index : (i : ℕ) (f : ℕ → Option Handle) → update f i none i ≡ none
    at_index i f = ground arith

    off_index : (i j : ℕ) (f : ℕ → Option Handle) → j ≢ i → update f i none j ≡ f j
    off_index i j f o = ground arith

free_handle-Freed : (n : ℕ) (b : Backend) → 1 ≤ n → n ≤ 64 → Returns (Freed n b) (free_handle n b)
unfolding free_handle
free_handle-Freed n b low high =
    let some_handle : (n == 0) ≡ false = ground arith in
    subst (λ o. Returns (Freed n b) o) (sym (rw (free_handle, some_handle, slot_of-in n low high)))
      (Returns-ok _ (free_slot-Freed n b))

-- What the loop of `Shutdown` leaves, which frees the handles from `fd` up to before `end`
record Closed (fd end : ℕ) (b c : Backend) : Type 0 where
  emptied : (j : ℕ) → fd ≤ j + 1 → j + 1 < end → c.handles j ≡ none
  last : (j : ℕ) → end ≤ j + 1 → c.handles j ≡ b.handles j
  before : (j : ℕ) → j + 1 < fd → c.handles j ≡ b.handles j
  closes : c.closed ≡ b.closed ++ held (end - max fd 1) (fd - 1) b.handles

Closed-zero : (end : ℕ) (b : Backend) {c : Backend} → Closed 1 end b c → Closed 0 end b c
Closed-zero end b k = record {
  emptied = λ j le lt. k.emptied j (omega arith) lt;
  last = k.last;
  before = λ j lt. absurd (omega arith);
  closes = k.closes;
}

Closed-cons :
    (n end : ℕ) {b c d : Backend}
    → 1 ≤ n
    → n < end
    → Freed n b c
    → Closed (n + 1) end c d
    → Closed n end b d
Closed-cons n end {b} {c} {d} low lt f k = record {
  emptied = λ j le small. elim (lt_or_le n (j + 1)) [
    | inl after ↦ k.emptied j (omega arith) small
    | inr here ↦
        let e : j ≡ n - 1 = omega arith in k.before j (omega arith) ∙ ap c.handles e ∙ f.empty
  ];
  last = λ j le. k.last j le ∙ f.others j (omega arith);
  before = λ j small. k.before j (omega arith) ∙ f.others j (omega arith);
  closes =
      let m : end - max n 1 ≡ suc (end - max (n + 1) 1) = omega arith in
      let a : max (n + 1) 1 ≡ max n 1 + 1 = omega arith in
      let i : n + 1 - 1 ≡ n - 1 + 1 = omega arith in
      k.closes
      ∙ ap (λ l. l ++ held (end - max (n + 1) 1) (n + 1 - 1) c.handles) f.closes
      ∙ append_assoc b.closed (in_slot (b.handles (n - 1))) _
      ∙ ap (λ l. b.closed ++ (in_slot (b.handles (n - 1)) ++ l))
          (ap (λ j. held (end - max (n + 1) 1) j c.handles) i
            ∙ held-same (end - max (n + 1) 1) (n - 1 + 1) c.handles b.handles
                (λ j le. f.others j (omega arith)))
      ∙ ap (λ q. b.closed ++ held q (n - 1) b.handles) (sym m);
}

free_handle-zero : (b : Backend) → free_handle 0 b ≡ ok b
unfolding free_handle
free_handle-zero b = refl

shutdown_loop-Closed :
    (n fd end : ℕ) (b : Backend)
    → fd + n ≡ end
    → end ≤ 64
    → Returns (Closed fd end b) (shutdown_loop n fd b)
unfolding shutdown_loop
shutdown_loop-Closed zero fd end b e h = Returns-ok b (record {
  emptied = λ j le lt. absurd (omega arith);
  last = λ j le. refl;
  before = λ j lt. refl;
  closes = let z : end - max fd 1 ≡ 0 = omega arith in rw z (sym (append-nil b.closed));
})
shutdown_loop-Closed (suc n) zero end b e h =
    subst (λ o. Returns (Closed 0 end b) (o >>= shutdown_loop n 1)) (sym (free_handle-zero b))
      (Returns-imp (λ c k. Closed-zero end b k) (shutdown_loop-Closed n 1 end b (omega arith) h))
shutdown_loop-Closed (suc n) (suc m) end b e h =
    Returns-bind {P = Freed (suc m) b} _ _ (free_handle-Freed (suc m) b (omega arith) (omega arith))
      (λ c f.
        Returns-imp (λ d k. Closed-cons (suc m) end (omega arith) (omega arith) f k)
          (shutdown_loop-Closed n (suc m + 1) end c (omega arith) h))

-- What `Shutdown` leaves
pub record IsShutdown (b c : Backend) : Type 0 where
  pub emptied : (j : ℕ) → j < 63 → c.handles j ≡ none
  pub last : c.handles 63 ≡ b.handles 63
  pub closes : c.closed ≡ b.closed ++ held 63 0 b.handles

-- `Shutdown` closes each file and directory of the handles 1 to 63, in their order, and no other, and
-- empties their slots; it leaves handle 64 as it is.
pub shutdown_lem : (b : Backend) → Returns (IsShutdown b) (shutdown b)
unfolding shutdown
shutdown_lem b =
    Returns-imp
      (λ c k. record {
        emptied = λ j lt. k.emptied j (omega arith) (omega arith);
        last = k.last 63 (omega arith);
        closes = k.closes;
      })
      (shutdown_loop-Closed 64 0 64 b (omega arith) (omega arith))
