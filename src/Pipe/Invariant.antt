-- ===== src/Pipe/Invariant.antt =====
-- The ring of a pipe as the bytes that it holds, oldest first.
use oskernel.Prelude.{
  Bool-cases, Option-cases, update, update_ne, length, ℕ, zero, suc, ◌+◌, ◌-◌, ◌%◌, ◌<◌, ◌≡◌, refl,
  sym, ap, ◌∙◌, subst, ◌⊎◌, inl, inr, Bool, true, false, not, ◌||◌, Option, none, some, List, [],
  ◌∷◌, ◌++◌, append-nil, append_assoc, arith,
}
use oskernel.Pipe.{
  pipe_size, Pipe, Chan, Stop, failed, returned, sleeping, Outcome, read_loop, pipe_read, put,
  is_full, write_loop,
}

-- Both indices stand inside `data`.
pub record IsValid (p : Pipe) : Type 0 where
  pub r_in : p.r < pipe_size
  pub w_in : p.w < pipe_size

-- The `n` bytes from index `h` on, round the end of the array.
abbrev pub window : (ℕ → ℕ) → ℕ → ℕ → List ℕ
window f h zero = []
window f h (suc n) = f h ∷ window f ((h + 1) % pipe_size) n

abbrev pub count : Pipe → ℕ
count p = (p.w + pipe_size - p.r) % pipe_size

abbrev pub contents : Pipe → List ℕ
contents p = window p.ring p.r (count p)

pub length-window : (f : ℕ → ℕ) (h n : ℕ) → length (window f h n) ≡ n
length-window f h zero = refl
length-window f h (suc n) = ap suc (length-window f ((h + 1) % pipe_size) n)

-- `window` matches on `suc`, the code tests `r == w`.
pub window_of_pos :
    (f : ℕ → ℕ) (h n : ℕ) → 0 < n → window f h n ≡ f h ∷ window f ((h + 1) % pipe_size) (n - 1)
window_of_pos f h zero p = absurd (omega arith)
window_of_pos f h (suc n) p = ap (λ k. window f h (suc k)) (omega arith)

-- A byte written just past a window that does not fill the ring extends the window.
pub window-update :
    (f : ℕ → ℕ) (c h n i m : ℕ)
    → h < pipe_size
    → n < pipe_size
    → i ≡ (h + n) % pipe_size
    → m ≡ n + 1
    → window (update f i c) h m ≡ window f h n ++ (c ∷ [])
window-update f c h n i zero hh hn e em = absurd (omega arith)
window-update f c h zero i (suc m) hh hn e em =
    let e' : i ≡ h = omega arith in let m' : m ≡ 0 = omega arith in rw m' (ground arith)
window-update f c h (suc n) i (suc m) hh hn e em = ground (
  arith,
  update_ne f i c h (λ q. omega arith),
  window-update f c ((h + 1) % pipe_size) n i m (omega arith) (omega arith) (omega arith)
      (omega arith),
)

pub contents-put :
    {p : Pipe} (c : ℕ) → IsValid p → is_full p ≡ false → contents (put p c) ≡ contents p ++ (c ∷ [])
contents-put {p} c v free =
    window-update p.ring c p.r (count p) p.w (count (put p c)) (omega arith) (omega arith)
      (omega arith) (ground arith)

pub read_loop-IsValid :
    (copies : ℕ → Bool) (n i : ℕ) {p : Pipe} → IsValid p → IsValid (read_loop copies n i p).1
unfolding read_loop
read_loop-IsValid copies zero i v = v
read_loop-IsValid copies (suc n) i {p} v = ground (
  arith,
  read_loop-IsValid copies n (i + 1) {p = record p { r = (p.r + 1) % pipe_size }} (omega arith),
)

-- `cs` are the bytes that `copy_in` reads from byte `i` on.
abbrev pub IsFrom : (ℕ → Option ℕ) → ℕ → List ℕ → Type 0
IsFrom src i [] = Unit {0}
IsFrom src i (c ∷ cs) = (src i ≡ some c) × IsFrom src (i + 1) cs

-- Why a write that has come to byte `e` of `total` stops there, and with which result.
abbrev pub Ends : (ℕ → Bool) → (ℕ → Option ℕ) → ℕ → ℕ → Pipe → Stop → Type 0
Ends killed src total e q failed = (q.read_open ≡ false) ⊎ (killed e ≡ true)
Ends killed src total e q (returned k) = (k ≡ e) × ((k ≡ total) ⊎ (src k ≡ none))
Ends killed src total e q (sleeping k) =
    (k ≡ e) × (k < total) × (is_full q ≡ true) × (q.read_open ≡ true)

pub record Wrote (killed : ℕ → Bool) (src : ℕ → Option ℕ) (total i : ℕ) (p : Pipe) (out : Outcome)
    : Type 0 where
  pub valid : IsValid out.pipe
  pub appended : contents out.pipe ≡ contents p ++ out.moved
  pub sourced : IsFrom src i out.moved
  pub ends : Ends killed src total (i + length out.moved) out.pipe out.stop

stopped :
    (killed : ℕ → Bool) (src : ℕ → Option ℕ) (total i : ℕ) {p : Pipe} (stop : Stop)
    (woken : List Chan)
    → IsValid p
    → Ends killed src total i p stop
    → Wrote killed src total i p (record { stop = stop; moved = []; woken = woken; pipe = p })
stopped killed src total i {p} stop woken v e =
    let same : i ≡ i + 0 = omega arith in
    record {
      valid = v;
      appended = sym (append-nil (contents p));
      sourced = tt;
      ends = subst (λ k. Ends killed src total k p stop) same e;
    }

pub write_loop-Wrote :
    (killed : ℕ → Bool) (src : ℕ → Option ℕ) (n i total : ℕ) {p : Pipe}
    → IsValid p
    → i + n ≡ total
    → Wrote killed src total i p (write_loop killed src n i p)
unfolding write_loop
write_loop-Wrote killed src zero i total v e =
    stopped killed src total i (returned i) _ v (refl, inl (omega arith))
write_loop-Wrote killed src (suc n) i total {p} v e =
    elim (Bool-cases (not p.read_open || killed i)) [
      | inl bad ↦ rw bad (stopped killed src total i failed _ v (ground arith))
      | inr good ↦ elim (Bool-cases (is_full p)) [
        | inl full ↦
            rw (good, full)
              (stopped killed src total i (sleeping i) _ v (refl, omega arith, full, ground arith))
        | inr free ↦ elim (Option-cases (src i)) [
          | inl fault ↦
              rw (good, free, fault) (stopped killed src total i (returned i) _ v (refl, inr fault))
          | inr (c, byte) ↦
              let rest =
                write_loop-Wrote killed src n (i + 1) total {p = put p c} (omega arith)
                  (omega arith) in
              let out = write_loop killed src n (i + 1) (put p c) in
              let shift : i + 1 + length out.moved ≡ i + suc (length out.moved) = omega arith in
              rw (good, free, byte)
                (record {
                  valid = rest.valid;
                  appended =
                      rest.appended
                      ∙ ap (λ l. l ++ out.moved) (contents-put c v free)
                      ∙ append_assoc (contents p) (c ∷ []) out.moved;
                  sourced = (byte, rest.sourced);
                  ends = subst (λ k. Ends killed src total k out.pipe out.stop) shift rest.ends;
                })
        ]
      ]
    ]

-- What a run leaves of a valid pipe is valid.
pub pipe_read-IsValid :
    (killed : Bool) (copies : ℕ → Bool) (n : ℕ) {p : Pipe}
    → IsValid p
    → IsValid (pipe_read killed copies n p).pipe
unfolding pipe_read
pipe_read-IsValid killed copies n v = ground (arith, read_loop-IsValid copies n 0 v)
