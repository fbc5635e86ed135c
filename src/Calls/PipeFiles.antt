-- ===== src/Calls/PipeFiles.antt =====
-- The files of `pipe_alloc`.
use oskernel.Prelude.{
  Option-cases, update, update_self, update_ne, Run, ok, ℕ, ◌+◌, ◌<◌, ◌≡◌, refl, sym, ap, ◌∙◌,
  subst, ◌≢◌, inl, inr, Bool, true, false, not, Option, some, List, [], ◌∷◌, arith, ℕ_discrete,
}
use oskernel.Param.{n_file}
use oskernel.Files.{fd_pipe, File, Table, Release, file_close}
use oskernel.Files.Counts.{names, file_close_counts}
use oskernel.Files.Dup.{table_full, fresh, file_alloc-Fresh}
use oskernel.Calls.Pipes.{pipe_end, PipeResult, made, refused, closes_wild, pipe_alloc}

-- An end of pipe `pi`, with one reference.
pub record IsEnd (f : File) (pi : ℕ) (writable : Bool) : Type 0 where
  pub type : f.type ≡ fd_pipe
  pub reads : f.readable ≡ not writable
  pub writes : f.writable ≡ writable
  pub pipe : f.pi ≡ some pi
  pub once : f.refcnt ≡ 1

-- `r` and `w` were free, and are the ends of pipe `pi` now; the other files stay.
pub record HasEnds (t t' : Table) (r w pi : ℕ) : Type 0 where
  pub differ : r ≢ w
  pub free_r : (t r).refcnt ≡ 0
  pub free_w : (t w).refcnt ≡ 0
  pub read_end : IsEnd (t' r) pi false
  pub write_end : IsEnd (t' w) pi true
  pub others : (g : ℕ) → r ≢ g → w ≢ g → t' g ≡ t g

-- The count of file `f` is one more than before.
taken_counts :
    (t : Table) (f g : ℕ)
    → (t f).refcnt ≡ 0
    → (update t f (record (t f) { refcnt = 1 }) g).refcnt ≡ (t g).refcnt + names (some f) g
taken_counts t f g free = elim (ℕ_discrete f g) [
  | yes e ↦ ground (arith, e, free, ap (λ i. (t i).refcnt) e)
  | no ne ↦ ground (arith, ne)
]

pub HasEnds-counts :
    {t t' : Table} {r w pi : ℕ}
    → HasEnds t t' r w pi
    → (g : ℕ) → (t' g).refcnt ≡ (t g).refcnt + names (some r) g + names (some w) g
HasEnds-counts {t} {t'} {r} {w} h g = elim (ℕ_discrete r g) [
  | yes e ↦
      subst (λ i. (t' i).refcnt ≡ (t i).refcnt + names (some r) i + names (some w) i) e
        (ground (arith, h.read_end.once, h.free_r, h.differ))
  | no ne ↦ elim (ℕ_discrete w g) [
    | yes e ↦
        subst (λ i. (t' i).refcnt ≡ (t i).refcnt + names (some r) i + names (some w) i) e
          (ground (arith, h.write_end.once, h.free_w, h.differ))
    | no ne' ↦ ground (arith, ap (λ (f : File). f.refcnt) (h.others g ne ne'), ne, ne')
  ]
]

-- Closing both ends, which nothing refers to but the caller, does not panic and takes them back.
pub close_both :
    (t : Table) (r w : ℕ)
    → r ≢ w
    → 0 < (t r).refcnt
    → 0 < (t w).refcnt
    → (a b : Release) × (t1 t2 : Table) × (file_close t r ≡ ok (a, t1))
      × (file_close t1 w ≡ ok (b, t2))
      × ((g : ℕ) → (t2 g).refcnt + names (some r) g + names (some w) g ≡ (t g).refcnt)
close_both t r w ne used_r used_w =
    let (a, t1, first, counts1) = file_close_counts t r used_r in
    let left : 0 < (t1 w).refcnt = ground (arith, counts1 w, ne, used_w) in
    let (b, t2, second, counts2) = file_close_counts t1 w left in
    (a, b, t1, t2, first, second, λ g. omega (arith, counts1 g, counts2 g))

-- What `pipe_alloc` does; where it gives files back, every count is what it was.
pub data Allocs (page : Option ℕ) (t : Table) (result : Run PipeResult) : Type 0 where
  no_file :
      result ≡ ok closes_wild → ((k : ℕ) → k < n_file → (t k).refcnt ≢ 0) → Allocs page t result
  gives_back :
      (released : List Release) (t' : Table)
      → result ≡ ok (refused released t')
      → ((g : ℕ) → (t' g).refcnt ≡ (t g).refcnt)
      → Allocs page t result
  makes :
      (r w pi : ℕ) (t' : Table)
      → result ≡ ok (made r w t')
      → page ≡ some pi
      → HasEnds t t' r w pi
      → Allocs page t result

IsEnd-stored :
    (t : Table) (f pi : ℕ) (writable : Bool)
    → (t f).refcnt ≡ 1
    → IsEnd (pipe_end t f writable pi f) pi writable
IsEnd-stored t f pi writable one =
    subst (λ x. IsEnd x pi writable) (sym (update_self t f _))
      (record { type = refl; reads = refl; writes = refl; pipe = refl; once = one })

ends_made :
    (t : Table) (r w pi : ℕ)
    → (t r).refcnt ≡ 0
    → (t w).refcnt ≡ 0
    → r ≢ w
    → let t1 = update t r (record (t r) { refcnt = 1 }) in
      let t2 = update t1 w (record (t1 w) { refcnt = 1 }) in
      HasEnds t (pipe_end (pipe_end t2 r false pi) w true pi) r w pi
ends_made t r w pi free_r free_w ne =
    let t1 : Table = update t r (record (t r) { refcnt = 1 }) in
    let t2 : Table = update t1 w (record (t1 w) { refcnt = 1 }) in
    let t3 : Table = pipe_end t2 r false pi in
    let one_r : (t2 r).refcnt ≡ 1 = ground (arith, ne) in
    let one_w : (t3 w).refcnt ≡ 1 = ground (arith, ne) in
    record {
      differ = ne;
      free_r = free_r;
      free_w = free_w;
      read_end =
          subst (λ x. IsEnd x pi false) (sym (update_ne t3 w _ r (λ e. ne (sym e))))
            (IsEnd-stored t2 r pi false one_r);
      write_end = IsEnd-stored t3 w pi true one_w;
      others = λ g nr nw.
          update_ne t3 w _ g nw
          ∙ (update_ne t2 r _ g nr ∙ (update_ne t1 w _ g nw ∙ update_ne t r _ g nr));
    }

pub pipe_alloc-Allocs : (page : Option ℕ) (t : Table) → Allocs page t (pipe_alloc page t)
unfolding pipe_alloc
pipe_alloc-Allocs page t = elim (file_alloc-Fresh t) [
  | table_full e all ↦ rw (e, pipe_alloc) (no_file refl (λ k lt. all k (omega arith) lt))
  | fresh r e lt free_r all ↦
      let t1 : Table = update t r (record (t r) { refcnt = 1 }) in
      let one_r : (t1 r).refcnt ≡ 1 = ap (λ (f : File). f.refcnt) (update_self t r _) in
      elim (file_alloc-Fresh t1) [
        | table_full e2 _ ↦
            let (a, t2, done, counts) = file_close_counts t1 r (omega (arith, one_r)) in
            rw (e, pipe_alloc)
              (rw (e2, pipe_alloc)
                (rw (done, pipe_alloc)
                  (gives_back (a ∷ []) t2 refl
                    (λ g. omega (arith, counts g, taken_counts t r g free_r)))))
        | fresh w e2 lt2 free_w1 _ ↦
            let t2 : Table = update t1 w (record (t1 w) { refcnt = 1 }) in
            let ne : r ≢ w = λ q. ground (arith, one_r, free_w1, ap (λ i. (t1 i).refcnt) q) in
            let free_w : (t w).refcnt ≡ 0 =
              ap (λ (f : File). f.refcnt) (sym (update_ne t r _ w ne)) ∙ free_w1 in
            elim (Option-cases page) [
              | inr (pi, p) ↦
                  rw (e, pipe_alloc)
                    (rw (e2, pipe_alloc)
                      (rw (p, pipe_alloc)
                        (makes r w pi _ refl refl (ends_made t r w pi free_r free_w ne))))
              | inl p ↦
                  let (a, b, t3, t4, first, second, counts) =
                    close_both t2 r w ne (ground (arith, one_r, ne)) (ground arith) in
                  rw (e, pipe_alloc)
                    (rw (e2, pipe_alloc)
                      (rw (p, pipe_alloc)
                        (rw (first, pipe_alloc)
                          (rw (second, pipe_alloc)
                            (gives_back (a ∷ b ∷ []) t4 refl (λ g. omega (
                              arith,
                              counts g,
                              taken_counts t r g free_r,
                              taken_counts t1 w g free_w1,
                            )))))))
            ]
      ]
]
