-- ===== src/Paging/Free.antt =====
-- The free pages are a stack.
use oskernel.Prelude.{
  ◌==◌, update, update_self, update_ne, All, All-map, ℕ, zero, suc, ◌+◌, ◌<◌, ◌≡◌, refl, sym, subst,
  ◌≢◌, ◌⊎◌, inl, inr, true, false, List, [], ◌∷◌, arith,
}
use oskernel.Paging.{page_size, Ram, pm_init_from, pm_alloc, pm_free}

-- The pages that are linked from `p` on.
pub data Chain (word : ℕ → ℕ) : ℕ → List ℕ → Type 0 where
  end : Chain word 0 []
  link : (p : ℕ) (ps : List ℕ) → p ≢ 0 → Chain word (word p) ps → Chain word p (p ∷ ps)

-- The free list of the memory is `pages`, the page freed last first.
abbrev pub IsFree : Ram → List ℕ → Type 0
IsFree m pages = Chain m.word m.head pages

-- A store outside the pages of a chain leaves it.
pub Chain-update :
    {word : ℕ → ℕ} {p : ℕ} {ps : List ℕ} (a v : ℕ)
    → Chain word p ps
    → All (λ q. a ≢ q) ps
    → Chain (update word a v) p ps
Chain-update a v end h = end
Chain-update {word} a v (link p ps ne rest) (here, h) = link p ps ne (
    subst (λ x. Chain (update word a v) x ps) (sym (update_ne word a v p here))
      (Chain-update a v rest h))

-- `pm_free` of a page that is not free makes it the first free page.
pub pm_free-IsFree :
    (m : Ram) (pages : List ℕ) (p : ℕ)
    → IsFree m pages
    → p ≢ 0
    → All (λ q. p ≢ q) pages
    → IsFree (pm_free m p) (p ∷ pages)
unfolding pm_free
pm_free-IsFree m pages p chain ne fresh = link p pages ne (
    subst (λ x. Chain (update m.word p m.head) x pages) (sym (update_self m.word p m.head))
      (Chain-update p m.head chain fresh))

-- What `pm_alloc` does when the free pages are `pages`.
pub data Takes (m : Ram) (pages : List ℕ) (r : ℕ × Ram) : Type 0 where
  exhausted : pages ≡ [] → r ≡ (0, m) → Takes m pages r
  takes :
      (p : ℕ) (ps : List ℕ)
      → pages ≡ p ∷ ps
      → r.0 ≡ p
      → p ≢ 0
      → IsFree r.1 ps
      → r.1.byte ≡ m.byte
      → Takes m pages r

Chain-cases :
    {word : ℕ → ℕ} {h : ℕ} {ps : List ℕ}
    → Chain word h ps
    → ((h ≡ 0) × (ps ≡ [])) ⊎ ((qs : List ℕ) × (ps ≡ h ∷ qs) × (h ≢ 0) × Chain word (word h) qs)
Chain-cases end = inl (refl, refl)
Chain-cases (link p qs ne rest) = inr (qs, refl, ne, rest)

-- `pm_alloc` takes the first free page, and returns 0 only when there is none.
pub pm_alloc-Takes : (m : Ram) (pages : List ℕ) → IsFree m pages → Takes m pages (pm_alloc m)
unfolding pm_alloc
pm_alloc-Takes m pages chain = elim (Chain-cases chain) [
  | inl (e, none_left) ↦
      let test : (m.head == 0) ≡ true = ground arith in rw test (exhausted none_left refl)
  | inr (qs, e, ne, rest) ↦
      let test : (m.head == 0) ≡ false = ground arith in
      rw test (takes m.head qs e refl ne rest refl)
]

-- The pages of `pm_init`, `k` from `ptr` on, the last one first.
pub pages_from : ℕ → ℕ → List ℕ → List ℕ
pages_from zero ptr ps = ps
pages_from (suc k) ptr ps = pages_from k (ptr + page_size) (ptr ∷ ps)

-- The loop of `pm_init` puts every page in front of the free ones; they lie below it.
pub pm_init-IsFree :
    (k ptr : ℕ) (m : Ram) (pages : List ℕ)
    → 0 < ptr
    → IsFree m pages
    → All (λ q. q < ptr) pages
    → IsFree (pm_init_from k ptr m) (pages_from k ptr pages)
unfolding pm_init_from pages_from pm_free
pm_init-IsFree zero ptr m pages positive chain below = chain
pm_init-IsFree (suc k) ptr m pages positive chain below =
    pm_init-IsFree k (ptr + page_size) (pm_free m ptr) (ptr ∷ pages) (omega arith)
      (pm_free-IsFree m pages ptr chain (λ e. omega arith)
        (All-map (λ q. q < ptr) (λ q. ptr ≢ q) pages (λ q lt e. omega arith) below))
      (
        omega arith,
        All-map (λ q. q < ptr) (λ q. q < ptr + page_size) pages (λ q lt. omega arith) below,
      )
