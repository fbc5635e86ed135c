-- ===== src/Buffers/Unique.antt =====
-- A block is in one buffer at most.
use oskernel.Prelude.{
  ltb, leb, ◌==◌, if◌then◌else◌, Bool-cases, Option-cases, update, update_self, update_ne, Run, ok,
  panic, ℕ, zero, suc, ◌+◌, ◌-◌, ◌<◌, ◌≡◌, refl, sym, ap, ◌∙◌, subst, ◌≢◌, inl, inr, true, false,
  ◌&&◌, List, [], ◌∷◌, ◌++◌, arith, ℕ_discrete,
}
use oskernel.Param.{n_buf}
use oskernel.Buffers.{
  Buffer, Cache, holds, binit_from, binit, cached, unused, bread, remove, brelse,
}
use oskernel.Buffers.Search.{
  count, count_first, count_empty, cached-some, cached-none, AllHeld, unused-none, unused-some,
  count-remove,
}

-- Each buffer stands once in the ring, and two buffers do not hold one block of a device (device 0,
-- which no block is read from, is that of the buffers not used yet).
pub record IsCache (c : Cache) : Type 0 where
  pub once : (i : ℕ) → count i c.ring ≡ (if ltb i n_buf then 1 else 0)
  pub unique :
      (i j dev bno : ℕ)
      → i < n_buf
      → j < n_buf
      → dev ≢ 0
      → holds (c.buf i) dev bno ≡ true
      → holds (c.buf j) dev bno ≡ true
      → i ≡ j

-- The cache holds the block in buffer `b`, to which there is a reference.
pub record Holds (c : Cache) (b dev bno : ℕ) : Type 0 where
  pub in_range : b < n_buf
  pub right : holds (c.buf b) dev bno ≡ true
  pub referenced : 0 < (c.buf b).refcnt

-- What `bread` does.
pub data Reads (disk : ℕ → ℕ → ℕ) (c : Cache) (dev bno : ℕ) (r : Run (ℕ × Cache)) : Type 0 where
  hits :
      (b : ℕ)
      → holds (c.buf b) dev bno ≡ true
      → (c' : Cache) → r ≡ ok (b, c')
      → IsCache c'
      → Holds c' b dev bno
      → c'.buf b ≡ record (c.buf b) { refcnt = (c.buf b).refcnt + 1 }
      → ((j : ℕ) → b ≢ j → c'.buf j ≡ c.buf j)
      → c'.ring ≡ c.ring
      → Reads disk c dev bno r
  misses :
      (b : ℕ)
      → ((i : ℕ) → i < n_buf → holds (c.buf i) dev bno ≡ false)
      → (c.buf b).refcnt ≡ 0
      → (front back : List ℕ) → c.ring ≡ front ++ b ∷ back
      → AllHeld c.buf back
      → (c' : Cache) → r ≡ ok (b, c')
      → IsCache c'
      → Holds c' b dev bno
      → (c'.buf b).content ≡ disk dev bno
      → (c'.buf b).refcnt ≡ 1
      → ((j : ℕ) → b ≢ j → c'.buf j ≡ c.buf j)
      → c'.ring ≡ c.ring
      → Reads disk c dev bno r
  full :
      ((i : ℕ) → i < n_buf → holds (c.buf i) dev bno ≡ false)
      → AllHeld c.buf c.ring
      → r ≡ panic "no buffers"
      → Reads disk c dev bno r

in_ring : (c : Cache) (b : ℕ) → IsCache c → 0 < count b c.ring → b < n_buf
in_ring c b inv m = ground (arith, m, inv.once b)

ringed : (c : Cache) (b : ℕ) → IsCache c → b < n_buf → 0 < count b c.ring
ringed c b inv m = ground (arith, m, inv.once b)

-- Changing the count of a buffer changes nothing that the invariant speaks of.
holds-update :
    (buf : ℕ → Buffer) (b n i dev bno : ℕ)
    → holds (update buf b (record (buf b) { refcnt = n }) i) dev bno ≡ holds (buf i) dev bno
holds-update buf b n i dev bno = elim (ℕ_discrete b i) [
  | yes e ↦
      subst
        (λ x.
          holds (update buf b (record (buf b) { refcnt = n }) x) dev bno ≡ holds (buf x) dev bno)
        e (ap (λ (a : Buffer). holds a dev bno) (update_self buf b (record (buf b) { refcnt = n })))
  | no ne ↦
      ap (λ (a : Buffer). holds a dev bno) (update_ne buf b (record (buf b) { refcnt = n }) i ne)
]

pub count-IsCache :
    (c : Cache) (b n : ℕ) (ring : List ℕ)
    → IsCache c
    → ((i : ℕ) → count i ring ≡ count i c.ring)
    → IsCache (record { buf = update c.buf b (record (c.buf b) { refcnt = n }); ring = ring })
count-IsCache c b n ring inv same = record {
  once = λ i. same i ∙ inv.once i;
  unique = λ i j dev bno li lj real hi hj.
      inv.unique i j dev bno li lj real (sym (holds-update c.buf b n i dev bno) ∙ hi)
        (sym (holds-update c.buf b n j dev bno) ∙ hj);
}

holds_moved :
    (buf : ℕ → Buffer) (b : ℕ) (a : Buffer) (i dev bno : ℕ)
    → b ≡ i
    → holds (update buf b a i) dev bno ≡ holds a dev bno
holds_moved buf b a i dev bno e =
    subst (λ x. holds (update buf b a x) dev bno ≡ holds a dev bno) e
      (ap (λ (z : Buffer). holds z dev bno) (update_self buf b a))

holds_stays :
    (buf : ℕ → Buffer) (b : ℕ) (a : Buffer) (i dev bno : ℕ)
    → b ≢ i
    → holds (update buf b a i) dev bno ≡ holds (buf i) dev bno
holds_stays buf b a i dev bno ne = ap (λ (z : Buffer). holds z dev bno) (update_ne buf b a i ne)

-- Filling a buffer with a block that none holds.
fill-IsCache :
    (c : Cache) (b : ℕ) (filled : Buffer)
    → IsCache c
    → ((i : ℕ) → i < n_buf → holds (c.buf i) filled.dev filled.bno ≡ false)
    → IsCache (record c { buf = update c.buf b filled })
fill-IsCache c b filled inv absent =
    let clash : (i dev bno : ℕ)
        → i < n_buf
        → holds filled dev bno ≡ true
        → holds (c.buf i) dev bno ≢ true =
      λ i dev bno li h hi. ground (arith, h, hi, absent i li) in
    record {
      once = inv.once;
      unique = λ i j dev bno li lj real hi hj. elim (ℕ_discrete b i) [
        | yes p ↦ elim (ℕ_discrete b j) [
          | yes q ↦ sym p ∙ q
          | no q ↦ absurd (
              clash j dev bno lj (sym (holds_moved c.buf b filled i dev bno p) ∙ hi)
                (sym (holds_stays c.buf b filled j dev bno q) ∙ hj))
        ]
        | no p ↦ elim (ℕ_discrete b j) [
          | yes q ↦ absurd (
              clash i dev bno li (sym (holds_moved c.buf b filled j dev bno q) ∙ hj)
                (sym (holds_stays c.buf b filled i dev bno p) ∙ hi))
          | no q ↦
              inv.unique i j dev bno li lj real (sym (holds_stays c.buf b filled i dev bno p) ∙ hi)
                (sym (holds_stays c.buf b filled j dev bno q) ∙ hj)
        ]
      ];
    }

-- `bread`, on a cache where no block is in two buffers, keeps it so, and returns a buffer with the
-- block: the one that has the block already, with its content and one reference more than before, or
-- else the free one that was used least recently, with the content from the disk and one reference.
-- The other buffers and the order of use stay. It panics when no buffer has the block and all are
-- referenced.
pub bread-Reads :
    (disk : ℕ → ℕ → ℕ) (c : Cache) (dev bno : ℕ)
    → IsCache c
    → dev ≢ 0
    → Reads disk c dev bno (bread disk c dev bno)
unfolding bread
bread-Reads disk c dev bno inv real = elim (Option-cases (cached c.buf dev bno c.ring)) [
  | inr (b, r) ↦
      let (m, h) = cached-some c.buf dev bno c.ring b r in
      let more : Buffer = record (c.buf b) { refcnt = (c.buf b).refcnt + 1 } in
      let self = update_self c.buf b more in
      rw (r, bread)
        (hits b h (record c { buf = update c.buf b more }) refl
          (count-IsCache c b ((c.buf b).refcnt + 1) c.ring inv (λ i. refl))
          (record {
            in_range = in_ring c b inv m;
            right = holds-update c.buf b ((c.buf b).refcnt + 1) b dev bno ∙ h;
            referenced = rw self (omega arith);
          })
          self (λ j ne. update_ne c.buf b more j ne) refl)
  | inl r ↦
      let absent : (i : ℕ) → i < n_buf → holds (c.buf i) dev bno ≡ false =
        λ i lt. cached-none c.buf dev bno c.ring i r (ringed c i inv lt) in
      elim (Option-cases (unused c.buf c.ring)) [
        | inl u ↦ rw (r, bread) (rw (u, bread) (full absent (unused-none c.buf c.ring u) refl))
        | inr (b, u) ↦
            let (free, m, front, back, split, held) = unused-some c.buf c.ring b u in
            let filled : Buffer = record {
              valid = true;
              dev = dev;
              bno = bno;
              refcnt = 1;
              content = disk dev bno;
            } in
            let self = update_self c.buf b filled in
            misses b absent free front back split held (record c { buf = update c.buf b filled })
              (rw (r, bread) (rw (u, bread) refl)) (fill-IsCache c b filled inv absent)
              (record {
                in_range = in_ring c b inv m;
                right = holds_moved c.buf b filled b dev bno refl ∙ ground arith;
                referenced = rw self (omega arith);
              })
              (ap (λ (a : Buffer). a.content) self) (ap (λ (a : Buffer). a.refcnt) self)
              (λ j ne. update_ne c.buf b filled j ne) refl
      ]
]

-- Releasing a buffer that is in the cache keeps the invariant; a buffer without references becomes the
-- most recently used one, and the order of the others stays.
pub brelse-IsCache :
    (c : Cache) (b : ℕ)
    → IsCache c
    → b < n_buf
    → let c' = brelse c b in
      IsCache c'
      × ((c'.buf b).refcnt ≡ (c.buf b).refcnt - 1)
      × (c'.ring ≡ (if (c.buf b).refcnt - 1 == 0 then b ∷ remove b c.ring else c.ring))
unfolding brelse
brelse-IsCache c b inv lt =
    let n = (c.buf b).refcnt - 1 in
    let moved : (i : ℕ) → count i (b ∷ remove b c.ring) ≡ count i c.ring = λ i.
      elim (ℕ_discrete b i) [
        | yes e ↦
            ground
              (arith, count-remove b i c.ring, inv.once i, e, count_first b i (remove b c.ring))
        | no ne ↦ ground (arith, count-remove b i c.ring, ne, count_first b i (remove b c.ring))
      ] in
    let refs =
      ap (λ (a : Buffer). a.refcnt) (update_self c.buf b (record (c.buf b) { refcnt = n })) in
    (
      elim (Bool-cases (n == 0)) [
        | inl last ↦ rw last (count-IsCache c b n (b ∷ remove b c.ring) inv moved)
        | inr shared ↦ rw shared (count-IsCache c b n c.ring inv (λ i. refl))
      ],
      refs,
      refl,
    )

-- What the loop of `binit` does to the ring and the devices.
binit_from-count :
    (k i : ℕ) (c : Cache) (j : ℕ)
    → let c' = binit_from k i c in
      (count j c'.ring ≡ count j c.ring + (if leb i j && ltb j (i + k) then 1 else 0))
      × ((c'.buf j).dev ≡ (c.buf j).dev)
unfolding binit_from
binit_from-count zero i c j = (ground arith, refl)
binit_from-count (suc k) i c j =
    let cleared : Buffer = record (c.buf i) { refcnt = 0; valid = false } in
    let c1 : Cache = record { buf = update c.buf i cleared; ring = i ∷ c.ring } in
    let (counts, dev) = binit_from-count k (i + 1) c1 j in
    let same : (update c.buf i cleared j).dev ≡ (c.buf j).dev = elim (ℕ_discrete i j) [
      | yes e ↦
          subst (λ x. (update c.buf i cleared x).dev ≡ (c.buf x).dev) e
            (ap (λ (a : Buffer). a.dev) (update_self c.buf i cleared))
      | no ne ↦ ap (λ (a : Buffer). a.dev) (update_ne c.buf i cleared j ne)
    ] in
    (
      elim (ℕ_discrete i j) [
        | yes e ↦ ground (arith, counts, count_first i j c.ring, e)
        | no ne ↦ ground (arith, counts, count_first i j c.ring, ne)
      ],
      dev ∙ same,
    )

-- `binit`, on zeroed memory, makes a cache that keeps the invariant.
pub binit-IsCache : (buf : ℕ → Buffer) → ((i : ℕ) → (buf i).dev ≡ 0) → IsCache (binit buf)
unfolding binit
binit-IsCache buf zeroed =
    let start : Cache = record { buf = buf; ring = [] } in
    record {
      once = λ j. (binit_from-count n_buf 0 start j).0 ∙ ground (arith, count_empty j);
      unique = λ i j dev bno li lj real hi hj.
          ground (arith, hi, real, (binit_from-count n_buf 0 start i).1, zeroed i);
    }
