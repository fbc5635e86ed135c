-- ===== src/Inode/Table/Unique.antt =====
-- `iget`: an i-node is in one entry of the table at most.
use oskernel.Prelude.{
  Bool-cases, update, update_self, update_ne, Run, ok, panic, ℕ, zero, suc, ◌+◌, ◌≤◌, ◌<◌, ◌≡◌,
  refl, sym, ap, ◌∙◌, subst, ◌≢◌, ◌⊎◌, inl, inr, true, false, Option, none, some, arith, ℕ_discrete,
}
use oskernel.Param.{n_inode}
use oskernel.Inode.Table.{Entry, Table, is_node, Found, present, absent, or_this, find, iget}

-- What the loop finds in the entries from `i` to `end`.
pub data Finds (entry : ℕ → Entry) (dev ino i end : ℕ) (empty : Option ℕ) (r : Found) : Type 0 where
  here :
      (j : ℕ)
      → r ≡ present j
      → j < end
      → is_node (entry j) dev ino ≡ true
      → Finds entry dev ino i end empty r
  nowhere :
      (o : Option ℕ)
      → r ≡ absent o
      → ((j : ℕ) → i ≤ j → j < end → is_node (entry j) dev ino ≡ false)
      → ((j : ℕ) → o ≡ some j → (empty ≡ some j) ⊎ ((j < end) × ((entry j).refcnt ≡ 0)))
      → (o ≡ none → (empty ≡ none) × ((j : ℕ) → i ≤ j → j < end → (entry j).refcnt ≢ 0))
      → Finds entry dev ino i end empty r

or_this-some :
    (o : Option ℕ) (e : Entry) (i j : ℕ)
    → or_this o e i ≡ some j
    → (o ≡ some j) ⊎ ((i ≡ j) × (e.refcnt ≡ 0))
or_this-some (some k) e i j q = inl q
or_this-some none e i j q = inr (ground (arith, q), ground (arith, q))

or_this-none :
    (o : Option ℕ) (e : Entry) (i : ℕ) → or_this o e i ≡ none → (o ≡ none) × (e.refcnt ≢ 0)
or_this-none (some k) e i q = ground (arith, q)
or_this-none none e i q = (refl, ground (arith, q))

find-Finds :
    (entry : ℕ → Entry) (dev ino k i end : ℕ) (empty : Option ℕ)
    → i + k ≡ end
    → Finds entry dev ino i end empty (find entry dev ino k i empty)
unfolding find
find-Finds entry dev ino zero i end empty e =
    nowhere empty refl (λ j lo hi. absurd (omega arith)) (λ j q. inl q)
      (λ q. (q, λ j lo hi. absurd (omega arith)))
find-Finds entry dev ino (suc k) i end empty e = elim (Bool-cases (is_node (entry i) dev ino)) [
  | inl it ↦ rw it (here i refl (omega arith) it)
  | inr other ↦
      rw other
        (elim (find-Finds entry dev ino k (i + 1) end (or_this empty (entry i) i) (omega arith)) [
          | here j r lt h ↦ here j r lt h
          | nowhere o r all src full ↦
              nowhere o r
                (λ j lo hi. elim (ℕ_discrete i j) [
                  | yes q ↦ rw (← q) other
                  | no q ↦ all j (omega arith) hi
                ])
                (λ j q. elim (src j q) [
                  | inr found ↦ inr found
                  | inl p ↦ elim (or_this-some empty (entry i) i j p) [
                    | inl before ↦ inl before
                    | inr (same, free) ↦
                        inr (omega (arith, same), subst (λ x. (entry x).refcnt ≡ 0) same free)
                  ]
                ])
                (λ q.
                  let (none_before, others) = full q in
                  let (none_empty, used) = or_this-none empty (entry i) i none_before in
                  (
                    none_empty,
                    λ j lo hi. elim (ℕ_discrete i j) [
                      | yes same ↦ subst (λ x. (entry x).refcnt ≢ 0) same used
                      | no ne ↦ others j (omega arith) hi
                    ],
                  ))
        ])
]

-- Two entries in use are not for the same i-node.
pub record IsTable (t : Table) : Type 0 where
  pub unique :
      (i j dev ino : ℕ)
      → i < n_inode
      → j < n_inode
      → is_node (t.entry i) dev ino ≡ true
      → is_node (t.entry j) dev ino ≡ true
      → i ≡ j

-- What `iget` does.
pub data Gets (t : Table) (dev ino : ℕ) (r : Run (ℕ × Table)) : Type 0 where
  shares :
      (i : ℕ) (t' : Table)
      → r ≡ ok (i, t')
      → i < n_inode
      → is_node (t.entry i) dev ino ≡ true
      → IsTable t'
      → t'.entry i ≡ record (t.entry i) { refcnt = (t.entry i).refcnt + 1 }
      → ((j : ℕ) → i ≢ j → t'.entry j ≡ t.entry j)
      → Gets t dev ino r
  fills :
      (i : ℕ) (t' : Table)
      → r ≡ ok (i, t')
      → i < n_inode
      → ((j : ℕ) → j < n_inode → is_node (t.entry j) dev ino ≡ false)
      → (t.entry i).refcnt ≡ 0
      → IsTable t'
      → t'.entry i ≡ record (t.entry i) { dev = dev; ino = ino; refcnt = 1; valid = false }
      → ((j : ℕ) → i ≢ j → t'.entry j ≡ t.entry j)
      → Gets t dev ino r
  table_full :
      ((j : ℕ) → j < n_inode → ((t.entry j).refcnt ≢ 0) × (is_node (t.entry j) dev ino ≡ false))
      → r ≡ panic "no inodes"
      → Gets t dev ino r

node_moved :
    (entry : ℕ → Entry) (i : ℕ) (e : Entry) (j dev ino : ℕ)
    → i ≡ j
    → is_node (update entry i e j) dev ino ≡ is_node e dev ino
node_moved entry i e j dev ino q =
    subst (λ x. is_node (update entry i e x) dev ino ≡ is_node e dev ino) q
      (ap (λ z. is_node z dev ino) (update_self entry i e))

node_stays :
    (entry : ℕ → Entry) (i : ℕ) (e : Entry) (j dev ino : ℕ)
    → i ≢ j
    → is_node (update entry i e j) dev ino ≡ is_node (entry j) dev ino
node_stays entry i e j dev ino ne = ap (λ z. is_node z dev ino) (update_ne entry i e j ne)

-- A store to entry `i` keeps the invariant if the new entry is for an i-node that no other is for.
store-IsTable :
    (t : Table) (i : ℕ) (e : Entry)
    → IsTable t
    → ((j dev ino : ℕ)
        → j < n_inode
        → i ≢ j
        → is_node e dev ino ≡ true
        → is_node (t.entry j) dev ino ≡ false)
    → IsTable (record t { entry = update t.entry i e })
store-IsTable t i e inv alone =
    let clash : (j dev ino : ℕ)
        → j < n_inode
        → i ≢ j
        → is_node e dev ino ≡ true
        → is_node (t.entry j) dev ino ≢ true =
      λ j dev ino lj ne he h. ground (arith, h, alone j dev ino lj ne he) in
    record {
      unique = λ a b dev ino la lb ha hb. elim (ℕ_discrete i a) [
        | yes p ↦ elim (ℕ_discrete i b) [
          | yes q ↦ sym p ∙ q
          | no q ↦ absurd (
              clash b dev ino lb q (sym (node_moved t.entry i e a dev ino p) ∙ ha)
                (sym (node_stays t.entry i e b dev ino q) ∙ hb))
        ]
        | no p ↦ elim (ℕ_discrete i b) [
          | yes q ↦ absurd (
              clash a dev ino la p (sym (node_moved t.entry i e b dev ino q) ∙ hb)
                (sym (node_stays t.entry i e a dev ino p) ∙ ha))
          | no q ↦
              inv.unique a b dev ino la lb (sym (node_stays t.entry i e a dev ino p) ∙ ha)
                (sym (node_stays t.entry i e b dev ino q) ∙ hb)
        ]
      ];
    }

-- `iget` keeps the invariant that no i-node is in two entries. Where an entry in use is for the i-node,
-- it adds one reference to it and changes nothing else of it. Where none is, it makes an entry that
-- was empty one for the i-node, with one reference and not valid. It touches no other entry, and
-- panics only when all entries are in use and none is for the i-node.
pub iget-Gets : (t : Table) (dev ino : ℕ) → IsTable t → Gets t dev ino (iget t dev ino)
unfolding iget
iget-Gets t dev ino inv = elim (find-Finds t.entry dev ino n_inode 0 n_inode none (omega arith)) [
  | here i r lt h ↦
      let e : Entry = record (t.entry i) { refcnt = (t.entry i).refcnt + 1 } in
      let t' : Table = record t { entry = update t.entry i e } in
      rw (r, iget)
        (shares i t' refl lt h
          (store-IsTable t i e inv (λ j d m lj ne he. elim (Bool-cases (is_node (t.entry j) d m)) [
            | inl y ↦ absurd (ne (inv.unique i j d m lt lj (ground (arith, h, he)) y))
            | inr n ↦ n
          ]))
          (update_self t.entry i e) (λ j ne. update_ne t.entry i e j ne))
  | nowhere none r all src full ↦
      rw (r, iget)
        (table_full (λ j lt. ((full refl).1 j (omega arith) lt, all j (omega arith) lt)) refl)
  | nowhere (some i) r all src full ↦
      let (lt, unused) : (i < n_inode) × ((t.entry i).refcnt ≡ 0) = elim (src i refl) [
        | inl q ↦ ground (arith, q)
        | inr found ↦ found
      ] in
      let e : Entry = record (t.entry i) { dev = dev; ino = ino; refcnt = 1; valid = false } in
      let t' : Table = record t { entry = update t.entry i e } in
      rw (r, iget)
        (fills i t' refl lt (λ j lj. all j (omega arith) lj) unused
          (store-IsTable t i e inv (λ j d m lj ne he. ground (arith, he, all j (omega arith) lj)))
          (update_self t.entry i e) (λ j ne. update_ne t.entry i e j ne))
]
