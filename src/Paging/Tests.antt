-- ===== src/Paging/Tests.antt =====
-- Runs and the theorems on a small memory.
use oskernel.Prelude.{
  leb, ◌==◌, if◌then◌else◌, ok, ℕ, ◌+◌, ◌≤◌, ◌<◌, ◌≡◌, refl, ◌≢◌, Bool, true, false, [], ◌∷◌, arith,
}
use oskernel.Paging.{
  page_size, Ram, pm_init_from, pm_alloc, bit, walk_from, walk, map_pages, uvm_walk_addr,
}
use oskernel.Paging.Free.{end, link, IsFree, Takes, pm_alloc-Takes, pages_from, pm_init-IsFree}
use oskernel.Paging.Walk.{walk_lem, HasTables, map-walk}
use oskernel.Paging.Users.{page_round_down}
use oskernel.Paging.Text.{returned, goes_on, copy_str_in}
use oskernel.Paging.Text.Copying.{copy_str_in_short, copy_str_in_overruns}

-- Tables at 4096, 8192 and 12288 for the addresses from 0 on; the pages at 16384 and 20480 are free.
abbrev ram : Ram
ram = record {
  word =
      λ a. if a == 4096 then 2049 else if a == 8192 then 3073 else if a == 16384 then 20480 else 0;
  byte = λ _. 7;
  head = 16384;
}

free : IsFree ram (16384 ∷ 20480 ∷ [])
free = link 16384 (20480 ∷ []) (λ e. omega (arith, e)) (link 20480 [] (λ e. omega (arith, e)) end)

pm_alloc-Takes_example : Takes ram (16384 ∷ 20480 ∷ []) (pm_alloc ram)
pm_alloc-Takes_example = pm_alloc-Takes ram (16384 ∷ 20480 ∷ []) free

pm_init-IsFree_example : IsFree (pm_init_from 3 40960 ram) (pages_from 3 40960 (16384 ∷ 20480 ∷ []))
pm_init-IsFree_example =
    pm_init-IsFree 3 40960 ram (16384 ∷ 20480 ∷ []) (omega arith) free
      (omega arith, (omega arith, tt))

walk_lem_example :
    let (pte, m') = walk 4096 5 false ram in
    (m' ≡ ram) × (pte ≢ 0 → walk 4096 5 true ram ≡ (pte, ram))
walk_lem_example = walk_lem 4096 5 ram

tables : HasTables ram 4096 0
tables = record {
  in_range = omega arith;
  valid2 = refl;
  valid1 = refl;
  apart2 = λ e. omega (arith, e);
  apart1 = λ e. omega (arith, e);
  not_null = λ e. omega (arith, e);
}

-- A page that the user may read: PTE_R and PTE_U.
map-walk_example :
    (m' : Ram) × (map_pages 4096 0 0x80000000 page_size 18 ram ≡ ok (true, m'))
    × (uvm_walk_addr 4096 (0 + 5) m' ≡ ok (if bit 18 4 then 0x80000000 else 0))
map-walk_example =
    map-walk ram 4096 0 5 0x80000000 18 tables refl (omega arith) refl refl (omega arith)
      (omega arith)

-- The user's page at 0 is the page at 16384, with the bytes `f`.
abbrev mapped_ram : (ℕ → ℕ) → Ram
mapped_ram f = record {
  word =
      λ a. if a == 4096 then 2049 else if a == 8192 then 3073 else if a == 12288 then 4115 else 0;
  byte = f;
  head = 0;
}

finds_page : (f : ℕ → ℕ) → uvm_walk_addr 4096 (page_round_down 10) (mapped_ram f) ≡ ok 16384
unfolding uvm_walk_addr walk walk_from
finds_page f = refl

-- The string at 10 has two characters.
abbrev short_text : ℕ → ℕ
short_text a = if a == 16396 then 0 else 7

-- The tables are below the page at 16384.
abbrev behind_tables : ℕ → Bool
behind_tables a = leb 16384 a

copy_str_in_short_example :
    (f : ℕ → ℕ) × (copy_str_in behind_tables 1 4096 30000 10 5 (mapped_ram short_text)
      ≡ ok (returned true (record (mapped_ram short_text) { byte = f })))
    × ((a : ℕ) → a < 30000 → f a ≡ short_text a)
    × ((j : ℕ) → j < 3 → f (30000 + j) ≡ short_text (16394 + j))
copy_str_in_short_example =
    copy_str_in_short behind_tables 0 4096 30000 10 5 2 16384 (mapped_ram short_text)
      (finds_page short_text) (λ e. omega (arith, e)) (omega arith) (λ j lt. ground arith) refl
      (omega arith) (λ a lo hi. ground arith)

copy_str_in_overruns_example :
    (f : ℕ → ℕ) × (copy_str_in behind_tables 1000 4096 30000 10 5 (mapped_ram (λ _. 7))
      ≡ ok (goes_on 35000 (record (mapped_ram (λ _. 7)) { byte = f })))
    × ((a : ℕ) → a < 30000 → f a ≡ 7)
    × ((a : ℕ) → 30000 ≤ a → a < 35000 → f a ≢ 0)
copy_str_in_overruns_example =
    copy_str_in_overruns behind_tables 1000 4096 30000 10 5 16384 (mapped_ram (λ _. 7))
      (finds_page (λ _. 7)) (λ e. omega (arith, e)) (omega arith) (λ j lt e. omega (arith, e))
      (omega arith) (λ a lo hi. ground arith)
