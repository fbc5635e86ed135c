-- ===== src/Calls/Balance.antt =====
-- Whether the calls on paths end the operation that they begin.
use Prim.Native.String.{String}
use oskernel.Prelude.{
  ltb, leb, ◌==◌, if◌then◌else◌, update, ℤ, pos, negsuc, minus_one, Run, ok, panic, ◌>>=◌, ◌>>◌,
  panic_if, ℕ, ◌+◌, ◌%◌, ◌≡◌, refl, ◌⊎◌, inl, inr, Bool, true, false, not, ◌&&◌, ◌||◌, Option, none,
  some, List, arith,
}
use oskernel.Calls.{Nodes, System, begin_op, Result, put_end, add_link, drop_link}
use oskernel.Calls.Links.{
  unlinked, link_name, sys_link, is_dir_empty, blank, remove_entry, unlink_found, sys_unlink,
  sys_chdir,
}
use oskernel.Inode.Table.{ilock, iput}
use oskernel.Dir.Path.{Looked, arrives, nothing, namei, parenti}
use oskernel.Dir.{ft_dir, ft_file, same_name, dir_lookup, write_entry, dir_link}
use oskernel.Param.{n_dev}
use oskernel.Calls.Create.{ft_device, dot, dot_dot, create, sys_mkdir, sys_mknod}
use oskernel.Calls.Open.{
  trunc, append, open_node, give_back, opened, truncated, open_append, open_file, open_found,
  sys_open,
}
use oskernel.Calls.Descriptors.{lseeki}
use oskernel.Files.{file_alloc, file_close, fd_alloc}

-- A property of what a call returns, where it does not panic.

pub data Ends (P : ℤ → System → Type 0) : Result → Type 0 where
  returned : (value : ℤ) (s : System) → P value s → Ends P (ok (value, s))
  stopped : (message : String) → Ends P (panic message)

-- A call that goes on with a value, or by a test, has a property that it has in every case.
module _ {P : ℤ → System → Type 0} where
  Ends-bind :
      {A : Type 0} (m : Run A) {next : A → Result}
      → ((a : A) → Ends P (next a))
      → Ends P (m >>= next)
  Ends-bind (ok a) h = h a
  Ends-bind (panic message) h = stopped message

  Ends-then : (m : Run (Unit {0})) {next : Result} → Ends P next → Ends P (m >> next)
  Ends-then (ok a) h = h
  Ends-then (panic message) h = stopped message

  Ends-if : (b : Bool) {x y : Result} → Ends P x → Ends P y → Ends P (if b then x else y)
  Ends-if true hx hy = hx
  Ends-if false hx hy = hy

  Ends-test :
      (b : Bool) {x y : Result} → Ends P x → Ends P y → Ends P (elim b [ true ↦ x | false ↦ y ])
  Ends-test true hx hy = hx
  Ends-test false hx hy = hy

  Ends-option :
      {A : Type 0} (o : Option A) {x : Result} {f : A → Result}
      → Ends P x
      → ((a : A) → Ends P (f a))
      → Ends P (elim o [ none ↦ x | some a ↦ f a ])
  Ends-option none hx hf = hx
  Ends-option (some a) hx hf = hf a

  Ends-looked :
      (o : Option Looked) {x : Result} {f : (ℕ → ℕ) → Nodes → Result}
      {g : ℕ → (ℕ → ℕ) → Nodes → Result}
      → Ends P x
      → ((name : ℕ → ℕ) (t : Nodes) → Ends P (f name t))
      → ((i : ℕ) (name : ℕ → ℕ) (t : Nodes) → Ends P (g i name t))
      → Ends P (elim o [
        | none ↦ x
        | some (nothing name t) ↦ f name t
        | some (arrives i name t) ↦ g i name t
      ])
  Ends-looked none hx hf hg = hx
  Ends-looked (some (nothing name t)) hx hf hg = hf name t
  Ends-looked (some (arrives i name t)) hx hf hg = hg i name t

  Ends-sign :
      (v : ℤ) {f g : ℕ → Result}
      → ((k : ℕ) → Ends P (f k))
      → ((k : ℕ) → Ends P (g k))
      → Ends P (elim v [ pos k ↦ f k | negsuc k ↦ g k ])
  Ends-sign (pos k) hf hg = hf k
  Ends-sign (negsuc k) hf hg = hg k

abbrev pub Balanced : ℕ → Result → Type 0
Balanced n r = Ends (λ value s. s.outstanding ≡ n) r

module _ (s : System) (n : ℕ) (one_more : s.outstanding ≡ n + 1) where
  put_end-Balanced : (t : Nodes) (i : ℕ) (value : ℤ) → Balanced n (put_end s t i value)
  put_end-Balanced t i value = returned _ _ (omega arith)

  unlinked-Balanced : (t : Nodes) (i : ℕ) → Balanced n (unlinked s t i)
  unfolding unlinked
  unlinked-Balanced t i =
      Ends-bind (ilock t i) (λ t1. put_end-Balanced (drop_link t1 i) i minus_one)

  link_name-Balanced :
      (t : Nodes) (i : ℕ) (path : List ℕ) (buffer : ℕ → ℕ)
      → Balanced n (link_name s t i path buffer)
  unfolding link_name
  link_name-Balanced t i path buffer = Ends-bind (parenti t s.cwd path buffer) (λ looked.
      Ends-looked looked (unlinked-Balanced t i) (λ name t1. unlinked-Balanced t1 i)
        (λ parent name t1. Ends-bind (ilock t1 parent) (λ t2.
          Ends-bind (dir_link t2 parent name (t2.entry i).ino) (λ (linked, t3).
            Ends-if linked (put_end-Balanced (iput t3 parent) i (pos 0))
              (unlinked-Balanced (iput t3 parent) i)))))

  remove_entry-Balanced :
      (t : Nodes) (i parent off : ℕ) → Balanced n (remove_entry s t i parent off)
  unfolding remove_entry
  remove_entry-Balanced t i parent off =
      Ends-bind (write_entry t parent off blank) (λ (written, t1).
        Ends-then (panic_if (not written) "inode write error") (put_end-Balanced _ i (pos 0)))

  unlink_found-Balanced :
      (t : Nodes) (i parent off : ℕ) → Balanced n (unlink_found s t i parent off)
  unfolding unlink_found
  unlink_found-Balanced t i parent off = Ends-bind (ilock t i) (λ t1.
      Ends-then (panic_if (ltb (t1.entry i).node.nlink 1) "unlink an invalid inode") (
        Ends-bind (if (t1.entry i).node.type == ft_dir then is_dir_empty t1 i else ok (true, t1))
          (λ (empty, t2).
            Ends-if empty (remove_entry-Balanced t2 i parent off)
              (put_end-Balanced (iput t2 i) parent minus_one))))

module _ (n : ℕ) where
  open_append-Balanced :
      (s : System) (i fd f omode : ℕ)
      → s.outstanding ≡ n + 1
      → Balanced n (open_append s i fd f omode)
  unfolding open_append
  open_append-Balanced s i fd f omode more =
      let size = (s.table.entry i).node.map.size in
      Ends-test (append omode)
        (Ends-bind (lseeki s.table i (pos size)) (λ (ret, t).
          Ends-sign ret (λ k. returned _ _ (omega arith))
            (λ k. Ends-bind (file_close s.files.files f) (λ (released, files).
              Ends-bind (give_back released t) (λ t1.
                put_end-Balanced
                  (record s {
                    files = record { files = files; ofile = update s.files.ofile fd none };
                  })
                  n more t1 i minus_one)))))
        (returned _ _ (omega arith))

  open_file-Balanced :
      (s : System) (i fd f omode : ℕ)
      → s.outstanding ≡ n + 1
      → Balanced n (open_file s i fd f omode)
  unfolding open_file
  open_file-Balanced s i fd f omode more =
      let files = update s.files.files f (opened (s.files.files f) s.table i omode) in
      let t : Nodes =
        if trunc omode && (s.table.entry i).node.type == ft_file
        then truncated s.table i
        else s.table in
      open_append-Balanced (record s { table = t; files = record (s.files) { files = files } }) i fd
        f omode more

  open_found-Balanced :
      (s : System) (i omode : ℕ) → s.outstanding ≡ n + 1 → Balanced n (open_found s i omode)
  unfolding open_found
  open_found-Balanced s i omode more =
      let node = (s.table.entry i).node in
      let put = put_end-Balanced s n more s.table i minus_one in
      Ends-test (node.type == ft_device && leb n_dev node.major) put (
        Ends-option (file_alloc s.files.files) put (λ (f, files).
          Ends-option (fd_alloc s.files.ofile f)
            (Ends-bind (file_close files f) (λ (released, files').
              Ends-bind (give_back released s.table) (λ t.
                put_end-Balanced (record s { files = record (s.files) { files = files' } }) n more t
                  i minus_one)))
            (λ (fd, ofile).
              open_file-Balanced (record s { files = record { files = files; ofile = ofile } }) i fd
                f omode more)))

link_call :
    (s : System) (old path : Option (List ℕ)) (buffer : ℕ → ℕ)
    → Balanced s.outstanding (sys_link s old path buffer)
unfolding sys_link
link_call s none path buffer = returned _ _ refl
link_call s (some old) none buffer = returned _ _ refl
link_call s (some old) (some path) buffer =
    let s1 = begin_op s in
    Ends-bind (namei s1.table s1.cwd old buffer) (λ looked.
      Ends-looked looked (returned _ _ (omega arith)) (λ name t1. returned _ _ (omega arith))
        (λ i name t1. Ends-bind (ilock t1 i) (λ t2.
          Ends-if ((t2.entry i).node.type == ft_dir)
            (put_end-Balanced s1 s.outstanding refl t2 i minus_one)
            (link_name-Balanced s1 s.outstanding refl (add_link t2 i) i path buffer))))

unlink_call :
    (s : System) (path : Option (List ℕ)) (buffer : ℕ → ℕ)
    → Balanced s.outstanding (sys_unlink s path buffer)
unfolding sys_unlink
unlink_call s none buffer = returned _ _ refl
unlink_call s (some path) buffer =
    let s1 = begin_op s in
    Ends-bind (parenti s1.table s1.cwd path buffer) (λ looked.
      Ends-looked looked (returned _ _ (omega arith)) (λ name t1. returned _ _ (omega arith))
        (λ parent name t1. Ends-bind (ilock t1 parent) (λ t2.
          Ends-test (same_name name dot || same_name name dot_dot)
            (put_end-Balanced s1 s.outstanding refl t2 parent minus_one)
            (Ends-bind (dir_lookup t2 parent name) (λ (found, t3).
              Ends-option found (put_end-Balanced s1 s.outstanding refl t3 parent minus_one)
                (λ (off, i). unlink_found-Balanced s1 s.outstanding refl t3 i parent off))))))

chdir_call :
    (s : System) (path : Option (List ℕ)) (buffer : ℕ → ℕ)
    → Balanced s.outstanding (sys_chdir s path buffer)
unfolding sys_chdir
chdir_call s none buffer = returned _ _ refl
chdir_call s (some path) buffer =
    let s1 = begin_op s in
    Ends-bind (namei s1.table s1.cwd path buffer) (λ looked.
      Ends-looked looked (returned _ _ (omega arith)) (λ name t1. returned _ _ (omega arith))
        (λ i name t1. Ends-bind (ilock t1 i) (λ t2.
          Ends-if ((t2.entry i).node.type == ft_dir) (returned _ _ (omega arith))
            (put_end-Balanced s1 s.outstanding refl t2 i minus_one))))

mknod_call :
    (s : System) (path : Option (List ℕ)) (buffer : ℕ → ℕ) (major minor : ℕ)
    → Balanced s.outstanding (sys_mknod s path buffer major minor)
unfolding sys_mknod
mknod_call s none buffer major minor = returned _ _ refl
mknod_call s (some path) buffer major minor =
    let s1 = begin_op s in
    Ends-bind (create s1.table s1.cwd path buffer ft_device (major % 65536) (minor % 65536))
      (λ (r, t).
        Ends-option r (returned _ _ (omega arith))
          (λ i. put_end-Balanced s1 s.outstanding refl t i (pos 0)))

open_call :
    (s : System) (path : Option (List ℕ)) (buffer : ℕ → ℕ) (omode : ℕ)
    → Balanced s.outstanding (sys_open s path buffer omode)
unfolding sys_open
open_call s none buffer omode = returned _ _ refl
open_call s (some path) buffer omode =
    let s1 = begin_op s in
    Ends-bind (open_node s1.table s1.cwd path buffer omode) (λ (r, t).
      Ends-option r (returned _ _ (omega arith))
        (λ i. open_found-Balanced s.outstanding (record s1 { table = t }) i omode refl))

-- `sys_mkdir` ends its operation where it returns 0; where it returns -1 because `create` fails, the
-- log counts the operation for ever.
pub mkdir_keeps_operation :
    (s : System) (path : List ℕ) (buffer : ℕ → ℕ)
    → Ends
        (λ value s'.
          ((value ≡ pos 0) × (s'.outstanding ≡ s.outstanding))
          ⊎ ((value ≡ minus_one) × (s'.outstanding ≡ s.outstanding + 1)))
        (sys_mkdir s (some path) buffer)
unfolding sys_mkdir
mkdir_keeps_operation s path buffer =
    let s1 = begin_op s in
    Ends-bind (create s1.table s1.cwd path buffer ft_dir 0 0) (λ (r, t).
      Ends-option r (returned _ _ (inr (refl, refl))) (λ i. returned _ _ (inl (refl, omega arith))))

-- `sys_link`, `sys_unlink`, `sys_chdir`, `sys_mknod` and `sys_open` leave the log's count of operations
-- as they find it, whatever they return; a call may also end in a panic.
pub calls_balance :
    (s : System) (path other : Option (List ℕ)) (buffer : ℕ → ℕ) (major minor omode : ℕ)
    → Balanced s.outstanding (sys_link s path other buffer)
      × Balanced s.outstanding (sys_unlink s path buffer)
      × Balanced s.outstanding (sys_chdir s path buffer)
      × Balanced s.outstanding (sys_mknod s path buffer major minor)
      × Balanced s.outstanding (sys_open s path buffer omode)
calls_balance s path other buffer major minor omode = (
  link_call s path other buffer,
  unlink_call s path buffer,
  chdir_call s path buffer,
  mknod_call s path buffer major minor,
  open_call s path buffer omode,
)
