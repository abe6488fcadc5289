-- ===== src/Ramfs/Limits.antt =====
-- The limits of the tables of fs/ramfs.c: 64 files and 16 mounts.
use mathlib.Core.Path.{subst}
use nika_kernel.Prelude.{
  ℕ, zero, suc, ◌+◌, ◌≤◌, ◌<◌, ◌≡◌, refl, arith, true, false, Bool, not, Option, some, ◌==◌, ltb,
  leb, ◌&&◌, if◌then◌else◌, Bool-cases, inl, inr,
}
use nika_kernel.Prelude.Fallible.{>>=-eq-some, eq_of_some}
use nika_kernel.Heap.{Heap, malloc}
use nika_kernel.CString.{Buffer, strcmp}
use nika_kernel.Ramfs.{
  Ramfs, ramfs_max_files, ramfs_max_file_size, max_mounts, fault, minus_one, success, is_zero,
  write_file, enter_file, clear_file, create_entry, ramfs_create, write_from, ramfs_write, fs_mount,
  ramfs_mount, ramfs_init, initramfs, root_path,
}

-- The counts stay within the tables, and no file is larger than its memory.
pub record IsBounded (s : Ramfs) : Type 0 where
  pub files : s.ramfs_file_count ≤ ramfs_max_files
  pub mounted : s.mount_count ≤ max_mounts
  pub sizes : (i : ℕ) → i < ramfs_max_files → (s.ramfs_files i).size ≤ ramfs_max_file_size

abbrev Good : ℕ × Ramfs → Type 0
Good y = IsBounded y.1

IsBounded-if :
    (c : Bool) (x y : ℕ × Ramfs) → IsBounded x.1 → IsBounded y.1 → IsBounded (if c then x else y).1
IsBounded-if true x y hx hy = hx
IsBounded-if false x y hx hy = hy

-- What follows from a result of either branch follows from a result of the test.
result_if {ℓ κ} :
    {A : Type ℓ} (P : A → Type κ) (c : Bool) (x y : Option A) (a : A)
    → (c ≡ true → x ≡ some a → P a)
    → (c ≡ false → y ≡ some a → P a)
    → (if c then x else y) ≡ some a
    → P a
result_if P true x y a hx hy run = hx refl run
result_if P false x y a hx hy run = hy refl run

IsBounded-enter_file :
    (s : Ramfs) (name : Buffer) (p : ℕ) (h : Heap)
    → s.ramfs_file_count < ramfs_max_files
    → IsBounded s
    → IsBounded (enter_file s name p h)
IsBounded-enter_file s name p h room b = record {
  files = omega arith;
  mounted = b.mounted;
  sizes = λ i lt. ground (arith, b.sizes i lt);
}

IsBounded-clear_file : (s : Ramfs) (i p : ℕ) → IsBounded s → IsBounded (clear_file s i p)
IsBounded-clear_file s i p b = record {
  files = b.files;
  mounted = b.mounted;
  sizes = λ j lt. ground (arith, b.sizes j lt);
}

IsBounded-write_file :
    (s : Ramfs) (i : ℕ) (buf : Buffer) → IsBounded s → IsBounded (write_file s i buf)
IsBounded-write_file s i buf b = record {
  files = b.files;
  mounted = b.mounted;
  sizes = λ j lt. ground (arith, b.sizes j lt);
}

IsBounded-create_entry :
    (grows fuel : ℕ) (s : Ramfs) (name : Buffer) (x : ℕ × Ramfs)
    → s.ramfs_file_count < ramfs_max_files
    → IsBounded s
    → create_entry grows fuel s name ≡ some x
    → IsBounded x.1
unfolding create_entry
IsBounded-create_entry grows fuel s name x room h run =
    let (out, _, e) = >>=-eq-some (malloc grows fuel ramfs_max_file_size s.heap) _ run in
    let entered = IsBounded-enter_file s name out.0 out.1 room h in
    subst Good (eq_of_some e) (
      IsBounded-if (not (out.0 == 0)) (minus_one, enter_file s name out.0 out.1)
        (success, clear_file (enter_file s name out.0 out.1) s.ramfs_file_count out.0) entered
        (IsBounded-clear_file (enter_file s name out.0 out.1) s.ramfs_file_count out.0 entered))

IsBounded-write_from :
    (fuel n i : ℕ) (s : Ramfs) (name buf : Buffer) (len : ℕ) (x : ℕ × Ramfs)
    → IsBounded s
    → write_from fuel n i s name buf len ≡ some x
    → IsBounded x.1
unfolding write_from
IsBounded-write_from fuel zero i s name buf len x h run = subst Good (eq_of_some run) h
IsBounded-write_from fuel (suc n) i s name buf len x h run =
    let (r, _, e) = >>=-eq-some (strcmp fuel (s.ramfs_files i).name name) _ run in
    result_if Good (is_zero r && ltb ramfs_max_file_size len) _ _ x
      (λ _ done. subst Good (eq_of_some done) (IsBounded-write_file s i buf h))
      (λ _ onward. IsBounded-write_from fuel n (i + 1) s name buf len x h onward) e

IsBounded-fs_mount :
    (s : Ramfs) (path : Buffer) (ops : ℕ) → IsBounded s → IsBounded (fs_mount s path ops).1
unfolding fs_mount
IsBounded-fs_mount s path ops h = elim (Bool-cases (leb max_mounts s.mount_count)) [
  | inl full ↦ rw full h
  | inr room ↦ rw room (
      IsBounded-if (not s.fs_true) (fault, s) _ h
        (record { files = h.files; mounted = ground arith; sizes = h.sizes }))
]

-- Every operation that changes the file system keeps the count of files at most 64, the count of
-- mounts at most 16 and the size of each of the 64 files at most 1024.
pub ramfs-IsBounded :
    (s : Ramfs)
    → IsBounded s
    → ((grows fuel : ℕ) (name : Buffer) (x : ℕ × Ramfs)
        → ramfs_create grows fuel s name ≡ some x
        → IsBounded x.1)
      × ((fuel : ℕ) (name buf : Buffer) (len : ℕ) (x : ℕ × Ramfs)
          → ramfs_write fuel s name buf len ≡ some x
          → IsBounded x.1)
      × ((path : Buffer) (ops : ℕ) → IsBounded (fs_mount s path ops).1)
      × IsBounded (ramfs_init s)
      × ((ptr : ℕ) → IsBounded (initramfs s ptr))
unfolding ramfs_create ramfs_write ramfs_init initramfs ramfs_mount
ramfs-IsBounded s h = (
  λ grows fuel name x run.
      result_if Good (not s.fs_true) _ _ x (λ _. kept h)
        (λ _.
          result_if Good (leb ramfs_max_files s.ramfs_file_count) _ _ x (λ _. kept h)
            (λ room. IsBounded-create_entry grows fuel s name x (ground arith) h))
        run,
  λ fuel name buf len x run.
      result_if Good (not s.fs_true) _ _ x (λ _. kept h)
        (λ _. IsBounded-write_from fuel s.ramfs_file_count 0 s name buf len x h) run,
  λ path ops. IsBounded-fs_mount s path ops h,
  init,
  λ ptr.
      IsBounded-fs_mount _ root_path ptr
        (record { files = init.files; mounted = init.mounted; sizes = init.sizes }),
)
  where
    kept : {r : ℕ} {x : ℕ × Ramfs} → IsBounded s → some (r, s) ≡ some x → IsBounded x.1
    kept b e = subst Good (eq_of_some e) b

    init : IsBounded (ramfs_init s)
    init =
        unfold ramfs_init in
        record { files = omega arith; mounted = h.mounted; sizes = λ i lt. ground arith }
