-- ===== src/Ramfs/Mounts.antt =====
-- `fs_mount`, `fs_get_ops` and `__initramfs` of fs/ramfs.c.
use mathlib.Core.Path.{subst}
use nika_kernel.Prelude.{
  ℕ, zero, suc, ◌+◌, ◌<◌, ◌≡◌, refl, arith, ap, sym, ◌∙◌, true, false, not, some, List, [], ◌∷◌,
  ◌++◌, length, ◌==◌, leb, if◌then◌else◌,
}
use nika_kernel.CString.{Buffer}
use nika_kernel.CString.Strings.{IsString}
use nika_kernel.Ramfs.{
  Ramfs, max_mounts, success, fault, set_entry, fs_mount, get_ops_from, fs_get_ops, ramfs_init,
  ramfs_mount, root_path, initramfs, ramfs_create_function, ramfs_write_function,
  ramfs_read_function, ramfs_list_function,
}
use nika_kernel.Ramfs.Names.{Named, Absent, strcmp-same, strcmp-differs}

abbrev pub paths_of : Ramfs → ℕ → Buffer
paths_of s i = (s.mounts i).path

get_ops_from-Absent :
    (fuel n i : ℕ) (s : Ramfs) (path : Buffer) (cs : List ℕ) (ns : List (List ℕ))
    → n ≡ length ns
    → Named (paths_of s) i ns
    → Absent cs ns
    → IsString path 0 cs
    → length cs < fuel
    → get_ops_from fuel n i s path ≡ some 0
unfolding get_ops_from
get_ops_from-Absent fuel zero i s path cs ns e h none_there hp enough = refl
get_ops_from-Absent fuel (suc n) i s path cs [] e h none_there hp enough = absurd (omega arith)
get_ops_from-Absent fuel (suc n) i s path cs (m ∷ ns) e h none_there hp enough =
    let (r, run, differs) =
      strcmp-differs fuel (paths_of s i) path m cs h.0 hp enough none_there.0 in
    rw (run, differs)
      (get_ops_from-Absent fuel n (i + 1) s path cs ns (omega arith) h.1 none_there.1 hp enough)

get_ops_from-found :
    (fuel n i : ℕ) (s : Ramfs) (path : Buffer) (cs : List ℕ) (before after : List (List ℕ))
    → n ≡ length before + suc (length after)
    → Named (paths_of s) i (before ++ cs ∷ after)
    → Absent cs before
    → IsString path 0 cs
    → length cs < fuel
    → get_ops_from fuel n i s path ≡ some (s.mounts (i + length before)).ops
unfolding get_ops_from
get_ops_from-found fuel zero i s path cs before after e h first hp enough = absurd (omega arith)
get_ops_from-found fuel (suc n) i s path cs [] after e h first hp enough =
    let (r, run, same) = strcmp-same fuel (paths_of s i) path cs h.0 hp enough in
    rw (run, same) (ap (λ k. some (s.mounts k).ops) {x = i} {y = i + 0} (omega arith))
get_ops_from-found fuel (suc n) i s path cs (m ∷ before) after e h first hp enough =
    let (r, run, differs) = strcmp-differs fuel (paths_of s i) path m cs h.0 hp enough first.0 in
    rw (run, differs)
      (get_ops_from-found fuel n (i + 1) s path cs before after (omega arith) h.1 first.1 hp enough
        ∙ ap (λ k. some (s.mounts k).ops) {x = i + 1 + length before} {y = i + suc (length before)}
            (omega arith))

Named-fs_mount :
    (s : Ramfs) (path : Buffer) (ops : ℕ) (cs : List ℕ) (i : ℕ) (ns : List (List ℕ))
    → s.mount_count ≡ i + length ns
    → Named (paths_of s) i ns
    → IsString path 0 cs
    → let mounts = set_entry s.mounts s.mount_count (record { path = path; ops = ops }) in
      Named (λ j. (mounts j).path) i (ns ++ cs ∷ [])
Named-fs_mount s path ops cs i [] e h hp =
    let here : (s.mount_count == i) ≡ true = ground arith in (rw here hp, tt)
Named-fs_mount s path ops cs i (n ∷ ns) e h hp =
    let other : (s.mount_count == i) ≡ false = ground arith in
    (rw other h.0, Named-fs_mount s path ops cs (i + 1) ns (omega arith) h.1 hp)

abbrev with_mount : Ramfs → Buffer → ℕ → Ramfs
with_mount s path ops = record s {
  mounts = set_entry s.mounts s.mount_count (record { path = path; ops = ops });
  mount_count = s.mount_count + 1;
}

fs_mount_room :
    (s : Ramfs) (path : Buffer) (ops : ℕ)
    → s.fs_true ≡ true
    → s.mount_count < max_mounts
    → fs_mount s path ops ≡ (success, with_mount s path ops)
unfolding fs_mount
fs_mount_room s path ops on room =
    let fits : leb max_mounts s.mount_count ≡ false = ground arith in
    simp fits (ap (λ c. if not c then (fault, s) else (success, with_mount s path ops)) on)

-- With an available file system, fewer than 16 mounts, and strings as paths, none of them the new
-- one, `fs_get_ops` of the path gives NULL, `fs_mount` succeeds with one mount more, and
-- `fs_get_ops` of the path then gives the operations that were mounted.
pub fs_get_ops-fs_mount :
    (fuel : ℕ) (s : Ramfs) (path : Buffer) (ops : ℕ) (cs : List ℕ) (ns : List (List ℕ))
    → s.fs_true ≡ true
    → s.mount_count < max_mounts
    → s.mount_count ≡ length ns
    → Named (paths_of s) 0 ns
    → Absent cs ns
    → IsString path 0 cs
    → length cs < fuel
    → (t : Ramfs) × (fs_get_ops fuel s path ≡ some 0)
      × (fs_mount s path ops ≡ (success, t))
      × (t.mount_count ≡ s.mount_count + 1)
      × (fs_get_ops fuel t path ≡ some ops)
unfolding fs_get_ops
fs_get_ops-fs_mount fuel s path ops cs ns on room count named new hp enough =
    let mounted = with_mount s path ops in
    let last : (s.mount_count == length ns) ≡ true = ground arith in
    (
      mounted,
      get_ops_from-Absent fuel s.mount_count 0 s path cs ns count named new hp enough,
      fs_mount_room s path ops on room,
      refl,
      get_ops_from-found fuel (s.mount_count + 1) 0 mounted path cs ns [] (omega arith)
            (Named-fs_mount s path ops cs 0 ns (omega arith) named hp) new hp enough
          ∙ ap (λ k. some (mounted.mounts k).ops) {x = 0 + length ns} {y = length ns} (omega arith)
          ∙ rw last,
    )

abbrev root : List ℕ
root = 114 ∷ 58 ∷ 47 ∷ []

-- At boot, with nothing mounted, `__initramfs` makes the file system available and empty, and
-- "r:/" then leads to the operations of the file system in memory.
pub fs_get_ops-initramfs :
    (fuel : ℕ) (s : Ramfs) (ramfs_ops_ptr : ℕ)
    → s.mount_count ≡ 0
    → 3 < fuel
    → let t = initramfs s ramfs_ops_ptr in
      (t.fs_true ≡ true)
      × (t.ramfs_file_count ≡ 0)
      × (t.mount_count ≡ 1)
      × (fs_get_ops fuel t root_path ≡ some ramfs_ops_ptr)
unfolding initramfs ramfs_mount ramfs_init fs_get_ops
fs_get_ops-initramfs fuel s ramfs_ops_ptr zero_mounts enough =
    let u : Ramfs = record (ramfs_init s) {
      ramfs_ops = record {
        create = ramfs_create_function;
        write = ramfs_write_function;
        read = ramfs_read_function;
        list = ramfs_list_function;
      };
    } in
    let m =
      fs_get_ops-fs_mount fuel u root_path ramfs_ops_ptr root [] refl (omega arith) zero_mounts tt
        tt (omega arith) enough in
    let mount : fs_mount u root_path ramfs_ops_ptr
        ≡ (success, with_mount u root_path ramfs_ops_ptr) =
      fs_mount_room u root_path ramfs_ops_ptr refl (omega arith) in
    subst
      (λ (x : ℕ × Ramfs).
        (x.1.fs_true ≡ true)
        × (x.1.ramfs_file_count ≡ 0)
        × (x.1.mount_count ≡ 1)
        × (fs_get_ops fuel x.1 root_path ≡ some ramfs_ops_ptr))
      (sym mount)
      (
        refl,
        refl,
        omega arith,
        get_ops_from-found fuel (s.mount_count + 1) 0 (with_mount u root_path ramfs_ops_ptr)
              root_path root [] [] (omega arith)
              (Named-fs_mount u root_path ramfs_ops_ptr root 0 [] (omega arith) tt (omega arith)) tt
              (omega arith) enough
            ∙ ground arith,
      )
