-- ===== src/Ramfs/Tests.antt =====
-- Runs of fs/ramfs.c on two files, and its theorems there.
use nika_kernel.Prelude.{
  ℕ, ◌≤◌, ◌<◌, ◌≡◌, ◌≢◌, ◌⊎◌, refl, arith, true, false, some, List, [], ◌∷◌, get_or, ltb, ap, ◌==◌,
  if◌then◌else◌,
}
use nika_kernel.Heap.{Heap, malloc}
use nika_kernel.Pmm.{alloc_page, page_free}
use nika_kernel.Heap.Chain.{Cells, IsArea}
use nika_kernel.Heap.FirstFit.{cell}
use nika_kernel.CString.{Buffer}
use nika_kernel.Ramfs.{
  Ramfs, no_function, ramfs_max_files, ramfs_max_file_size, success, fault, minus_one, ramfs_init,
  ramfs_create, ramfs_write, ramfs_read, fs_mount, fs_get_ops, initramfs,
}
use nika_kernel.Ramfs.Create.{Created, ramfs_create-Created}
use nika_kernel.Ramfs.Transfer.{HasFiles, ramfs_write-ramfs_read-fault}
use nika_kernel.Ramfs.RoundTrip.{ramfs_read-ramfs_write}
use nika_kernel.Ramfs.Mounts.{fs_get_ops-fs_mount}
use nika_kernel.Ramfs.Limits.{IsBounded, ramfs-IsBounded}

abbrev hi : List ℕ
hi = 104 ∷ 105 ∷ []

abbrev ho : List ℕ
ho = 104 ∷ 111 ∷ []

abbrev buffer : List ℕ → Buffer
buffer cs j = get_or cs j 0

-- One free block on the page at 0x3000.
abbrev heap : Heap
heap = record {
  pmm = record { bitmap = λ i. 0xff; bitmap_size = 2; total_pages = 16; mem_map = [] };
  block = λ _. record { size = 4084; flags = 0; next = 0 };
  heap_start = 0x3000;
  heap_end = 0x3000;
  heap_limit = 0x4000;
}

abbrev cells : Cells
cells = cell 0x3000 4084 0 ∷ []

heap-IsArea : IsArea heap.block 0x3000 0x4000 cells
heap-IsArea = record {
  linked = omega arith;
  tiles = omega arith;
  above = omega arith;
  below = omega arith;
}

-- The files "hi" and "ho", both empty.
abbrev two_files : Ramfs
two_files = record {
  fs_true = true;
  ramfs_ops = record {
    create = no_function;
    write = no_function;
    read = no_function;
    list = no_function;
  };
  ramfs_files = λ i.
      if i == 0
      then record { name = buffer hi; data_ptr = 0x5000; size = 0 }
      else record { name = buffer ho; data_ptr = 0x6000; size = 0 };
  ramfs_file_count = 2;
  mounts = λ i. record { path = λ j. 0; ops = 0 };
  mount_count = 0;
  heap = heap;
  memory = λ a. 0;
}

two_files-HasFiles : HasFiles two_files (hi ∷ ho ∷ [])
two_files-HasFiles = record { available = refl; counted = refl; named = omega arith }

-- The heap has no room for 1024 bytes, and no page is free.
abbrev full_heap : Heap
full_heap = record heap { block = λ _. record { size = 9; flags = 0; next = 0 } }

abbrev no_memory : Ramfs
no_memory = record two_files { heap = full_heap }

gives_null : malloc 1 2 1024 full_heap ≡ some (0, full_heap)
gives_null = unfold malloc alloc_page page_free in refl

ramfs_create-Created_example :
    (r : ℕ) × (t : Ramfs) × (ramfs_create 1 2 no_memory (buffer hi) ≡ some (r, t))
    × (((no_memory.fs_true ≡ false) × (r ≡ fault) × (t ≡ no_memory))
        ⊎ ((no_memory.fs_true ≡ true) × (ramfs_max_files ≤ 2) × (r ≡ minus_one) × (t ≡ no_memory))
        ⊎ ((no_memory.fs_true ≡ true)
            × (2 < ramfs_max_files)
            × Created no_memory hi 0 full_heap r t))
ramfs_create-Created_example =
    ramfs_create-Created 1 2 no_memory (buffer hi) hi 0 full_heap (omega arith) gives_null

ramfs_write-ramfs_read-fault_example :
    ((len : ℕ)
      → len ≤ ramfs_max_file_size
      → ramfs_write 3 two_files (buffer ho) (λ j. 7) len ≡ some (fault, two_files))
    × ((max_len : ℕ)
        → ((j : ℕ) → (two_files.ramfs_files j).size ≤ max_len)
        → ramfs_read 3 two_files (buffer ho) (λ j. 7) max_len ≡ some (fault, λ j. 7))
ramfs_write-ramfs_read-fault_example =
    ramfs_write-ramfs_read-fault 3 two_files (hi ∷ ho ∷ []) (buffer ho) (λ j. 7) ho
      two_files-HasFiles (omega arith) (omega arith)

ramfs_read-ramfs_write_example :
    (t : Ramfs) × (b : Buffer) × (ramfs_write 3 two_files (buffer ho) (λ j. j) 2000
      ≡ some (ramfs_max_file_size, t))
    × (ramfs_read 3 t (buffer ho) (λ j. 7) 100 ≡ some (100, b))
    × ((j : ℕ) → b j ≡ (if ltb j 100 then j else 7))
ramfs_read-ramfs_write_example =
    ramfs_read-ramfs_write 3 two_files (hi ∷ []) [] (buffer ho) (λ j. j) (λ j. 7) ho 2000 100
      two_files-HasFiles (differ, tt) (omega arith) (omega arith) (omega arith) (omega arith)
  where
    differ : hi ≢ ho
    differ e = omega (arith, ap (λ (l : List ℕ). get_or l 1 0) e)

fs_get_ops-fs_mount_example :
    (t : Ramfs) × (fs_get_ops 3 two_files (buffer hi) ≡ some 0)
    × (fs_mount two_files (buffer hi) 0x7000 ≡ (success, t))
    × (t.mount_count ≡ 1)
    × (fs_get_ops 3 t (buffer hi) ≡ some 0x7000)
fs_get_ops-fs_mount_example =
    fs_get_ops-fs_mount 3 two_files (buffer hi) 0x7000 hi [] refl (omega arith) refl tt tt
      (omega arith) (omega arith)

two_files-IsBounded : IsBounded two_files
two_files-IsBounded = record {
  files = omega arith;
  mounted = omega arith;
  sizes = λ i lt. ground arith;
}

ramfs-IsBounded_example :
    ((grows fuel : ℕ) (name : Buffer) (x : ℕ × Ramfs)
      → ramfs_create grows fuel two_files name ≡ some x
      → IsBounded x.1)
    × ((fuel : ℕ) (name buf : Buffer) (len : ℕ) (x : ℕ × Ramfs)
        → ramfs_write fuel two_files name buf len ≡ some x
        → IsBounded x.1)
    × ((path : Buffer) (ops : ℕ) → IsBounded (fs_mount two_files path ops).1)
    × IsBounded (ramfs_init two_files)
    × ((ptr : ℕ) → IsBounded (initramfs two_files ptr))
ramfs-IsBounded_example = ramfs-IsBounded two_files two_files-IsBounded
