-- ===== src/Ramfs/Create.antt =====
-- `ramfs_create` of fs/ramfs.c.
use nika_kernel.Prelude.{
  ℕ, suc, ◌+◌, ◌≤◌, ◌<◌, ◌≡◌, ◌≢◌, refl, arith, ap, ◌∙◌, true, false, Bool, not, some, List, length,
  get_or, ◌==◌, leb, leb→le, ltb, if◌then◌else◌, ==_iff, Bool-cases, inl, inr, ◌⊎◌,
}
use nika_kernel.Heap.{Heap, header_size, malloc}
use nika_kernel.Heap.Chain.{Cells, IsArea}
use nika_kernel.Heap.FirstFit.{found}
use nika_kernel.Heap.Malloc.{malloc-Allocated}
use nika_kernel.CString.{Buffer}
use nika_kernel.CString.Strings.{IsString}
use nika_kernel.CString.Copies.{strncpy_lem}
use nika_kernel.Ramfs.{
  Ramfs, ramfs_max_files, ramfs_max_file_size, success, fault, minus_one, named_entry, enter_file,
  clear_file, create_entry, ramfs_create,
}

-- The outcome of `ramfs_create` with memory at `p` from `malloc`.
pub record Created (s : Ramfs) (cs : List ℕ) (p : ℕ) (h : Heap) (r : ℕ) (t : Ramfs) : Type 0 where
  pub status : r ≡ (if p == 0 then success else minus_one)
  pub counted : t.ramfs_file_count ≡ s.ramfs_file_count + 1
  pub pointer : (t.ramfs_files s.ramfs_file_count).data_ptr ≡ p
  pub named : (j : ℕ) → j < 63 → (t.ramfs_files s.ramfs_file_count).name j ≡ get_or cs j 0
  pub ended :
      (t.ramfs_files s.ramfs_file_count).name 63 ≡ (s.ramfs_files s.ramfs_file_count).name 63
  pub others : (i : ℕ) → i ≢ s.ramfs_file_count → t.ramfs_files i ≡ s.ramfs_files i
  pub heap : t.heap ≡ h
  -- Without memory the size is 0 and the 1024 bytes from NULL on are cleared.
  pub cleared :
      p ≡ 0
      → ((t.ramfs_files s.ramfs_file_count).size ≡ 0)
        × ((a : ℕ) → t.memory a ≡ (if ltb a 1024 then 0 else s.memory a))
  pub kept :
      p ≢ 0
      → ((t.ramfs_files s.ramfs_file_count).size ≡ (s.ramfs_files s.ramfs_file_count).size)
        × (t.memory ≡ s.memory)

module _ (s : Ramfs) (name : Buffer) (cs : List ℕ) (p : ℕ) (h : Heap)
    (hn : IsString name 0 cs) where
  name_entered :
      (j : ℕ)
      → j < 63
      → (named_entry (s.ramfs_files s.ramfs_file_count) name p).name j ≡ get_or cs j 0
  name_entered j lt = strncpy_lem _ name 63 cs hn j ∙ ground arith

  name_ended :
      (named_entry (s.ramfs_files s.ramfs_file_count) name p).name 63
      ≡ (s.ramfs_files s.ramfs_file_count).name 63
  name_ended = strncpy_lem _ name 63 cs hn 63

  here : (s.ramfs_file_count == s.ramfs_file_count) ≡ true
  here = (==_iff s.ramfs_file_count _).1 refl

  entered-Created : (p == 0) ≡ false → Created s cs p h minus_one (enter_file s name p h)
  entered-Created memory = record {
    status = rw memory;
    counted = refl;
    pointer = ground arith;
    named = λ j lt. rw here (name_entered j lt);
    ended = rw here name_ended;
    others = λ i ne. ground arith;
    heap = refl;
    cleared = λ null. absurd (ground arith);
    kept = λ real. (rw here refl, refl);
  }

  cleared-Created :
      (p == 0) ≡ true
      → Created s cs p h success (clear_file (enter_file s name p h) s.ramfs_file_count p)
  cleared-Created null = record {
    status = rw null;
    counted = refl;
    pointer = ground arith;
    named = λ j lt. rw here (name_entered j lt);
    ended = rw here name_ended;
    others = λ i ne. ground arith;
    heap = refl;
    cleared = λ zero_here. (rw here refl, λ a. ground arith);
    kept = λ real. absurd (real ((==_iff p 0).0 null));
  }

create_entry-Created :
    (grows fuel : ℕ) (s : Ramfs) (name : Buffer) (cs : List ℕ) (p : ℕ) (h : Heap)
    → IsString name 0 cs
    → malloc grows fuel ramfs_max_file_size s.heap ≡ some (p, h)
    → (r : ℕ) × (t : Ramfs) × (create_entry grows fuel s name ≡ some (r, t)) × Created s cs p h r t
unfolding create_entry
create_entry-Created grows fuel s name cs p h hn run = elim (Bool-cases (p == 0)) [
  | inl null ↦ (
    success,
    clear_file (enter_file s name p h) s.ramfs_file_count p,
    rw (run, null),
    cleared-Created s name cs p h hn null,
  )
  | inr memory ↦
      (minus_one, enter_file s name p h, rw (run, memory), entered-Created s name cs p h hn memory)
]

-- Every branch of `ramfs_create`, for a string as the name and a `malloc` that returns: FAULT while
-- the file system is not available, -1 when it holds 64 files, both without a change; else a new
-- last file with the first 63 characters of the name; when `malloc` gave memory for it the status is
-- -1, and the size and the memory stay as they were; when it gave NULL the status is SUCCESS, the size
-- is 0, and the 1024 bytes from address 0 on are cleared and no other.
pub ramfs_create-Created :
    (grows fuel : ℕ) (s : Ramfs) (name : Buffer) (cs : List ℕ) (p : ℕ) (h : Heap)
    → IsString name 0 cs
    → malloc grows fuel ramfs_max_file_size s.heap ≡ some (p, h)
    → (r : ℕ) × (t : Ramfs) × (ramfs_create grows fuel s name ≡ some (r, t))
      × (((s.fs_true ≡ false) × (r ≡ fault) × (t ≡ s))
          ⊎ ((s.fs_true ≡ true)
              × (ramfs_max_files ≤ s.ramfs_file_count)
              × (r ≡ minus_one)
              × (t ≡ s))
          ⊎ ((s.fs_true ≡ true) × (s.ramfs_file_count < ramfs_max_files) × Created s cs p h r t))
unfolding ramfs_create
ramfs_create-Created grows fuel s name cs p h hn run =
    let (r, t, made, created) = create_entry-Created grows fuel s name cs p h hn run in
    elim (Bool-cases s.fs_true) [
      | inr off ↦ (fault, s, guard off, inl (off, refl, refl))
      | inl on ↦ elim (Bool-cases (leb ramfs_max_files s.ramfs_file_count)) [
        | inl full ↦ (minus_one, s, guard on ∙ rw full, inr (inl (on, leb→le _ _ full, refl, refl)))
        | inr room ↦ (r, t, guard on ∙ rw room made, inr (inr (on, ground arith, created)))
      ]
    ]
  where
    guard :
        {c : Bool}
        → s.fs_true ≡ c
        → ramfs_create grows fuel s name ≡ (
            if not c
            then some (fault, s)
            else if leb ramfs_max_files s.ramfs_file_count
            then some (minus_one, s)
            else create_entry grows fuel s name)
    guard e =
        ap
          (λ c.
            if not c
            then some (fault, s)
            else if leb ramfs_max_files s.ramfs_file_count
            then some (minus_one, s)
            else create_entry grows fuel s name)
          e

-- While the heap has a free block for 1024 bytes, every `ramfs_create` with room for a file reports
-- the error -1, although it has entered the file with its memory.
pub ramfs_create_memory :
    (grows fuel hi : ℕ) (s : Ramfs) (name : Buffer) (cs : List ℕ) (cells : Cells)
    → IsString name 0 cs
    → s.fs_true ≡ true
    → s.ramfs_file_count < ramfs_max_files
    → IsArea s.heap.block s.heap.heap_start hi cells
    → length cells < fuel
    → found ramfs_max_file_size cells ≢ 0
    → (t : Ramfs) × (ramfs_create (suc grows) fuel s name ≡ some (minus_one, t))
      × (t.ramfs_file_count ≡ s.ramfs_file_count + 1)
      × ((t.ramfs_files s.ramfs_file_count).data_ptr
          ≡ found ramfs_max_file_size cells + header_size)
ramfs_create_memory grows fuel hi s name cs cells hn on room area enough fits =
    let (p, h, run, a) =
      malloc-Allocated grows fuel ramfs_max_file_size hi s.heap cells area enough fits in
    let (r, t, made, cases) = ramfs_create-Created (suc grows) fuel s name cs p h hn run in
    elim cases [
      | inl off ↦ absurd (ground (arith, off.0))
      | inr (inl full) ↦ absurd (omega (arith, full.1))
      | inr (inr new) ↦
          let created = new.2 in
          let memory : (p == 0) ≡ false = ground (arith, a.address) in
          let status : r ≡ minus_one = created.status ∙ rw memory in
          (
            t,
            made ∙ ap (λ (k : ℕ). some (k, t)) status,
            created.counted,
            created.pointer ∙ a.address,
          )
    ]
