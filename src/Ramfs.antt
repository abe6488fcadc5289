-- ===== src/Ramfs.antt =====
-- fs/ramfs.c: the file system in memory and its mount points, over `malloc` of memory/heap.c.
-- `memory` holds the bytes that the `data` pointers lead to; block headers are elsewhere, in the
-- heap. An FS_STATUS is a 32-bit word, so that the error -1 is 0xffffffff. Messages are left out.
pub mod Names
pub mod Create
pub mod Transfer
pub mod RoundTrip
pub mod Mounts
pub mod Limits
mod Tests
use nika_kernel.Prelude.{
  ℕ, zero, suc, ◌+◌, ◌-◌, Bool, true, false, not, Option, none, some, ◌==◌, ltb, leb, ◌&&◌, List,
  [], ◌∷◌, if◌then◌else◌,
}
use nika_kernel.Prelude.Int.{ℤ, pos, negsuc}
use nika_kernel.Prelude.Fallible.{◌>>=◌}
use nika_kernel.Heap.{Heap, malloc}
use nika_kernel.CString.{Buffer, strcmp, strncpy, memset, memcpy}

pub record RamfsFile : Type 0 where
  pub name : Buffer
  pub data_ptr : ℕ
  pub size : ℕ

-- The functions that a `fs_ops_t` may lead to.
pub data FsFunction : Type 0 where
  no_function : FsFunction
  ramfs_create_function : FsFunction
  ramfs_write_function : FsFunction
  ramfs_read_function : FsFunction
  ramfs_list_function : FsFunction

pub record FsOps : Type 0 where
  pub create : FsFunction
  pub write : FsFunction
  pub read : FsFunction
  pub list : FsFunction

-- `ops` is a pointer to a `fs_ops_t`.
pub record Mount : Type 0 where
  pub path : Buffer
  pub ops : ℕ

pub record Ramfs : Type 0 where
  pub fs_true : Bool
  pub ramfs_ops : FsOps
  pub ramfs_files : ℕ → RamfsFile
  pub ramfs_file_count : ℕ
  pub mounts : ℕ → Mount
  pub mount_count : ℕ
  pub heap : Heap
  pub memory : ℕ → ℕ

abbrev pub ramfs_max_files : ℕ
ramfs_max_files = 64

abbrev pub ramfs_max_file_size : ℕ
ramfs_max_file_size = 1024

abbrev pub max_mounts : ℕ
max_mounts = 16

abbrev pub success : ℕ
success = 0

abbrev pub fault : ℕ
fault = 1

abbrev pub minus_one : ℕ
minus_one = 0xffffffff

abbrev pub set_entry {ℓ} : {A : Type ℓ} → (ℕ → A) → ℕ → A → ℕ → A
set_entry entries i e j = if i == j then e else entries j

-- `memcpy` and `memset` at a pointer.
abbrev pub copy_to : (ℕ → ℕ) → ℕ → Buffer → ℕ → ℕ → ℕ
copy_to memory p buf n a = if leb p a && ltb a (p + n) then buf (a - p) else memory a

unfoldable pub ramfs_init : Ramfs → Ramfs
ramfs_init s =
    let empty : RamfsFile = record { name = λ j. 0; data_ptr = 0; size = 0 } in
    record s {
      ramfs_files = λ i. if ltb i ramfs_max_files then empty else s.ramfs_files i;
      ramfs_file_count = 0;
      fs_true = true;
    }

-- The new entry, with the name in it and the pointer from `malloc`.
abbrev pub named_entry : RamfsFile → Buffer → ℕ → RamfsFile
named_entry f name p = record f { name = strncpy f.name name 63; data_ptr = p }

abbrev pub enter_file : Ramfs → Buffer → ℕ → Heap → Ramfs
enter_file s name p h =
    let i = s.ramfs_file_count in
    record s {
      ramfs_files = set_entry s.ramfs_files i (named_entry (s.ramfs_files i) name p);
      ramfs_file_count = i + 1;
      heap = h;
    }

-- The last three statements of `ramfs_create`, for file `i` with its data at `p`.
abbrev pub clear_file : Ramfs → ℕ → ℕ → Ramfs
clear_file s i p = record s {
  ramfs_files = set_entry s.ramfs_files i (record (s.ramfs_files i) { size = 0 });
  memory = copy_to s.memory p (λ j. 0) ramfs_max_file_size;
}

-- `ramfs_create` behind its two guards: `grows` and `fuel` are those of `malloc`.
unfoldable pub create_entry : ℕ → ℕ → Ramfs → Buffer → Option (ℕ × Ramfs)
create_entry grows fuel s name = do
  out ← malloc grows fuel ramfs_max_file_size s.heap
  let entered = enter_file s name out.0 out.1
  some (
      if not (out.0 == 0)
      then (minus_one, entered)
      else (success, clear_file entered s.ramfs_file_count out.0))

unfoldable pub ramfs_create : ℕ → ℕ → Ramfs → Buffer → Option (ℕ × Ramfs)
ramfs_create grows fuel s name =
    if not s.fs_true
    then some (fault, s)
    else if leb ramfs_max_files s.ramfs_file_count
    then some (minus_one, s)
    else create_entry grows fuel s name

abbrev pub is_zero : ℤ → Bool
is_zero (pos n) = n == 0
is_zero (negsuc n) = false

-- The transfer of `ramfs_write` into file `i`.
abbrev pub write_file : Ramfs → ℕ → Buffer → Ramfs
write_file s i buf =
    let f = s.ramfs_files i in
    record s {
      memory = copy_to s.memory f.data_ptr buf ramfs_max_file_size;
      ramfs_files = set_entry s.ramfs_files i (record f { size = ramfs_max_file_size });
    }

-- The loop of `ramfs_write` from file `i` on, with `n` files left: `fuel` is that of `strcmp`.
unfoldable pub write_from : ℕ → ℕ → ℕ → Ramfs → Buffer → Buffer → ℕ → Option (ℕ × Ramfs)
write_from fuel zero i s name buf len = some (fault, s)
write_from fuel (suc n) i s name buf len = do
  r ← strcmp fuel (s.ramfs_files i).name name
  let onward = write_from fuel n (i + 1) s name buf len
  if is_zero r && ltb ramfs_max_file_size len
      then some (ramfs_max_file_size, write_file s i buf)
      else onward

unfoldable pub ramfs_write : ℕ → Ramfs → Buffer → Buffer → ℕ → Option (ℕ × Ramfs)
ramfs_write fuel s name buf len =
    if not s.fs_true then some (fault, s) else write_from fuel s.ramfs_file_count 0 s name buf len

-- The loop of `ramfs_read`, which returns the status and the buffer of the caller.
unfoldable pub read_from : ℕ → ℕ → ℕ → Ramfs → Buffer → Buffer → ℕ → Option (ℕ × Buffer)
read_from fuel zero i s name buf max_len = some (fault, buf)
read_from fuel (suc n) i s name buf max_len = do
  r ← strcmp fuel (s.ramfs_files i).name name
  let f = s.ramfs_files i
  let onward = read_from fuel n (i + 1) s name buf max_len
  if is_zero r && ltb max_len f.size
      then some (max_len, memcpy buf (λ j. s.memory (f.data_ptr + j)) max_len)
      else onward

unfoldable pub ramfs_read : ℕ → Ramfs → Buffer → Buffer → ℕ → Option (ℕ × Buffer)
ramfs_read fuel s name buf max_len =
    if not s.fs_true
    then some (fault, buf)
    else read_from fuel s.ramfs_file_count 0 s name buf max_len

unfoldable pub fs_mount : Ramfs → Buffer → ℕ → ℕ × Ramfs
fs_mount s path ops =
    let mounted = record s {
      mounts = set_entry s.mounts s.mount_count (record { path = path; ops = ops });
      mount_count = s.mount_count + 1;
    } in
    if leb max_mounts s.mount_count
    then (fault, s)
    else if not s.fs_true
    then (fault, s)
    else (success, mounted)

-- The loop of `fs_get_ops` from mount `i` on.
unfoldable pub get_ops_from : ℕ → ℕ → ℕ → Ramfs → Buffer → Option ℕ
get_ops_from fuel zero i s path = some 0
get_ops_from fuel (suc n) i s path = do
  r ← strcmp fuel (s.mounts i).path path
  let onward = get_ops_from fuel n (i + 1) s path
  if is_zero r then some (s.mounts i).ops else onward

unfoldable pub fs_get_ops : ℕ → Ramfs → Buffer → Option ℕ
fs_get_ops fuel s path = get_ops_from fuel s.mount_count 0 s path

unfoldable pub list_from : ℕ → ℕ → Ramfs → List (Buffer × ℕ)
list_from zero i s = []
list_from (suc n) i s = ((s.ramfs_files i).name, (s.ramfs_files i).size) ∷ list_from n (i + 1) s

-- `ramfs_ops_ptr` is `&ramfs_ops`.
unfoldable pub ramfs_mount : Ramfs → Buffer → ℕ → Ramfs
ramfs_mount s path ramfs_ops_ptr =
    (fs_mount
      (record s {
        ramfs_ops = record {
          create = ramfs_create_function;
          write = ramfs_write_function;
          read = ramfs_read_function;
          list = ramfs_list_function;
        };
      })
      path ramfs_ops_ptr).1

-- The string "r:/".
abbrev pub root_path : Buffer
root_path j = if j == 0 then 114 else if j == 1 then 58 else if j == 2 then 47 else 0

unfoldable pub initramfs : Ramfs → ℕ → Ramfs
initramfs s ramfs_ops_ptr = ramfs_mount (ramfs_init s) root_path ramfs_ops_ptr

-- The lines that `ramfs_list` prints behind its heading, or none if it prints no listing.
unfoldable pub ramfs_list : Ramfs → Option (ℕ × List (Buffer × ℕ))
ramfs_list s =
    if not s.fs_true then none else some (s.ramfs_file_count, list_from s.ramfs_file_count 0 s)
