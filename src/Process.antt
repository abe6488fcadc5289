-- ===== src/Process.antt =====
-- process/fork.c: processes, the scheduler and `__fork`, over the heap, the page allocator and the
-- page tables. `process` is the memory read as process structures: the one at each address.
pub mod Ring
pub mod Create
mod Tests
use nika_kernel.Prelude.{
  ℕ, zero, suc, ◌+◌, ◌-◌, Option, none, some, ◌==◌, if◌then◌else◌, u32, bit_or, not,
}
use nika_kernel.Prelude.Fallible.{◌>>=◌}
use nika_kernel.Pmm.{Pmm, page_size, alloc_page}
use nika_kernel.Heap.{Heap, malloc}
use nika_kernel.Paging.{
  Machine, zero_words, page_entries, clone_kernel_space, map_page, copy_addr_space, page_rw,
  page_user, page_present,
}

pub data ProcStatus : Type 0 where
  ready : ProcStatus
  running : ProcStatus

pub record Process : Type 0 where
  pub pid : ℕ
  pub eip : ℕ
  pub esp : ℕ
  pub ebp : ℕ
  pub page_dir : ℕ
  pub page_dir_phys : ℕ
  pub status : ProcStatus
  pub eflags : ℕ
  pub next : ℕ

-- `sizeof(process_t)`: nine words.
abbrev pub process_size : ℕ
process_size = 36

-- The page allocator of the machine is that of the heap as well.
pub record Kernel : Type 0 where
  pub machine : Machine
  pub heap : Heap
  pub process : ℕ → Process
  pub current_process : ℕ
  pub process_list : ℕ
  pub next_pid : ℕ

abbrev pub write_process : (ℕ → Process) → ℕ → Process → ℕ → Process
write_process m p v q = if p == q then v else m q

-- The page directory of a new process, and its address.
unfoldable pub create_page_dir : Machine → ℕ × Machine
create_page_dir s =
    let out = alloc_page s.pmm in
    let zeroed = record s { pmm = out.1; word = zero_words page_entries out.0 s.word } in
    (out.0, clone_kernel_space zeroed out.0)

abbrev pub stack_page : ℕ
stack_page = 0xbff000

-- The page of its stack.
unfoldable pub create_stack : Machine → ℕ → Machine
create_stack s page_dir =
    let out = alloc_page s.pmm in
    let mapped =
      map_page (record s { pmm = out.1 }) page_dir stack_page out.0
        (bit_or (bit_or page_rw page_user) page_present) in
    record mapped { word = zero_words page_entries out.0 mapped.word }

-- `create_process` with memory at `p` from `malloc`, which is not tested for NULL.
unfoldable pub fill_process : Kernel → ℕ → Heap → ℕ → Kernel
fill_process k p heap eip =
    let dir = create_page_dir (record k.machine { pmm = heap.pmm }) in
    record k {
      machine = create_stack dir.1 dir.0;
      heap = heap;
      process = write_process k.process p (record {
        pid = k.next_pid;
        eip = eip;
        esp = stack_page + page_size - 16;
        ebp = stack_page + page_size - 16;
        page_dir = dir.0;
        page_dir_phys = dir.0;
        status = ready;
        eflags = 0x202;
        next = k.process_list;
      });
      process_list = p;
      next_pid = u32 (k.next_pid + 1);
    }

-- The heap with the pages that the page allocator has now.
abbrev pub heap_of : Kernel → Heap
heap_of k = record k.heap { pmm = k.machine.pmm }

unfoldable pub create_process : ℕ → ℕ → Kernel → ℕ → Option (ℕ × Kernel)
create_process grows fuel k eip = do
  out ← malloc grows fuel process_size (heap_of k)
  some (out.0, fill_process k out.0 out.1 eip)

unfoldable pub switch_to_process : Kernel → ℕ → Kernel
switch_to_process k next = if next == 0 then k else record k {
  current_process = next;
  machine = record k.machine { cr3 = (k.process next).page_dir_phys };
}

-- The process that `schedule` turns to.
abbrev pub next_process : Kernel → ℕ
next_process k =
    if k.current_process == 0
    then k.process_list
    else if (k.process k.current_process).next == 0
    then k.process_list
    else (k.process k.current_process).next

unfoldable pub schedule : Kernel → Kernel
unfolding switch_to_process
schedule k =
    if k.process_list == 0
    then k
    else switch_to_process (record k { current_process = next_process k }) (next_process k)

-- The result is the `int` as a word, with -1 as 0xffffffff.
unfoldable pub fork : ℕ → ℕ → Kernel → Option (ℕ × Kernel)
fork grows fuel k = if k.current_process == 0 then some (0xffffffff, k) else do
  out ← create_process grows fuel k (k.process k.current_process).eip
  let t = out.1
  let copied = record t {
    machine =
        copy_addr_space t.machine (t.process k.current_process).page_dir (t.process out.0).page_dir;
  }
  let result = if copied.current_process == k.current_process then (copied.process out.0).pid else 0
  some (if out.0 == 0 then (0xffffffff, t) else (result, copied))
