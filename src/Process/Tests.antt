-- ===== src/Process/Tests.antt =====
-- Runs of process/fork.c on two processes, and its theorems there.
use nika_kernel.Prelude.{
  ℕ, ◌+◌, ◌%◌, ◌≡◌, ◌≢◌, ◌⊎◌, refl, arith, true, some, [], ◌==◌, if◌then◌else◌, u32,
}
use nika_kernel.Heap.{Heap, malloc, find_block, take_block}
use nika_kernel.Process.{
  Kernel, Process, ready, process_size, heap_of, fill_process, create_process, fork,
}
use nika_kernel.Paging.{copy_addr_space}
use nika_kernel.Process.Ring.{IsRing, InTurn, schedule_times, schedule-round_robin}
use nika_kernel.Process.Create.{Started, push_front, create_process-Started, fork_lem}

abbrev process_at : ℕ → ℕ → ℕ → Process
process_at number entry next = record {
  pid = number;
  eip = entry;
  esp = 0xbffff0;
  ebp = 0xbffff0;
  page_dir = 0x8000;
  page_dir_phys = 0x8000;
  status = ready;
  eflags = 0x202;
  next = next;
}

-- Process 2 at 0x2000 and process 1 at 0x1000, which runs.
abbrev kernel : Kernel
kernel = record {
  machine = record {
    pmm = record { bitmap = λ i. 0xef; bitmap_size = 4; total_pages = 32; mem_map = [] };
    word = λ a. 0;
    kernel_page_dir = 0x7000;
    cr3 = 0x8000;
    paging = true;
  };
  heap = record {
    pmm = record { bitmap = λ i. 0xef; bitmap_size = 4; total_pages = 32; mem_map = [] };
    block = λ a. record { size = 4084; flags = 0; next = 0 };
    heap_start = 0x3000;
    heap_end = 0x3000;
    heap_limit = 0x4000;
  };
  process = λ a. if a == 0x2000 then process_at 2 0x500 0x1000 else process_at 1 0x400 0;
  current_process = 0x1000;
  process_list = 0x2000;
  next_pid = 3;
}

abbrev place : ℕ → ℕ
place i = if i == 0 then 0x2000 else 0x1000

kernel-IsRing : IsRing kernel place 2
kernel-IsRing = record {
  some_process = omega arith;
  head = refl;
  real = λ i lt. ground arith;
  links = λ i lt. ground arith;
  last = refl;
}

schedule-round_robin_example :
    IsRing (schedule_times 3 kernel) place 2 × InTurn (schedule_times 3 kernel) place ((1 + 3) % 2)
schedule-round_robin_example =
    schedule-round_robin 2 kernel place 2 1 kernel-IsRing (omega arith) refl

-- The heap with a block for the new process at 0x3000.
abbrev heap_then : Heap
heap_then = record (heap_of kernel) { block = take_block 0x3000 process_size kernel.heap.block }

abbrev new_place : ℕ
new_place = 0x300c

gives_memory : malloc 1 2 process_size (heap_of kernel) ≡ some (0x300c, heap_then)
gives_memory = unfold malloc find_block in refl

create_process-Started_example :
    (t : Kernel) × (create_process 1 2 kernel 0x600 ≡ some (0x300c, t))
    × Started kernel 0x300c 0x600 t
    × IsRing t (push_front 0x300c place) 3
create_process-Started_example =
    create_process-Started 1 2 kernel 0x600 0x300c heap_then place 2 gives_memory (omega arith)
      kernel-IsRing (λ i lt. ground arith)

fork_lem_example :
    (r : ℕ) × (t : Kernel) × (fork 1 2 kernel ≡ some (r, t))
    × (((kernel.current_process ≡ 0) × (r ≡ 0xffffffff) × (t ≡ kernel))
        ⊎ ((kernel.current_process ≢ 0)
            × (new_place ≡ 0)
            × (r ≡ 0xffffffff)
            × (t.process_list ≡ 0)
            × (t.next_pid ≡ u32 (3 + 1)))
        ⊎ ((kernel.current_process ≢ 0)
            × (new_place ≢ 0)
            × (r ≡ 3)
            × Started kernel 0x300c 0x400 t
            × (t.machine
                ≡ copy_addr_space
                    (fill_process kernel 0x300c heap_then 0x400).machine
                    ((fill_process kernel 0x300c heap_then 0x400).process 0x1000).page_dir
                    ((fill_process kernel 0x300c heap_then 0x400).process 0x300c).page_dir)))
fork_lem_example = fork_lem 1 2 kernel 0x300c heap_then gives_memory
