-- ===== src/Process/Create.antt =====
-- `create_process` and `__fork` of process/fork.c.
use nika_kernel.Prelude.{
  ℕ, zero, suc, ◌+◌, ◌-◌, ◌<◌, ◌≡◌, ◌≢◌, ◌⊎◌, refl, arith, ap, sym, ◌∙◌, ◌==◌, if◌then◌else◌,
  ==_iff, ==-false_of_ne, true, Bool-cases, inl, inr, some, u32,
}
use nika_kernel.Heap.{Heap, malloc}
use nika_kernel.Paging.{Machine, copy_addr_space}
use nika_kernel.Process.{Kernel, Process, process_size, heap_of, fill_process, create_process, fork}
use nika_kernel.Process.Ring.{IsRing}

-- The process at `p` is the new one.
pub record Started (k : Kernel) (p eip : ℕ) (t : Kernel) : Type 0 where
  pub head : t.process_list ≡ p
  pub link : (t.process p).next ≡ k.process_list
  pub pid : (t.process p).pid ≡ k.next_pid
  pub entry : (t.process p).eip ≡ eip
  pub stack : (t.process p).esp ≡ 0xbffff0
  pub directory : (t.process p).page_dir ≡ (t.process p).page_dir_phys
  pub others : (q : ℕ) → q ≢ p → t.process q ≡ k.process q
  pub same_current : t.current_process ≡ k.current_process
  pub next_pid : t.next_pid ≡ u32 (k.next_pid + 1)

fill_process-Started :
    (k : Kernel) (p : ℕ) (h : Heap) (eip : ℕ) → Started k p eip (fill_process k p h eip)
unfolding fill_process
fill_process-Started k p h eip =
    let here : (p == p) ≡ true = (==_iff p p).1 refl in
    record {
      head = refl;
      link = rw here;
      pid = rw here;
      entry = rw here;
      stack = rw here;
      directory = rw here;
      others = λ q ne. rw (==-false_of_ne p q (λ e. ne (sym e)));
      same_current = refl;
      next_pid = refl;
    }

-- A place in front of the others.
abbrev pub push_front : ℕ → (ℕ → ℕ) → ℕ → ℕ
push_front p place i = if i == 0 then p else place (i - 1)

Started-IsRing :
    (k t : Kernel) (p eip : ℕ) (place : ℕ → ℕ) (n : ℕ)
    → IsRing k place n
    → p ≢ 0
    → ((i : ℕ) → i < n → place i ≢ p)
    → Started k p eip t
    → IsRing t (push_front p place) (n + 1)
Started-IsRing k t p eip place n ring real new s = record {
  some_process = omega arith;
  head = s.head;
  real = λ i lt. ground (arith, ring.real (i - 1));
  links = link;
  last =
      ap (λ a. (t.process a).next) (behind (n + 1 - 1) (n - 1) (omega (arith, ring.some_process)))
      ∙ older (n - 1) (omega (arith, ring.some_process))
      ∙ ring.last;
}
  where
    behind : (i j : ℕ) → i ≡ j + 1 → push_front p place i ≡ place j
    behind i j e = ground (arith, ap place {x = i - 1} {y = j} (omega arith))

    older : (j : ℕ) → j < n → (t.process (place j)).next ≡ (k.process (place j)).next
    older j lt = ap (λ (q : Process). q.next) (s.others (place j) (new j lt))

    link :
        (i : ℕ)
        → i + 1 < n + 1
        → (t.process (push_front p place i)).next ≡ push_front p place (i + 1)
    link zero lt = s.link ∙ ring.head ∙ sym (behind (0 + 1) 0 refl)
    link (suc j) lt =
        ap (λ a. (t.process a).next) (behind (suc j) j (omega arith))
        ∙ older j (omega arith)
        ∙ ring.links j (omega arith)
        ∙ sym (behind (suc j + 1) (j + 1) (omega arith))

-- `create_process`, when `malloc` gives memory that no process of the list stands in, puts a
-- process with the next number in front of the list and changes no other process.
pub create_process-Started :
    (grows fuel : ℕ) (k : Kernel) (eip p : ℕ) (h : Heap) (place : ℕ → ℕ) (n : ℕ)
    → malloc grows fuel process_size (heap_of k) ≡ some (p, h)
    → p ≢ 0
    → IsRing k place n
    → ((i : ℕ) → i < n → place i ≢ p)
    → (t : Kernel) × (create_process grows fuel k eip ≡ some (p, t))
      × Started k p eip t
      × IsRing t (push_front p place) (n + 1)
unfolding create_process
create_process-Started grows fuel k eip p h place n run real ring new =
    let s = fill_process-Started k p h eip in
    (
      fill_process k p h eip,
      rw run,
      s,
      Started-IsRing k (fill_process k p h eip) p eip place n ring real new s,
    )

-- Every branch of `__fork`, when `malloc` returns: -1 without a change if no process runs; -1 if
-- there is no memory, and then the list of processes is lost and a number used up; else the number
-- of the new process, which heads the list, starts where the parent last stood, and does not run yet,
-- and then `copy_addr_space` from the parent's directory into the new one is all that is done to page
-- tables and page allocator beyond what `create_process` does: no call of `__fork` returns 0 for being
-- the child.
pub fork_lem :
    (grows fuel : ℕ) (k : Kernel) (p : ℕ) (h : Heap)
    → malloc grows fuel process_size (heap_of k) ≡ some (p, h)
    → let parent = k.current_process in
      (r : ℕ) × (t : Kernel) × (fork grows fuel k ≡ some (r, t))
      × (((parent ≡ 0) × (r ≡ 0xffffffff) × (t ≡ k))
          ⊎ ((parent ≢ 0)
              × (p ≡ 0)
              × (r ≡ 0xffffffff)
              × (t.process_list ≡ 0)
              × (t.next_pid ≡ u32 (k.next_pid + 1)))
          ⊎ (let born = fill_process k p h (k.process parent).eip in
              (parent ≢ 0)
              × (p ≢ 0)
              × (r ≡ k.next_pid)
              × Started k p (k.process parent).eip t
              × (t.machine
                  ≡ copy_addr_space born.machine
                      (born.process parent).page_dir
                      (born.process p).page_dir)))
unfolding fork create_process
fork_lem grows fuel k p h run = elim (Bool-cases (k.current_process == 0)) [
  | inl idle ↦ (0xffffffff, k, rw idle, inl ((==_iff _ 0).0 idle, refl, refl))
  | inr busy ↦
      let t = fill_process k p h (k.process k.current_process).eip in
      let s = fill_process-Started k p h (k.process k.current_process).eip in
      let real : k.current_process ≢ 0 = λ e. ground arith in
      elim (Bool-cases (p == 0)) [
        | inl null ↦ (
          0xffffffff,
          t,
          rw (busy, run, null),
          inr (inl (real, (==_iff p 0).0 null, refl, s.head ∙ (==_iff p 0).0 null, s.next_pid)),
        )
        | inr memory ↦
            let same : (t.current_process == k.current_process) ≡ true =
              (==_iff _ _).1 s.same_current in
            let u : Kernel = record t {
              machine =
                  copy_addr_space t.machine (t.process k.current_process).page_dir
                    (t.process p).page_dir;
            } in
            (
              (t.process p).pid,
              u,
              rw (busy, run, memory, same),
              inr (
                  inr (
                    real,
                    (λ (e : p ≡ 0). ground arith),
                    s.pid,
                    same_processes t u.machine s,
                    refl,
                  )),
            )
      ]
]
  where
    -- The copy of the address space is nothing to the processes.
    same_processes :
        (t : Kernel) (m : Machine)
        → Started k p (k.process k.current_process).eip t
        → Started k p (k.process k.current_process).eip (record t { machine = m })
    same_processes t m s = record {
      head = s.head;
      link = s.link;
      pid = s.pid;
      entry = s.entry;
      stack = s.stack;
      directory = s.directory;
      others = s.others;
      same_current = s.same_current;
      next_pid = s.next_pid;
    }
