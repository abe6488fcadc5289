-- ===== src/Process/Ring.antt =====
-- `schedule` of process/fork.c goes around the list of processes.
use mathlib.Core.Path.{subst}
use native.Mathlib.Nat.{mod-lt, mod-eq_of_lt, mod-add-mod, mod_self}
use nika_kernel.Prelude.{
  ℕ, zero, suc, ◌+◌, ◌-◌, ◌%◌, ◌<◌, ◌≡◌, ◌≢◌, refl, arith, ap, sym, ◌∙◌, ◌==◌, if◌then◌else◌,
  ==-false_of_ne, Bool, false, Bool-cases, ltb, inl, inr,
}
use nika_kernel.Process.{Kernel, switch_to_process, next_process, schedule}

-- The list holds the `n` processes at the addresses `place 0`, `place 1` and so on.
pub record IsRing (k : Kernel) (place : ℕ → ℕ) (n : ℕ) : Type 0 where
  pub some_process : 0 < n
  pub head : k.process_list ≡ place 0
  pub real : (i : ℕ) → i < n → place i ≢ 0
  pub links : (i : ℕ) → i + 1 < n → (k.process (place i)).next ≡ place (i + 1)
  pub last : (k.process (place (n - 1))).next ≡ 0

-- The process at `p` runs, in its address space.
abbrev pub turn_to : Kernel → ℕ → Kernel
turn_to k p = record k {
  current_process = p;
  machine = record k.machine { cr3 = (k.process p).page_dir_phys };
}

-- `schedule` when the next process is `p`.
pub schedule_next :
    (k : Kernel) (p : ℕ)
    → k.process_list ≢ 0
    → next_process k ≡ p
    → p ≢ 0
    → schedule k ≡ turn_to k p
unfolding schedule switch_to_process
schedule_next k p some_list e real =
    let some' : (k.process_list == 0) ≡ false = ==-false_of_ne k.process_list 0 some_list in
    let real' : (p == 0) ≡ false = ==-false_of_ne p 0 real in
    let first : schedule k
        ≡ switch_to_process (record k { current_process = next_process k }) (next_process k) =
      ap
        (λ (c : Bool).
          if c
          then k
          else switch_to_process (record k { current_process = next_process k }) (next_process k))
        some' in
    let second : switch_to_process (record k { current_process = p }) p ≡ turn_to k p =
      ap (λ (c : Bool). if c then (record k { current_process = p }) else turn_to k p) real' in
    first ∙ ap (λ q. switch_to_process (record k { current_process = q }) q) e ∙ second

next_in_ring :
    (k : Kernel) (place : ℕ → ℕ) (n i : ℕ)
    → IsRing k place n
    → i < n
    → k.current_process ≡ place i
    → next_process k ≡ place ((i + 1) % n)
next_in_ring k place n i ring lt now =
    let here = ap (λ a. (k.process a).next) now in
    elim (Bool-cases (ltb (i + 1) n)) [
      | inl inside ↦
          let index : (i + 1) % n ≡ i + 1 = mod-eq_of_lt {n = i + 1} {m = n} (ground arith) in
          ground (arith, ap place index, here, ring.real i lt, ring.links i, ring.real (i + 1))
      | inr at_end ↦
          let index : (i + 1) % n ≡ 0 =
            ap (λ (x : ℕ). x % n) {x = i + 1} {y = n} (ground arith) ∙ mod_self n in
          let end_index : i ≡ n - 1 = ground arith in
          let end = ap (λ a. (k.process (place a)).next) end_index in
          ground (arith, ap place index, here, end, ring.real i lt, ring.last, ring.head)
    ]

-- Process `j` of the list runs, in its address space.
pub record InTurn (k : Kernel) (place : ℕ → ℕ) (j : ℕ) : Type 0 where
  pub current : k.current_process ≡ place j
  pub space : k.machine.cr3 ≡ (k.process (place j)).page_dir_phys

pub schedule-InTurn :
    (k : Kernel) (place : ℕ → ℕ) (n i : ℕ)
    → IsRing k place n
    → i < n
    → k.current_process ≡ place i
    → IsRing (schedule k) place n × InTurn (schedule k) place ((i + 1) % n)
schedule-InTurn k place n i ring lt now =
    let next = place ((i + 1) % n) in
    let some_list : k.process_list ≢ 0 = λ e. ring.real 0 ring.some_process (sym ring.head ∙ e) in
    let shape =
      schedule_next k next some_list (next_in_ring k place n i ring lt now)
        (ring.real ((i + 1) % n) (mod-lt (i + 1) ring.some_process)) in
    subst (λ (t : Kernel). IsRing t place n × InTurn t place ((i + 1) % n)) (sym shape)
      (
        record {
          some_process = ring.some_process;
          head = ring.head;
          real = ring.real;
          links = ring.links;
          last = ring.last;
        },
        record { current = refl; space = refl },
      )

unfoldable pub schedule_times : ℕ → Kernel → Kernel
schedule_times zero k = k
schedule_times (suc m) k = schedule_times m (schedule k)

-- Over a list of `n` processes of which process `i` runs, after `m + 1` calls of `schedule` process
-- `(i + m + 1) mod n` runs, in its address space, and the list is as it was: within `n` calls each
-- process has its turn.
pub schedule-round_robin :
    (m : ℕ) (k : Kernel) (place : ℕ → ℕ) (n i : ℕ)
    → IsRing k place n
    → i < n
    → k.current_process ≡ place i
    → IsRing (schedule_times (suc m) k) place n
      × InTurn (schedule_times (suc m) k) place ((i + suc m) % n)
unfolding schedule_times
schedule-round_robin zero k place n i ring lt now = schedule-InTurn k place n i ring lt now
schedule-round_robin (suc m) k place n i ring lt now =
    let (kept, turn) = schedule-InTurn k place n i ring lt now in
    let (ring', turn') =
      schedule-round_robin m (schedule k) place n ((i + 1) % n) kept
        (mod-lt (i + 1) ring.some_process) turn.current in
    (
      ring',
      subst (InTurn (schedule_times (suc m) (schedule k)) place)
          (mod-add-mod (i + 1) n (suc m)
            ∙ ap (λ (x : ℕ). x % n) {x = i + 1 + suc m} {y = i + suc (suc m)} (omega arith))
          turn',
    )
