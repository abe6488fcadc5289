-- ===== src/Paging.antt =====
-- memory/paging.c and memory/pf.c: page directories and page tables in physical memory. `word` is
-- the memory read as 32-bit words at addresses that are multiples of 4; a table is named by its
-- address and 0 is NULL. `kernel_page_dir` and the page directory register are part of the state.
pub mod Entry
pub mod Walk
pub mod Install
pub mod Map
pub mod Supply
pub mod Identity
pub mod Region
pub mod Fault
pub mod Clone
pub mod Flag
mod Tests
use nika_kernel.Prelude.{
  ℕ, zero, suc, ◌+◌, ◌-◌, ◌*◌, ◌/◌, ◌%◌, ◌^◌, bit_and, bit_or, Bool, true, false, not, ◌&&◌, Option,
  none, some, ◌==◌, ltb, if◌then◌else◌, add32, sub32, mul32, ◌>>>◌,
}
use nika_kernel.Pmm.{Pmm, page_size, alloc_page}

pub record Machine : Type 0 where
  pub pmm : Pmm
  pub word : ℕ → ℕ
  pub kernel_page_dir : ℕ
  pub cr3 : ℕ
  pub paging : Bool

abbrev pub page_present : ℕ
page_present = 0x1

abbrev pub page_rw : ℕ
page_rw = 0x2

abbrev pub page_user : ℕ
page_user = 0x4

abbrev pub page_write_through : ℕ
page_write_through = 0x8

abbrev pub page_entries : ℕ
page_entries = 1024

abbrev pub kernel_pd_index : ℕ
kernel_pd_index = 0xc0000000 >>> 22

-- `table[i]`, and `table[i] = v`.
abbrev pub slot : ℕ → ℕ → ℕ
slot table i = table + 4 * i

abbrev pub put : (ℕ → ℕ) → ℕ → ℕ → ℕ → ℕ
put m a v b = if a == b then v else m b

abbrev pub store : Machine → ℕ → ℕ → Machine
store s a v = record s { word = put s.word a v }

-- `for (i = 0; i < n; i++) table[i] = 0`, from the last round on.
unfoldable pub zero_words : ℕ → ℕ → (ℕ → ℕ) → ℕ → ℕ
zero_words zero table m = m
zero_words (suc n) table m = put (zero_words n table m) (slot table n) 0

unfoldable pub create_page_table : Machine → ℕ × Machine
unfolding zero_words
create_page_table s =
    let out = alloc_page s.pmm in
    (out.0, record s { pmm = out.1; word = zero_words page_entries out.0 s.word })

abbrev pub is_present : ℕ → Bool
is_present e = not (bit_and e page_present == 0)

-- The entry that `map_page` and `copy_addr_space` make for a page or table.
unfoldable pub user_entry : ℕ → ℕ
user_entry page = bit_or (bit_or (bit_or page page_present) page_rw) page_user

abbrev pub frame_of : ℕ → ℕ
frame_of e = bit_and e 0xfffff000

-- The first half of `map_page`: a table for entry `i` of the directory, if there is none.
unfoldable pub ensure_table : Machine → ℕ → ℕ → Machine
unfolding create_page_table user_entry
ensure_table s pd i =
    let out = create_page_table s in
    if is_present (s.word (slot pd i)) then s else store out.1 (slot pd i) (user_entry out.0)

-- The entry for a page in its table.
unfoldable pub page_entry : ℕ → ℕ → ℕ
page_entry phys flags = bit_or (bit_or phys (bit_and flags 0xfff)) page_present

unfoldable pub map_page : Machine → ℕ → ℕ → ℕ → ℕ → Machine
unfolding ensure_table page_entry
map_page s pd virt phys flags =
    let pd_index = virt >>> 22 in
    let pt_index = bit_and (virt >>> 12) 0x3ff in
    let t = ensure_table s pd pd_index in
    store t (slot (frame_of (t.word (slot pd pd_index))) pt_index) (page_entry phys flags)

-- The loop of `map_physical_region` from round `i` on, with `n` rounds left.
unfoldable pub map_rounds : ℕ → ℕ → Machine → ℕ → ℕ → ℕ → Machine
unfolding map_page
map_rounds zero i s pd base flags = s
map_rounds (suc n) i s pd base flags =
    let addr = add32 base (mul32 i page_size) in
    map_rounds n (i + 1) (map_page s pd addr addr flags) pd base flags

unfoldable pub map_physical_region : Machine → ℕ → ℕ → ℕ → ℕ → Machine
unfolding map_rounds
map_physical_region s pd phys_start size flags =
    let aligned = frame_of phys_start in
    let pages =
      add32 (sub32 (add32 size page_size) 1 / page_size)
        (sub32 (add32 (sub32 phys_start aligned) page_size) 1 / page_size) in
    map_rounds pages 0 s pd aligned flags

-- The reload of the page directory register changes nothing in the model.
unfoldable pub map_framebuffer : Machine → ℕ → ℕ → Machine
unfolding map_physical_region
map_framebuffer s fb_addr fb_size =
    map_physical_region s s.kernel_page_dir fb_addr fb_size (bit_or page_rw page_write_through)

-- A page from the allocator, mapped for the user at `virt`.
unfoldable pub map_new_page : Machine → ℕ → ℕ → Machine
unfolding map_page
map_new_page s pd virt =
    let out = alloc_page s.pmm in
    map_page (record s { pmm = out.1 }) pd virt out.0 (bit_or page_rw page_user)

unfoldable pub map_code : ℕ → ℕ → Machine → ℕ → ℕ → Machine
unfolding map_new_page
map_code zero i s pd code_addr = s
map_code (suc n) i s pd code_addr =
    map_code n (i + 1) (map_new_page s pd (add32 code_addr (mul32 i page_size))) pd code_addr

unfoldable pub map_stack : ℕ → ℕ → Machine → ℕ → ℕ → Machine
unfolding map_new_page
map_stack zero i s pd stack_addr = s
map_stack (suc n) i s pd stack_addr =
    map_stack n (i + 1) (map_new_page s pd (sub32 stack_addr (mul32 (add32 i 1) page_size))) pd
      stack_addr

unfoldable pub map_user_space : Machine → ℕ → ℕ → ℕ → ℕ → ℕ → Machine
unfolding map_code map_stack
map_user_space s pd code_addr code_size stack_addr stack_size =
    let coded = map_code (sub32 (add32 code_size page_size) 1 / page_size) 0 s pd code_addr in
    map_stack (sub32 (add32 stack_size page_size) 1 / page_size) 0 coded pd stack_addr

-- `for (i = KERNEL_PD_INDEX; i < 1024; i++) new_pd[i] = kernel_page_dir[i]`, with `n` rounds left.
unfoldable pub copy_entries : ℕ → ℕ → ℕ → ℕ → (ℕ → ℕ) → ℕ → ℕ
copy_entries zero i from to m = m
copy_entries (suc n) i from to m =
    copy_entries n (i + 1) from to (put m (slot to i) (m (slot from i)))

unfoldable pub clone_kernel_space : Machine → ℕ → Machine
unfolding copy_entries
clone_kernel_space s new_pd = record s {
  word = copy_entries (1024 - kernel_pd_index) kernel_pd_index s.kernel_page_dir new_pd s.word;
}

-- The bytes of a page, word by word: both pages are aligned.
unfoldable pub copy_page : (ℕ → ℕ) → ℕ → ℕ → ℕ → ℕ
unfolding copy_entries
copy_page m src dst = copy_entries page_entries 0 src dst m

-- The inner loop of `copy_addr_space` from entry `i` on.
unfoldable pub copy_table : ℕ → ℕ → Machine → ℕ → ℕ → Machine
unfolding copy_page user_entry
copy_table zero i s src_pt dst_pt = s
copy_table (suc n) i s src_pt dst_pt =
    let e = s.word (slot src_pt i) in
    let out = alloc_page s.pmm in
    let copied = record s {
      pmm = out.1;
      word = put (copy_page s.word (frame_of e) out.0) (slot dst_pt i) (user_entry out.0);
    } in
    copy_table n (i + 1) (if is_present e then copied else s) src_pt dst_pt

-- The outer loop, over the entries below the kernel's.
unfoldable pub copy_directory : ℕ → ℕ → Machine → ℕ → ℕ → Machine
unfolding zero_words copy_table user_entry
copy_directory zero i s src_pd dst_pd = s
copy_directory (suc n) i s src_pd dst_pd =
    let e = s.word (slot src_pd i) in
    let out = alloc_page s.pmm in
    let with_table = record s {
      pmm = out.1;
      word = put (zero_words page_entries out.0 s.word) (slot dst_pd i) (user_entry out.0);
    } in
    copy_directory n (i + 1)
      (if is_present e then copy_table 1024 0 with_table (frame_of e) out.0 else s) src_pd dst_pd

unfoldable pub copy_addr_space : Machine → ℕ → ℕ → Machine
unfolding copy_directory
copy_addr_space s src_pd dst_pd = copy_directory kernel_pd_index 0 s src_pd dst_pd

-- The loop of `init_pages` over the pages from number `i` on.
unfoldable pub identity_rounds : ℕ → ℕ → Machine → Machine
unfolding map_page
identity_rounds zero i s = s
identity_rounds (suc n) i s =
    identity_rounds n (i + 1) (map_page s s.kernel_page_dir (i * page_size) (i * page_size) page_rw)

unfoldable pub init_pages : Machine → Machine
init_pages s =
    let out = alloc_page s.pmm in
    let empty = record s {
      pmm = out.1;
      word = zero_words page_entries out.0 s.word;
      kernel_page_dir = out.0;
    } in
    record (identity_rounds (0x800000 / page_size) 0 empty) { cr3 = out.0; paging = true }

-- memory/pf.c. `panic` prints and returns, so that both errors go on with the mapping.
unfoldable pub page_fault_handler : Machine → ℕ → ℕ → ℕ → Machine
page_fault_handler s pd error addr =
    let out = alloc_page s.pmm in
    map_page (record s { pmm = out.1 }) pd (frame_of addr) out.0 (bit_or page_rw page_user)
