-- ===== src/Paging.antt =====
-- src/memory/paging/paging.c: page directories and page tables in the words of memory. A pointer to
-- a word array is its address, and its word `i` lies at the address plus `4 * i`.
-- The instructions that load CR3, enable paging and flush the TLB change no memory, and are left
-- out; `paging_switch` keeps the address of the current directory.
pub mod Walk
pub mod Map
pub mod Fresh
mod Tests
use lazy_os.Prelude.{
  ℕ, zero, suc, ◌+◌, ◌-◌, ◌*◌, ◌/◌, ◌%◌, ◌^◌, bit_and, bit_or, Bool, true, false, not, ◌==◌,
  if◌then◌else◌, update, u32, neg, is_negative,
}
use lazy_os.Heap.{einvarg, no_memory}
use lazy_os.Kheap.{Kernel, kzalloc}
use lazy_os.Pmm.{get_free_physical_address, free_physical_frame}

abbrev pub page_size : ℕ
page_size = 4096

abbrev pub total_entries_per_table : ℕ
total_entries_per_table = 1024

abbrev pub kernel_shared_pd_entries : ℕ
kernel_shared_pd_entries = 32

abbrev pub access_from_all : ℕ
access_from_all = 0b00000100

abbrev pub is_writable : ℕ
is_writable = 0b00000010

abbrev pub is_present : ℕ
is_present = 0b00000001

-- The kernel's heap and memory, the bitmap of frames, and the current directory.
pub record System : Type 0 where
  pub kernel : Kernel
  pub bitmap : ℕ → ℕ
  pub current_directory : ℕ

unfoldable pub load : System → (array i : ℕ) → ℕ
load s array i = s.kernel.memory (u32 (array + 4 * i))

unfoldable pub store : (array i value : ℕ) → System → System
store array i value s = record s {
  kernel = record s.kernel { memory = update s.kernel.memory (u32 (array + 4 * i)) value };
}

unfoldable pub alloc_zeroed : (size : ℕ) → System → ℕ × System
alloc_zeroed size s =
    let (ptr, kernel) = kzalloc size s.kernel in (ptr, record s { kernel = kernel })

unfoldable pub paging_switch : (directory : ℕ) → System → System
paging_switch directory s = record s { current_directory = directory }

unfoldable pub paging_is_aligned : ℕ → Bool
paging_is_aligned addr = addr % page_size == 0

-- The result is the code, the directory index and the table index; the callers' variables are 0
-- before the call.
unfoldable pub paging_get_indexes : (virtual_address : ℕ) → ℕ × ℕ × ℕ
unfolding paging_is_aligned
paging_get_indexes virtual_address =
    if paging_is_aligned virtual_address
    then (
      0,
      virtual_address / (total_entries_per_table * page_size),
      virtual_address % (total_entries_per_table * page_size) / page_size,
    )
    else (neg einvarg, 0, 0)

-- The page directory's entry, with a new page table where there is none yet. The code is not 0 if
-- the heap is out of memory.
unfoldable pub ensure_table : (directory directory_index : ℕ) → System → ℕ × ℕ × System
unfolding load store alloc_zeroed
ensure_table directory directory_index s =
    let entry = load s directory directory_index in
    let (new_table, s') = alloc_zeroed (4 * total_entries_per_table) s in
    let fresh = bit_or (bit_or (bit_or new_table is_present) is_writable) access_from_all in
    if bit_and entry is_present == 0
    then (if new_table == 0
        then (neg no_memory, entry, s')
        else (0, fresh, store directory directory_index fresh s'))
    else (0, entry, s)

unfoldable pub paging_set : (directory virtual_addr physical_addr : ℕ) → System → ℕ × System
unfolding paging_is_aligned paging_get_indexes ensure_table
paging_set directory virtual_addr physical_addr s =
    let (res, directory_index, table_index) = paging_get_indexes virtual_addr in
    let (code, entry, s') = ensure_table directory directory_index s in
    if not (paging_is_aligned virtual_addr)
    then (neg einvarg, s)
    else if is_negative res
    then (res, s)
    else if is_negative code
    then (code, s')
    else (0, store (bit_and entry 0xfffff000) table_index physical_addr s')

unfoldable pub paging_get_physical : (directory virt : ℕ) → System → ℕ
unfolding paging_get_indexes load
paging_get_physical directory virt s =
    let (res, dir_idx, tbl_idx) = paging_get_indexes virt in
    let pd_entry = load s directory dir_idx in
    let pt_entry = load s (bit_and pd_entry 0xfffff000) tbl_idx in
    if is_negative res
    then 0
    else if bit_and pd_entry is_present == 0
    then 0
    else if bit_and pt_entry is_present == 0
    then 0
    else bit_or (bit_and pt_entry 0xfffff000) (bit_and virt 0xfff)

-- The loop of `vmm_alloc` with `k` pages left, from the page `i`. `false` is its early return.
unfoldable pub vmm_alloc_loop :
    (k : ℕ) → (directory virt_start flags i : ℕ) → System → Bool × System
unfolding paging_set
vmm_alloc_loop zero directory virt_start flags i s = (true, s)
vmm_alloc_loop (suc k) directory virt_start flags i s =
    let virt = u32 (virt_start + u32 (i * page_size)) in
    let (phys, bitmap) = get_free_physical_address s.bitmap in
    let given = record s { bitmap = bitmap } in
    let mapped = (paging_set directory virt (bit_or phys flags) given).1 in
    let rest = vmm_alloc_loop k directory virt_start flags (i + 1) mapped in
    if phys == neg no_memory then (false, given) else rest

unfoldable pub vmm_alloc : (directory virt_start size flags : ℕ) → System → ℕ × System
unfolding vmm_alloc_loop paging_is_aligned
vmm_alloc directory virt_start size flags s =
    let pages = u32 (size + page_size - 1) / page_size in
    let (done, s') = vmm_alloc_loop pages directory virt_start flags 0 s in
    if not (paging_is_aligned virt_start)
    then (neg einvarg, s)
    else if done
    then (u32 (virt_start + u32 (pages * page_size)), s')
    else (0, s')

-- One round of `free_vmm` at an aligned page.
unfoldable pub free_page : (directory virt : ℕ) → System → System
unfolding paging_get_indexes load store
free_page directory virt s =
    let (res, dir_idx, tbl_idx) = paging_get_indexes virt in
    let pd_entry = load s directory dir_idx in
    let table = bit_and pd_entry 0xfffff000 in
    let pt_entry = load s table tbl_idx in
    let freed = record s { bitmap = free_physical_frame (bit_and pt_entry 0xfffff000) s.bitmap } in
    if bit_and pd_entry is_present == 0
    then s
    else if bit_and pt_entry is_present == 0
    then s
    else store table tbl_idx 0 freed

-- The loop of `free_vmm` with `k` pages left, from the page `i`.
unfoldable pub free_vmm_loop : (k : ℕ) → (directory virt_start i : ℕ) → System → ℕ × System
unfolding free_page
free_vmm_loop zero directory virt_start i s = (0, s)
free_vmm_loop (suc k) directory virt_start i s =
    let virt = u32 (virt_start + u32 (i * page_size)) in
    let res = (paging_get_indexes virt).0 in
    let rest = free_vmm_loop k directory virt_start (i + 1) (free_page directory virt s) in
    if is_negative res then (res, s) else rest

unfoldable pub free_vmm : (directory virt_start size : ℕ) → System → ℕ × System
unfolding free_vmm_loop paging_is_aligned
free_vmm directory virt_start size s =
    let pages = u32 (size + page_size - 1) / page_size in
    if not (paging_is_aligned virt_start)
    then (neg einvarg, s)
    else free_vmm_loop pages directory virt_start 0 s

-- The entries of one page table of `paging_new_4gb`, with `k` entries left, from the entry `j`.
unfoldable pub fill_table : (k : ℕ) → (entry offset flags j : ℕ) → System → System
unfolding store
fill_table zero entry offset flags j s = s
fill_table (suc k) entry offset flags j s =
    fill_table k entry offset flags (j + 1)
      (store entry j (bit_or (u32 (offset + j * page_size)) flags) s)

-- The page tables, with `k` directory entries left, from the entry `i`.
unfoldable pub fill_directory : (k : ℕ) → (directory offset flags i : ℕ) → System → System
unfolding fill_table alloc_zeroed
fill_directory zero directory offset flags i s = s
fill_directory (suc k) directory offset flags i s =
    let (entry, s') = alloc_zeroed (4 * total_entries_per_table) s in
    let filled = fill_table total_entries_per_table entry offset flags 0 s' in
    fill_directory k directory (u32 (offset + total_entries_per_table * page_size)) flags (i + 1)
      (store directory i (bit_or (bit_or entry flags) is_writable) filled)

-- The structure that both constructors return holds the address of the directory.
unfoldable pub paging_new_4gb : (flags : ℕ) → System → ℕ × System
unfolding fill_directory alloc_zeroed store
paging_new_4gb flags s =
    let (directory, s1) = alloc_zeroed (4 * total_entries_per_table) s in
    let s2 = fill_directory total_entries_per_table directory 0 flags 0 s1 in
    let (ptr, s3) = alloc_zeroed 4 s2 in (ptr, store ptr 0 directory s3)

-- The shared entries, with `k` left, from the entry `i`.
unfoldable pub share_entries : (k : ℕ) → (directory kernel_directory i : ℕ) → System → System
unfolding load store
share_entries zero directory kernel_directory i s = s
share_entries (suc k) directory kernel_directory i s =
    share_entries k directory kernel_directory (i + 1)
      (store directory i (load s kernel_directory i) s)

unfoldable pub paging_new_process_directory : (kernel_directory : ℕ) → System → ℕ × System
unfolding share_entries alloc_zeroed store
paging_new_process_directory kernel_directory s =
    let (directory, s1) = alloc_zeroed (4 * total_entries_per_table) s in
    let s2 = share_entries kernel_shared_pd_entries directory kernel_directory 0 s1 in
    let (ptr, s3) = alloc_zeroed 4 s2 in
    if directory == 0
    then (0, s1)
    else if ptr == 0
    then (0, s3)
    else (ptr, store ptr 0 directory s3)
