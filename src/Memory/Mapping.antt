-- ===== src/Memory/Mapping.antt =====
-- kernel/src/memory/mapping.rs: mapping and unmapping of several pages, on the page table at
-- `root`. The locks around the kernel's table and the allocator are not modelled: each operation
-- runs from the state that it is given.
use rust_os.Prelude.{ℕ, true, false, List, [], ◌∷◌, Exec, ret, ◌>>=◌, Result, ok, err}
use rust_os.Memory.{AddressLibrary, Page, from_start_addr}
use rust_os.Memory.PageTable.Tables.{
  Tables, Memory, existing_phys_page, new_phys_page, MapError, physical_page_allocation_failed,
  page_already_mapped, map_to,
}
use rust_os.Memory.PageTable.Changes.{
  SetFlagsError, UnmapError, set_flags, unmap, unmap_lower_half, fill_top_half_entries,
}

module _ (lib : AddressLibrary) (root : ℕ) where
  -- One round of each loop, with the rest of it.
  unfoldable pub after_map :
      (Memory → Exec (Result (Unit {0}) MapError × Memory))
      → Result Page MapError × Memory
      → Exec (Result (Unit {0}) MapError × Memory)
  after_map again (ok p, m) = again m
  after_map again (err e, m) = ret (err e, m)

  unfoldable pub allocate_and_map_pages :
      List Page → ℕ → Memory → Exec (Result (Unit {0}) MapError × Memory)
  allocate_and_map_pages [] f m = ret (ok tt, m)
  allocate_and_map_pages (p ∷ pages) f m =
      map_to lib p new_phys_page f root m >>= after_map (allocate_and_map_pages pages f)

  unfoldable pub after_set_flags :
      (Tables → Exec (Result (Unit {0}) SetFlagsError × Tables))
      → Result (Unit {0}) SetFlagsError × Tables
      → Exec (Result (Unit {0}) SetFlagsError × Tables)
  after_set_flags again (ok u, tables) = again tables
  after_set_flags again (err e, tables) = ret (err e, tables)

  unfoldable pub set_page_flags :
      List Page → ℕ → Tables → Exec (Result (Unit {0}) SetFlagsError × Tables)
  set_page_flags [] f tables = ret (ok tt, tables)
  set_page_flags (p ∷ pages) f tables =
      set_flags lib f tables root p >>= after_set_flags (set_page_flags pages f)

  unfoldable pub unmap_page : Page → Memory → Exec (Result Page UnmapError × Memory)
  unmap_page p m = unmap lib p false m root

  unfoldable pub unmap_and_free_page : Page → Memory → Exec (Result Page UnmapError × Memory)
  unmap_and_free_page p m = unmap lib p true m root

  unfoldable pub after_identity_map :
      (Memory → Exec (Result (Unit {0}) MapError × Memory))
      → Result Page MapError × Memory
      → Exec (Result (Unit {0}) MapError × Memory)
  after_identity_map again (ok p, m) = again m
  after_identity_map again (err (page_already_mapped p f), m) = again m
  after_identity_map again (err physical_page_allocation_failed, m) =
      ret (err physical_page_allocation_failed, m)

  unfoldable pub identity_map_physical_pages :
      List Page → ℕ → Memory → Exec (Result (Unit {0}) MapError × Memory)
  identity_map_physical_pages [] f m = ret (ok tt, m)
  identity_map_physical_pages (phys_page ∷ phys_pages) f m = do
    virt_page ← from_start_addr lib phys_page.start_addr phys_page.size
    result ← map_to lib virt_page (existing_phys_page phys_page) f root m
    after_identity_map (identity_map_physical_pages phys_pages f) result

  unfoldable pub clean_up_kernel_page_table : Memory → Exec Memory
  clean_up_kernel_page_table m =
      fill_top_half_entries lib root
        (record { tables = unmap_lower_half root m.tables; allocator = m.allocator })
