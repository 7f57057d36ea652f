-- ===== src/Memory/PageTable/Targets.antt =====
-- What an entry means after its flags and its address are written.
use rust_os.Prelude.{
  ℕ, zero, suc, ◌+◌, ◌-◌, ◌*◌, ◌/◌, ◌^◌, ◌≤◌, ◌<◌, bit_and, bit_or, ◌≡◌, refl, sym, ap, ◌∙◌, true,
  false, some, arith, ◌==◌, ret, and_step, and_ones, zero_or, and_assoc, and-or, bit_and-zero,
  bit_or-zero,
}
use native.Mathlib.Nat.{pow-suc}
use rust_os.Memory.{
  AddressLibrary, page_size, kernel_physical_mapping_start, kernel_physical_mapping_end,
  from_start_addr,
}
use rust_os.Memory.Physical.{range_of, from_phys_addr_lem, aligned}
use rust_os.Memory.PageTable.Entry.{
  present, huge_page, all_flags, address_mask, PageTableLevel, level1, next_lower_level, page,
  next_table, flags, raw_address, set_flags, contains, is_present, set_address, address,
  page_target, lower_target, target_inner,
}

-- A word with no bit outside the flags, and one with no bit outside the address.
abbrev pub IsFlags : ℕ → Type 0
IsFlags f = bit_and f all_flags ≡ f

abbrev pub IsAddress : ℕ → Type 0
IsAddress addr = bit_and addr address_mask ≡ addr

-- Two masks that have no bit in common.
apart : (w m n k : ℕ) → bit_and w m ≡ w → bit_and m n ≡ k → bit_and w n ≡ bit_and w k
apart w m n k h d = ap (λ (x : ℕ). bit_and x n) (sym h) ∙ and_assoc w m n ∙ ap (bit_and w) d

pub flags_outside : (f : ℕ) → IsFlags f → bit_and f address_mask ≡ 0
flags_outside f h = apart f all_flags address_mask 0 h refl ∙ bit_and-zero f

pub address_outside : (a : ℕ) → IsAddress a → bit_and a all_flags ≡ 0
address_outside a h = apart a address_mask all_flags 0 h refl ∙ bit_and-zero a

pub raw_address-set_flags : (e f : ℕ) → IsFlags f → raw_address (set_flags e f) ≡ raw_address e
unfolding raw_address set_flags
raw_address-set_flags e f h =
    rw
      (
        and-or (bit_and e address_mask) f address_mask,
        and_assoc e address_mask address_mask,
        flags_outside f h,
      )
      (bit_or-zero (bit_and e address_mask))

pub flags-set_flags : (e f : ℕ) → IsFlags f → flags (set_flags e f) ≡ f
unfolding flags raw_address set_flags
flags-set_flags e f h =
    rw
      (
        and-or (bit_and e address_mask) f all_flags,
        and_assoc e address_mask all_flags,
        bit_and-zero e,
        h,
      )
      (zero_or f)

-- The address of a page of physical memory, and the test of `set_address`.
and_double : (a b : ℕ) → bit_and (a * 2) (b * 2) ≡ bit_and a b * 2
and_double a b =
    let h1 : a * 2 / 2 ≡ a = omega arith in
    let h2 : b * 2 / 2 ≡ b = omega arith in rw (and_step (a * 2) (b * 2), h1, h2) (omega arith)

shift_double : (a p : ℕ) → a * (p * 2) ≡ a * p * 2
shift_double a p = grind arith

and_shift : (k a b : ℕ) → bit_and (a * 2 ^ k) (b * 2 ^ k) ≡ bit_and a b * 2 ^ k
and_shift zero a b =
    let h : (x : ℕ) → x * 1 ≡ x = λ (x : ℕ). omega arith in rw (h a, h b, h (bit_and a b))
and_shift (suc k) a b = rw (
  pow-suc 2 k,
  shift_double a (2 ^ k),
  shift_double b (2 ^ k),
  shift_double (bit_and a b) (2 ^ k),
  and_double (a * 2 ^ k) (b * 2 ^ k),
  and_shift k a b,
)

pub page_number-IsAddress : (s : ℕ) → s < 2 ^ 40 → IsAddress (s * page_size)
page_number-IsAddress s h = and_shift 12 s (2 ^ 40 - 1) ∙ ap (λ (x : ℕ). x * 4096) (and_ones 40 s h)

pub set_address_lem :
    (e a : ℕ)
    → raw_address e ≡ 0
    → IsAddress a
    → (e' : ℕ) × (set_address e a ≡ ret e') × (raw_address e' ≡ a)
unfolding set_address raw_address
set_address_lem e a empty h =
    let clean : bit_and a (2 ^ 64 - 1 - address_mask) ≡ 0 =
      apart a address_mask (2 ^ 64 - 1 - address_mask) 0 h refl ∙ bit_and-zero a in
    (bit_or e a, rw clean refl, rw (and-or e a address_mask, empty, h) (zero_or a))

-- The flags that a leaf or a link gets.
pub or_present : (f : ℕ) → IsFlags f → IsFlags (bit_or f present)
or_present f h = rw (and-or f present all_flags, h)

-- An entry with address `s * page_size` and the flags `g`.
module _ (lib : AddressLibrary) (s e g : ℕ)
    (small : s * page_size ≤ kernel_physical_mapping_end - kernel_physical_mapping_start)
    (at : raw_address e ≡ s * page_size) (fl : flags e ≡ g) (is : contains g present ≡ true)
    (one_page : contains g huge_page ≡ false) where
  address_lem : address lib e ≡ ret (s * page_size + kernel_physical_mapping_start)
  unfolding address
  address_lem =
      rw (at, lib.phys_addr_lem (s * page_size) (omega arith)) (from_phys_addr_lem lib s small)

  pub leaf_target : target_inner lib e level1 ≡ ret (page (range_of s 1).start g)
  unfolding target_inner is_present lower_target page_target from_start_addr next_lower_level
  leaf_target =
      let addr = s * page_size + kernel_physical_mapping_start in
      let t : (addr == addr) ≡ true = ground arith in
      rw (fl, is, one_page, address_lem, aligned lib s small, t)

  pub link_target :
      (level lower : PageTableLevel)
      → next_lower_level level ≡ some lower
      → target_inner lib e level
        ≡ ret (next_table lower (s * page_size + kernel_physical_mapping_start))
  unfolding target_inner is_present lower_target
  link_target level lower next = rw (fl, is, one_page, next, address_lem)
