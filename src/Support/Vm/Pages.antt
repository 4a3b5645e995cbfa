-- ===== src/Support/Vm/Pages.antt =====
-- Page numbers and page tables: what the Pager, the refill handler and the page tables say of a
-- page agree.
use pand_aossh.Types.{ℤ, pos, negsuc}
use pand_aossh.Prelude.{
  if-split, ltb, suc, ℕ, ◌+◌, ◌*◌, ◌/◌, ◌%◌, ◌^◌, ◌≤◌, ◌<◌, ◌≡◌, refl, Bool, true, none, some,
  arith, ◌==◌, if◌then◌else◌, ==→eq,
}
use pand_aossh.Nucleus.Exceptions.{refill_index}
use pand_aossh.Support.Vm.{vpn_to_index, page_entry, uproc_stackpage, entry_hi_of}
use pand_aossh.Prelude.Tables.{holds_below, holds_below_entry}

-- An index for a page that is none of the table's: negative for a page in front of the first one, and
-- otherwise 31 or more.
abbrev pub Misses : (vpn : ℕ) → ℤ → Type 0
Misses vpn (pos n) = (vpn ≡ 0x80000 + n) × (31 ≤ n)
Misses vpn (negsuc n) = vpn + suc n ≡ 0x80000

-- Where the Pager accepts an address, the refill handler takes the same entry of the page table.
-- Everywhere else its index is the page number less 0x80000 all the same: a negative one in front of
-- the table, 31, the entry of the stack page, for the first page behind those for text, and 32 or more,
-- behind the table, for the pages after it.
pub refill_index-vpn_to_index :
    (entry_hi : ℕ)
    → ((i : ℕ) → vpn_to_index entry_hi ≡ some i → (refill_index entry_hi ≡ pos i) × (i < 32))
      × (vpn_to_index entry_hi ≡ none → Misses (entry_hi / 2 ^ 12 % 2 ^ 20) (refill_index entry_hi))
unfolding vpn_to_index refill_index
refill_index-vpn_to_index entry_hi =
    let vpn = entry_hi / 2 ^ 12 % 2 ^ 20 in
    (
      λ i h. ground arith,
      λ h.
          if-split (Misses vpn) (vpn == 0xBFFFF) (pos 31) _ (λ e. absurd (ground (arith, h, e)))
            (λ e.
              if-split (Misses vpn) (ltb vpn 0x80000) _ _ (λ l. ground (arith, l))
                (λ l. (ground (arith, l), ground (arith, h, e, l)))),
    )

abbrev vpn_of : ℕ → ℕ
vpn_of i = if i == uproc_stackpage then 0xBFFFF else 0x80000 + i

abbrev adds : ℕ → ℕ → Bool
adds i asid = entry_hi_of (vpn_of i) asid == vpn_of i * 2 ^ 12 + asid * 2 ^ 6

adds_table : holds_below (λ i. holds_below (adds i) 64) 32 ≡ true
unfolding holds_below
adds_table = refl

-- The two fields of EntryHI do not overlap.
entry_hi_of-add :
    (asid i : ℕ)
    → asid < 64
    → i < 32
    → entry_hi_of (vpn_of i) asid ≡ vpn_of i * 2 ^ 12 + asid * 2 ^ 6
entry_hi_of-add asid i a b = ==→eq _ _ (
    holds_below_entry (adds i) 64
      (holds_below_entry (λ i. holds_below (adds i) 64) 32 adds_table i b) asid a)

-- Every entry of a fresh page table is found by the page number in its EntryHI, with the ASID in
-- the field below it, and is not valid.
pub page_entry-vpn_to_index :
    (asid i : ℕ)
    → asid < 64
    → i < 32
    → (vpn_to_index (page_entry asid i).pte_entry_hi ≡ some i)
      × ((page_entry asid i).pte_entry_hi / 2 ^ 6 % 2 ^ 6 ≡ asid)
      × ((page_entry asid i).pte_entry_lo / 0x200 % 2 ≡ 0)
unfolding vpn_to_index page_entry
page_entry-vpn_to_index asid i a b = ground (arith, entry_hi_of-add asid i a b)
