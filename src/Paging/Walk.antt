-- ===== src/Paging/Walk.antt =====
-- The links that `map_memory` of src/paging/page_table_manager.cpp leaves for the page walk.
use fox_os_kernel.Prelude.{
  ℕ, ◌+◌, ◌-◌, ◌*◌, ◌/◌, ◌%◌, ◌^◌, ◌<◌, bit_and, bit_or, ◌≡◌, refl, ap, ◌∙◌, ◌⊎◌, inl, inr, Bool,
  true, arith, ◌==◌, ==_iff, Bool-cases, update, update_self, all_below, all_below_sound, and_split,
  or_split, or_zero, zero_or, and_ones, and_mask,
}
use fox_os_kernel.Bitmap.{bits}
use fox_os_kernel.Bitmap.Laws.{IsBytes}
use fox_os_kernel.PageFrames.{request_page}
use fox_os_kernel.PageFrames.Requests.{Grants, Refuses, request_page_lem}
use fox_os_kernel.Paging.Entry.{
  fields, get_address, set_flag, get_flag, present, read_write, get_address-fields,
  set_address-fields, get_flag_lem,
}
use fox_os_kernel.Paging.{Paging, linked, next_table}

-- The low two bits, by evaluation.
low_and : ℕ → Bool
low_and r = bit_and r 2 == r / 2 * 2

low_or : ℕ → Bool
low_or r = bit_or (r % 2) 2 == r % 2 + 2

low_and_lem : (r : ℕ) → r < 4 → bit_and r 2 ≡ r / 2 * 2
unfolding all_below low_and
low_and_lem r h = (==_iff (bit_and r 2) (r / 2 * 2)).0 (all_below_sound 4 low_and r refl h)

low_or_lem : (r : ℕ) → r < 4 → bit_or (r % 2) 2 ≡ r % 2 + 2
unfolding all_below low_or
low_or_lem r h = (==_iff (bit_or (r % 2) 2) (r % 2 + 2)).0 (all_below_sound 4 low_or r refl h)

set_present :
    (q r : ℕ) → q < 2 ^ 62 → r < 4 → set_flag (q * 4 + r) present true ≡ q * 4 + (r / 2 * 2 + 1)
unfolding set_flag
set_present q r hq hr =
    ap (λ z. bit_or z 1) cleared
    ∙ or_split 1 (q * 2 + r / 2) 0 0 1 (omega arith) (omega arith)
    ∙ omega (arith, zero_or (q * 2 + r / 2), or_zero 1)
  where
    cleared : bit_and (q * 4 + r) (2 ^ 64 - 1 - 1) ≡ (q * 2 + r / 2) * 2 + 0
    cleared =
        omega (
          arith,
          and_split 2 q r (2 ^ 62 - 1) 2 hr (omega arith),
          and_ones 62 q hq,
          low_and_lem r hr,
        )

set_read_write :
    (q r : ℕ) → q < 2 ^ 62 → r < 4 → set_flag (q * 4 + r) read_write true ≡ q * 4 + (r % 2 + 2)
unfolding set_flag
set_read_write q r hq hr =
    ap (λ z. bit_or z 2) cleared
    ∙ or_split 2 q (r % 2) 0 2 (omega arith) (omega arith)
    ∙ omega (arith, zero_or q, low_or_lem r hr)
  where
    cleared : bit_and (q * 4 + r) (2 ^ 64 - 1 - 2) ≡ q * 4 + r % 2
    cleared =
        omega
          (arith, and_split 2 q r (2 ^ 62 - 1) 1 hr (omega arith), and_ones 62 q hq, and_mask 1 r)

-- A linked entry names the page, has both flags, and keeps its other bits.
linked-fields :
    (hi frame lo address : ℕ)
    → hi < 2 ^ 12
    → frame < 2 ^ 40
    → lo < 2 ^ 12
    → linked (fields hi frame lo) address ≡ fields hi (address / 2 ^ 12 % 2 ^ 40) (lo / 4 * 4 + 3)
unfolding linked
linked-fields hi frame lo address h f l =
    let a : ℕ = address / 2 ^ 12 % 2 ^ 40 in
    let q : ℕ = (hi * 2 ^ 40 + a) * 2 ^ 10 + lo / 4 in
    let whole : fields hi a lo ≡ q * 4 + lo % 4 = omega arith in
    rw
      (
        set_address-fields hi frame lo f l (address / 2 ^ 12) h,
        whole,
        set_present q (lo % 4) (omega arith) (omega arith),
        set_read_write q (lo % 4 / 2 * 2 + 1) (omega arith) (omega arith),
      )
      (omega arith)

-- A 64-bit entry by its fields.
abbrev entry_fields : ℕ → ℕ
entry_fields e = fields (e / 2 ^ 52) (e / 2 ^ 12 % 2 ^ 40) (e % 2 ^ 12)

-- An entry of 64 bits and the address of a page below 2 ^ 52: the entry that is linked to the page
-- is present, and its address is the page.
pub linked_lem :
    (e address : ℕ)
    → e < 2 ^ 64
    → address < 2 ^ 52
    → address % 2 ^ 12 ≡ 0
    → (get_flag (linked e address) present ≡ true)
      × (get_address (linked e address) * 2 ^ 12 ≡ address)
linked_lem e address h a z =
    let whole : e ≡ entry_fields e = omega arith in
    let l =
      ap (λ x. linked x address) whole
      ∙ linked-fields (e / 2 ^ 52) (e / 2 ^ 12 % 2 ^ 40) (e % 2 ^ 12) address (omega arith)
          (omega arith) (omega arith) in
    rw l (
      get_flag_lem _ present (omega arith) ∙ ground arith,
      omega (
        arith,
        get_address-fields (e / 2 ^ 52) (address / 2 ^ 12 % 2 ^ 40) (e % 2 ^ 12 / 4 * 4 + 3)
            (omega arith) (omega arith),
      ),
    )

-- Every entry of every table is a 64-bit word.
abbrev pub AreWords : Paging → Type 0
AreWords s = (table i : ℕ) → s.tables table i < 2 ^ 64

page_granted :
    (s : Paging)
    → IsBytes s.allocator.page_bitmap
    → bits s.allocator.page_bitmap < 2 ^ 40
    → let page = (request_page s.allocator).0 in (page < 2 ^ 52) × (page % 2 ^ 12 ≡ 0)
page_granted s h b = go (request_page_lem s.allocator h (omega arith))
  where
    go :
        ((x : ℕ) × Grants s.allocator x (request_page s.allocator))
          ⊎ Refuses s.allocator (request_page s.allocator)
        → ((request_page s.allocator).0 < 2 ^ 52) × ((request_page s.allocator).0 % 2 ^ 12 ≡ 0)
    go (inl (x, g)) = omega (arith, g.inside, g.address)
    go (inr r) = omega (arith, r.null)

entry_stored :
    (tables : ℕ → ℕ → ℕ) (table i e : ℕ)
    → update tables table (update (tables table) i e) table i ≡ e
entry_stored tables table i e =
    ap (λ f. f i) (update_self tables table (update (tables table) i e))
    ∙ update_self (tables table) i e

-- A bitmap of bytes with fewer than 2 ^ 40 bits and entries of 64 bits: after one level of the
-- mapping, whether the table was there or was made, the entry is present and leads to the table
-- that the next level works on.
pub next_table_lem :
    (table i : ℕ) (s : Paging)
    → IsBytes s.allocator.page_bitmap
    → bits s.allocator.page_bitmap < 2 ^ 40
    → AreWords s
    → let (t, s') = next_table table i s in
      (get_flag (s'.tables table i) present ≡ true)
      × (get_address (s'.tables table i) * 2 ^ 12 % 2 ^ 64 ≡ t)
unfolding next_table
next_table_lem table i s h b w = elim (Bool-cases (get_flag (s.tables table i) present)) [
  | inl e ↦ rw e (e, refl)
  | inr e ↦
      let page = (request_page s.allocator).0 in
      let g = page_granted s h b in
      let l = linked_lem (s.tables table i) page (w table i) g.0 g.1 in
      let made = update s.tables page (λ _. 0) in
      let k = entry_stored made table i (linked (s.tables table i) page) in
      rw e (
        ap (λ z. get_flag z present) k ∙ l.0,
        ap (λ z. get_address z * 2 ^ 12 % 2 ^ 64) k ∙ omega (arith, l.1),
      )
]
