-- ===== src/Heap/FirstFit.antt =====
-- src/memory/heap.cpp: `malloc` takes the first segment that is large enough.
use fox_os_kernel.Prelude.{
  ℕ, zero, suc, ◌^◌, ◌≤◌, ◌≡◌, sym, ap, ◌∙◌, subst, ◌≢◌, inl, inr, Bool, true, false, ◌&&◌, ◌||◌,
  some, List, [], ◌∷◌, arith, ltb, leb, if◌then◌else◌, ==_iff, ne→==, Bool-cases, length, add64,
  sub64, update_self,
}
use fox_os_kernel.Heap.{
  set_free, cut_links, served, expand_heap, no_fuel, HeapSegHdr, Heap, Search, found, exhausted,
  header_size, find_segment, take_segment, split, cut, malloc_rounded, malloc, round_up,
}

-- The addresses of the segments from `a` on, up to the one without a next segment.
abbrev pub IsChain : (ℕ → HeapSegHdr) → ℕ → List ℕ → Type 0
IsChain hdr a [] = ⊥
IsChain hdr a (x ∷ []) = (a ≡ x) × ((hdr x).next ≡ 0)
IsChain hdr a (x ∷ y ∷ l) = (a ≡ x) × ((hdr x).next ≢ 0) × IsChain hdr (hdr x).next (y ∷ l)

abbrev pub fits : ℕ → HeapSegHdr → Bool
fits size s = s.free && leb size s.length

-- The first segment of the list that is free and large enough.
abbrev pub first_fit : (ℕ → HeapSegHdr) → ℕ → List ℕ → Search
first_fit hdr size [] = exhausted
first_fit hdr size (x ∷ l) = if fits size (hdr x) then found x else first_fit hdr size l

pub find_segment-first_fit :
    (h : Heap) (size fuel a : ℕ) (l : List ℕ)
    → IsChain h.hdr a l
    → length l ≤ fuel
    → find_segment h size fuel a ≡ first_fit h.hdr size l
unfolding find_segment
find_segment-first_fit h size fuel a [] c f = absurd c
find_segment-first_fit h size zero a (x ∷ l) c f = absurd (omega arith)
find_segment-first_fit h size (suc fuel) a (x ∷ []) c f =
    subst (λ k. find_segment h size (suc fuel) k ≡ first_fit h.hdr size (x ∷ [])) (sym c.0)
      (ap
        (λ b.
          if fits size (h.hdr x)
          then found x
          else if b
          then exhausted
          else find_segment h size fuel (h.hdr x).next)
        ((==_iff (h.hdr x).next 0).1 c.1))
find_segment-first_fit h size (suc fuel) a (x ∷ y ∷ l) c f =
    subst (λ k. find_segment h size (suc fuel) k ≡ first_fit h.hdr size (x ∷ y ∷ l)) (sym c.0)
      (ap
          (λ b.
            if fits size (h.hdr x)
            then found x
            else if b
            then exhausted
            else find_segment h size fuel (h.hdr x).next)
          (ne→== (h.hdr x).next 0 c.1)
        ∙ ap (λ r. if fits size (h.hdr x) then found x else r)
            (find_segment-first_fit h size fuel (h.hdr x).next (y ∷ l) c.2 (omega arith)))

-- The segment is in use and has the size that was asked for, or more.
abbrev pub Holds : Heap → ℕ → ℕ → Type 0
Holds h x size = ((h.hdr x).free ≡ false) × (size ≤ (h.hdr x).length)

used-Holds : (h : Heap) (x size : ℕ) → size ≤ (h.hdr x).length → Holds (set_free h x false) x size
used-Holds h x size l =
    let at = update_self h.hdr x (record (h.hdr x) { free = false }) in
    (ap (λ (s : HeapSegHdr). s.free) at, subst (λ (s : HeapSegHdr). size ≤ s.length) (sym at) l)

cut-length :
    (h : Heap) (this split_length rest_length : ℕ)
    → ((cut h this split_length rest_length).hdr this).length ≡ split_length
unfolding cut
cut-length h this split_length rest_length =
    let new = add64 (add64 this split_length) header_size in
    let g = cut_links h this new rest_length in
    ap (λ (s : HeapSegHdr). s.length)
      (update_self g.hdr this (record (g.hdr this) { length = split_length }))

split-length :
    (h : Heap) (this size : ℕ)
    → size ≤ (h.hdr this).length
    → size ≤ ((split h this size).hdr this).length
unfolding split
split-length h this size l =
    let rest_length = sub64 (sub64 (h.hdr this).length size) header_size in
    elim (Bool-cases (ltb size 0x10 || (leb (2 ^ 63) rest_length || ltb rest_length 0x10))) [
      | inl e ↦ rw e l
      | inr e ↦ rw e (omega (arith, cut-length h this size rest_length))
    ]

take_segment-Holds :
    (h : Heap) (size x : ℕ) → size ≤ (h.hdr x).length → Holds (take_segment h size x) x size
unfolding take_segment
take_segment-Holds h size x l = elim (Bool-cases (ltb size (h.hdr x).length)) [
  | inl e ↦ rw e (used-Holds (split h x size) x size (split-length h x size l))
  | inr e ↦ rw e (used-Holds h x size l)
]

segment : Search → ℕ
segment (found x) = x
segment exhausted = 0
segment no_fuel = 0

is_found : Search → Bool
is_found (found x) = true
is_found exhausted = false
is_found no_fuel = false

first_fit_lem :
    (hdr : ℕ → HeapSegHdr) (size x : ℕ) (l : List ℕ)
    → first_fit hdr size l ≡ found x
    → fits size (hdr x) ≡ true
unfolding segment is_found
first_fit_lem hdr size x [] e = absurd (ground (arith, ap is_found e))
first_fit_lem hdr size x (y ∷ l) e = elim (Bool-cases (fits size (hdr y))) [
  | inl k ↦
      subst (λ z. fits size (hdr z) ≡ true)
        (ap segment (sym (ap (λ b. if b then found y else first_fit hdr size l) k) ∙ e)) k
  | inr k ↦
      first_fit_lem hdr size x l (sym (ap (λ b. if b then found y else first_fit hdr size l) k) ∙ e)
]

-- A heap whose segments are the list, at least as many rounds as segments and one call, and a size
-- that is not 0 once it is rounded up to 16: where a segment is free and large enough, `malloc`
-- gives the block behind the header of the first such one, which is then in use and has the size or
-- more.
pub malloc-first_fit :
    (h : Heap) (fuel rounds requested x : ℕ) (l : List ℕ)
    → IsChain h.hdr h.heap_start l
    → length l ≤ fuel
    → round_up 0x10 requested ≢ 0
    → first_fit h.hdr (round_up 0x10 requested) l ≡ found x
    → (h' : Heap) × (malloc fuel (suc rounds) requested h ≡ some (add64 x header_size, h'))
      × Holds h' x (round_up 0x10 requested)
unfolding malloc malloc_rounded
malloc-first_fit h fuel rounds requested x l c f z e =
    let size = round_up 0x10 requested in
    (
      take_segment h size x,
      ap (λ b. if b then some (0, h) else malloc_rounded fuel (suc rounds) size h) (ne→== size 0 z)
          ∙ ap (served h size (malloc_rounded fuel rounds size (expand_heap h size)))
              (find_segment-first_fit h size fuel h.heap_start l c f ∙ e),
      take_segment-Holds h size x (ground (arith, first_fit_lem h.hdr size x l e)),
    )
