-- ===== src/Disks/Partitions.antt =====
-- src/fs/gpt/gpt.cpp: which disks the reader of the partition table adds.
use fox_os_kernel.Prelude.{
  ℕ, zero, suc, ◌+◌, ◌*◌, ◌≤◌, ◌<◌, ◌≡◌, refl, sym, ap, ◌∙◌, inl, inr, Bool, true, false, Option,
  none, some, arith, ◌==◌, if◌then◌else◌, lt→ltb, Bool-cases, update, update_self, update_ne,
}
use fox_os_kernel.Net.{word32}
use fox_os_kernel.Disks.{
  Disk, DiskManager, disk_num, word64, virtual_disk, add_disk, add_partition, add_partitions,
}

module _ {D : Type 0} (disk : Disk D) (memory : ℕ → ℕ) (entries : ℕ) where
  abbrev pub is_empty : ℕ → Bool
  is_empty i = word32 memory (entries + 120 * i) == 0

  -- The partition of entry `i`.
  abbrev pub partition : ℕ → Disk D
  partition i = virtual_disk disk (word64 memory (entries + 120 * i + 32))

  -- The manager with the partition of entry `i`.
  abbrev pub grown : ℕ → DiskManager D → DiskManager D
  grown i m = record {
    disks = update m.disks m.num_disks (partition i);
    num_disks = m.num_disks + 1;
  }

  -- How many of the `n` entries from `i` on are in use.
  abbrev pub used : ℕ → ℕ → ℕ
  used i zero = 0
  used i (suc n) = let rest = used (i + 1) n in if is_empty i then rest else rest + 1

  -- The manager `m'` has the disks of `m`, and behind them the partition of each entry in use.
  pub record Adds (i n : ℕ) (m m' : DiskManager D) : Type 0 where
    pub number : m'.num_disks ≡ m.num_disks + used i n
    pub old : (d : ℕ) → d < m.num_disks → m'.disks d ≡ m.disks d
    pub is_new :
        (j : ℕ)
        → j < n
        → is_empty (i + j) ≡ false
        → m'.disks (m.num_disks + used i j) ≡ partition (i + j)

  used_step :
      (i n : ℕ) (b : Bool)
      → is_empty i ≡ b
      → used i (suc n) ≡ (if b then used (i + 1) n else used (i + 1) n + 1)
  used_step i n b e = ap (λ c. if c then used (i + 1) n else used (i + 1) n + 1) e

  later : (i j : ℕ) → is_empty (i + suc j) ≡ false → is_empty (i + 1 + j) ≡ false
  later i j e = ap is_empty (omega arith) ∙ e

  module _ (i n : ℕ) (m m' : DiskManager D) where
    skipped_new :
        is_empty i ≡ true
        → Adds (i + 1) n m m'
        → (j : ℕ) → j < suc n
        → is_empty (i + j) ≡ false
        → m'.disks (m.num_disks + used i j) ≡ partition (i + j)
    skipped_new e a zero lt f = let told = sym e ∙ ap is_empty (omega arith) ∙ f in absurd (cc told)
    skipped_new e a (suc j) lt f =
        ap (λ k. m'.disks (m.num_disks + k)) (used_step i j true e)
        ∙ a.is_new j (omega arith) (later i j f)
        ∙ ap partition (omega arith)

    skipped-Adds : is_empty i ≡ true → Adds (i + 1) n m m' → Adds i (suc n) m m'
    skipped-Adds e a = record {
      number = a.number ∙ ap (λ k. m.num_disks + k) (sym (used_step i n true e));
      old = a.old;
      is_new = skipped_new e a;
    }

    added_new :
        is_empty i ≡ false
        → Adds (i + 1) n (grown i m) m'
        → (j : ℕ) → j < suc n
        → is_empty (i + j) ≡ false
        → m'.disks (m.num_disks + used i j) ≡ partition (i + j)
    added_new e a zero lt f =
        ap m'.disks (omega arith)
        ∙ a.old m.num_disks (omega arith)
        ∙ update_self m.disks m.num_disks (partition i)
        ∙ ap partition (omega arith)
    added_new e a (suc j) lt f =
        ap (λ k. m'.disks (m.num_disks + k)) (used_step i j false e)
        ∙ ap m'.disks (omega arith)
        ∙ a.is_new j (omega arith) (later i j f)
        ∙ ap partition (omega arith)

    added-Adds : is_empty i ≡ false → Adds (i + 1) n (grown i m) m' → Adds i (suc n) m m'
    added-Adds e a = record {
      number = omega (arith, a.number, used_step i n false e);
      old = λ d lt.
          a.old d (omega arith) ∙ update_ne m.disks m.num_disks d (partition i) (λ q. omega arith);
      is_new = added_new e a;
    }

  abbrev go_on : ℕ → ℕ → Option (DiskManager D) → Option (DiskManager D)
  go_on i n o = elim o [ none ↦ none | some k ↦ add_partitions disk memory entries (i + 1) n k ]

  -- The loop over `n` entries, where the manager has room for those whose type is not 0: the disks that it
  -- had keep their numbers, and behind them stands, for each such entry and in the order of the entries,
  -- the disk whose sectors are those of the whole disk from the first sector of this entry on.
  pub add_partitions-Adds :
      (n i : ℕ) (m : DiskManager D)
      → m.num_disks + used i n ≤ disk_num
      → (m' : DiskManager D) × (add_partitions disk memory entries i n m ≡ some m') × Adds i n m m'
  unfolding add_partitions add_partition add_disk
  add_partitions-Adds zero i m room = (
    m,
    refl,
    record { number = omega arith; old = λ d lt. refl; is_new = λ j lt. absurd (omega arith) },
  )
  add_partitions-Adds (suc n) i m room = elim (Bool-cases (is_empty i)) [
    | inl e ↦
        let ih = add_partitions-Adds n (i + 1) m (omega (arith, room, used_step i n true e)) in
        (
          ih.0,
          ap (λ b. go_on i n (if b then some m else add_disk (partition i) m)) e ∙ ih.1,
          skipped-Adds i n m ih.0 e ih.2,
        )
    | inr e ↦
        let fits : m.num_disks < disk_num = omega (arith, room, used_step i n false e) in
        let ih =
          add_partitions-Adds n (i + 1) (grown i m) (omega (arith, room, used_step i n false e)) in
        (
          ih.0,
          ap (λ b. go_on i n (if b then some m else add_disk (partition i) m)) e
              ∙ ap (λ b. go_on i n (if b then some (grown i m) else none))
                  (lt→ltb m.num_disks disk_num fits)
              ∙ ih.1,
          added-Adds i n m ih.0 e ih.2,
        )
  ]
