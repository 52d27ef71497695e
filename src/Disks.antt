-- ===== src/Disks.antt =====
-- src/driver/disk/disk.cpp, src/driver/disk/virtual_disk.cpp and src/fs/gpt/gpt.cpp: the disks, the partitions
-- as disks of their own, and the reader of the partition table. The drivers of real disks are a
-- parameter: a read or a write is a function on the memory and on what the device holds.
pub mod Partitions
use fox_os_kernel.Prelude.{
  ℕ, zero, suc, ◌+◌, ◌*◌, ◌/◌, ◌%◌, ◌^◌, Bool, true, false, Option, none, some, ltb, ◌==◌,
  if◌then◌else◌, add64, update,
}
use fox_os_kernel.Net.{word32}
use fox_os_kernel.Strings.{memcmp}
use fox_os_kernel.PageFrames.{Allocator, request_page, request_pages, free_page, free_pages}

pub record Machine (D : Type 0) : Type 0 where
  pub memory : ℕ → ℕ
  pub device : D

-- The sector, the number of sectors and the address of the buffer.
pub record Disk (D : Type 0) : Type 0 where
  pub read : ℕ → ℕ → ℕ → Machine D → Machine D
  pub write : ℕ → ℕ → ℕ → Machine D → Machine D

pub record DiskManager (D : Type 0) : Type 0 where
  pub disks : ℕ → Disk D
  pub num_disks : ℕ

pub record Kernel (D : Type 0) : Type 0 where
  pub allocator : Allocator
  pub manager : DiskManager D
  pub machine : Machine D

-- `DISK_NUM`
abbrev pub disk_num : ℕ
disk_num = 265

-- `"EFI PART"`
abbrev pub signature : ℕ → ℕ
signature i =
    if i == 0
    then b'E'
    else if i == 1
    then b'F'
    else if i == 2
    then b'I'
    else if i == 3
    then b' '
    else if i == 4
    then b'P'
    else if i == 5
    then b'A'
    else if i == 6
    then b'R'
    else if i == 7
    then b'T'
    else 0

abbrev pub word64 : (ℕ → ℕ) → ℕ → ℕ
word64 p a = word32 p a + 2 ^ 32 * word32 p (a + 4)

-- `partition_entries_size * partition_entries_count`, in 32 bits
abbrev pub table_size : (ℕ → ℕ) → ℕ → ℕ
table_size memory header = word32 memory (header + 84) * word32 memory (header + 80) % 2 ^ 32

module _ {D : Type 0} where
  -- `VirtualDisk`
  unfoldable pub virtual_disk : Disk D → ℕ → Disk D
  virtual_disk disk lba_offset = record {
    read = λ sector n buffer. disk.read (add64 sector lba_offset) n buffer;
    write = λ sector n buffer. disk.write (add64 sector lba_offset) n buffer;
  }

  -- `none` where the `DISK_NUM` places are taken: the next one would be written over `num_disks`.
  unfoldable pub add_disk : Disk D → DiskManager D → Option (DiskManager D)
  add_disk disk m =
      if ltb m.num_disks disk_num
      then some (record { disks = update m.disks m.num_disks disk; num_disks = m.num_disks + 1 })
      else none

  unfoldable pub read : DiskManager D → ℕ → ℕ → ℕ → ℕ → Machine D → Machine D
  read m d sector n buffer = (m.disks d).read sector n buffer

  unfoldable pub write : DiskManager D → ℕ → ℕ → ℕ → ℕ → Machine D → Machine D
  write m d sector n buffer = (m.disks d).write sector n buffer

  -- One round of the loop: an entry is 120 bytes here, with its type at 0 and its first sector at 32.
  unfoldable pub add_partition : Disk D → (ℕ → ℕ) → ℕ → ℕ → DiskManager D → Option (DiskManager D)
  unfolding virtual_disk add_disk
  add_partition disk memory entries i m =
      let entry = entries + 120 * i in
      if word32 memory entry == 0
      then some m
      else add_disk (virtual_disk disk (word64 memory (entry + 32))) m

  unfoldable pub add_partitions :
      Disk D → (ℕ → ℕ) → ℕ → ℕ → ℕ → DiskManager D → Option (DiskManager D)
  unfolding add_partition
  add_partitions disk memory entries i zero m = some m
  add_partitions disk memory entries i (suc n) m = elim (add_partition disk memory entries i m) [
    | none ↦ none
    | some k ↦ add_partitions disk memory entries (i + 1) n k
  ]

  abbrev pub with_manager : Allocator → Machine D → Option (DiskManager D) → Option (Kernel D)
  with_manager allocator machine none = none
  with_manager allocator machine (some m) =
      some (record { allocator = allocator; manager = m; machine = machine })

  -- The `else` branch, with the header at `header`.
  unfoldable pub read_entries : Disk D → ℕ → Kernel D → Option (Kernel D)
  unfolding add_partitions
  read_entries disk header k =
      let before = k.machine.memory in
      let r = request_pages k.allocator (table_size before header / 4096 + 1) in
      let machine =
        disk.read (word64 before (header + 72)) (table_size before header / 512 + 1) r.0
          k.machine in
      let after = machine.memory in
      with_manager (free_page (free_pages r.1 r.0 (table_size after header / 4096 + 1)) header)
        machine (add_partitions disk after r.0 0 (word32 after (header + 80)) k.manager)

  abbrev pub found : Option (Kernel D) → Option (Bool × Kernel D)
  found none = none
  found (some k) = some (true, k)

  unfoldable pub read_gpt : Disk D → Kernel D → Option (Bool × Kernel D)
  unfolding read_entries
  read_gpt disk k =
      let r = request_page k.allocator in
      let machine = disk.read 1 1 r.0 k.machine in
      if memcmp (λ i. machine.memory (r.0 + i)) signature 8 == 0
      then found (read_entries disk r.0 (record k { allocator = r.1; machine = machine }))
      else some (false, record k { allocator = free_page r.1 r.0; machine = machine })
