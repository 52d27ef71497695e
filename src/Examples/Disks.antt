-- ===== src/Examples/Disks.antt =====
-- The partitions of a disk and a read of the standard input at concrete inputs.
use fox_os_kernel.Prelude.{ℕ, ◌≡◌, refl, false, some, [], ◌∷◌, arith, ◌==◌, if◌then◌else◌, update}
use fox_os_kernel.Net.{store_bytes}
use fox_os_kernel.Stdin.{ReadBuffer, sys_read_stdin, add_all, sys_read-add_all}
use fox_os_kernel.Disks.{Disk, DiskManager, add_partitions}
use fox_os_kernel.Disks.Partitions.{Adds, add_partitions-Adds}

abbrev disk : Disk Unit
disk = record { read = λ sector n buffer m. m; write = λ sector n buffer m. m }

abbrev manager : DiskManager Unit
manager = record { disks = λ _. disk; num_disks = 1 }

-- Two entries at 1000, of which the second is in use and begins at sector 34.
abbrev memory : ℕ → ℕ
memory a = if a == 1120 then 9 else if a == 1152 then 34 else 0

add_partitions_example :
    (m' : DiskManager Unit) × (add_partitions disk memory 1000 0 2 manager ≡ some m')
    × Adds disk memory 1000 0 2 manager m'
add_partitions_example = add_partitions-Adds disk memory 1000 2 0 manager (omega arith)

abbrev no_reader : ReadBuffer
no_reader = record { is_done = 0; buffer = 0; is_reading = false; count = 0 }

-- A read of two of the characters `abc`.
sys_read_example :
    (q : ReadBuffer) × (sys_read_stdin 500 2 900 no_reader ≡ some q)
    × ((add_all (b'a' ∷ b'b' ∷ b'c' ∷ []) (q, memory)).1
        ≡ update (store_bytes (b'a' ∷ b'b' ∷ []) 500 memory) 900 1)
    × ((add_all (b'a' ∷ b'b' ∷ b'c' ∷ []) (q, memory)).0.is_reading ≡ false)
sys_read_example =
    sys_read-add_all no_reader 500 900 b'b' (b'a' ∷ []) (b'c' ∷ []) memory refl (omega arith)
