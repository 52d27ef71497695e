-- ===== src/Examples/Files.antt =====
-- src/fs/vfs/vfs.cpp on concrete mounts, with a driver that keeps one file to read and one to write and
-- moves a byte at a time.
use fox_os_kernel.Prelude.{
  ℕ, zero, suc, ◌≤◌, ◌<◌, ◌≡◌, refl, sym, ap, ◌∙◌, ◌≢◌, true, Option, none, some, List, [], ◌∷◌,
  ◌++◌, append-nil, arith, if◌then◌else◌, update, update_self,
}
use fox_os_kernel.NodeList.{ListNode, NodeList, no_node, find_node}
use fox_os_kernel.Vfs.{
  VfsMount, World, Vfs, vfs_ok, minus_one, eq_text, mount, unmount, lookup_in, search_for_disk_name,
}
use fox_os_kernel.Vfs.Cuts.{DistinctIn}
use fox_os_kernel.Vfs.Paths.{resolve, split_disk}
use fox_os_kernel.Vfs.Files.{fopen, fclose, fread}
use fox_os_kernel.Vfs.Folders.{opendir, mkdir, unlink}
use fox_os_kernel.Vfs.Moves.{copy}
use fox_os_kernel.Vfs.Table.{lookup, Ready, mount-lookup, unmount-lookup}
use fox_os_kernel.Vfs.Errors.{unknown_disk, fopen-fread-fclose}
use fox_os_kernel.Vfs.Streams.{IsSource, IsSink, segment}
use fox_os_kernel.Vfs.Copying.{copy_lem}

record Disk : Type 0 where
  left : List ℕ
  got : List ℕ
  cells : ℕ → ℕ

abbrev read_byte : ℕ → ℕ → List ℕ → World Disk → ℕ × World Disk
read_byte ptr zero bytes w = (0, w)
read_byte ptr (suc size) [] w = (0, w)
read_byte ptr (suc size) (c ∷ bytes) w = (
  1,
  record w {
    device = record { left = bytes; got = w.device.got; cells = update w.device.cells ptr c };
  },
)

abbrev read : ℕ → ℕ → ℕ → ℕ → World Disk → ℕ × World Disk
read ptr size nmemb s w = read_byte ptr size w.device.left w

abbrev write : ℕ → ℕ → ℕ → ℕ → World Disk → ℕ × World Disk
write ptr zero nmemb s w = (0, w)
write ptr (suc size) nmemb s w = (
  1,
  record w {
    device = record {
      left = w.device.left;
      got = w.device.got ++ (w.device.cells ptr ∷ []);
      cells = w.device.cells;
    };
  },
)

-- A file that is opened to be read is stream 1, any other stream 2.
abbrev open_file : List ℕ → List ℕ → World Disk → Option ℕ × World Disk
open_file path mode w = (some (if eq_text mode (b'r' ∷ []) then 1 else 2), w)

abbrev close : ℕ → World Disk → ℕ × World Disk
close s w = (0, w)

abbrev same : World Disk → World Disk
same w = w

abbrev driver : VfsMount Disk
driver = record {
  read = some read;
  write = some write;
  open_file = some open_file;
  close = some close;
  opendir = none;
  closedir = none;
  readdir = none;
  rewinddir = none;
  seek = none;
  tell = none;
  mkdir = none;
  unlink = none;
  rename = none;
  mount = some same;
  unmount = some same;
}

abbrev drivers : ℕ → VfsMount Disk
drivers m = driver

abbrev memory : ℕ → ListNode
memory i = no_node

-- One mount, 5, with the name `a` at 70, in a list of two nodes.
abbrev node_a : ListNode
node_a = record { data1 = 5; data2 = 70; data3 = 0; data4 = 0; is_taken = true }

abbrev two_nodes : NodeList
two_nodes = record { node_count = 2; nodes = update memory 0 node_a }

abbrev one_mount : Vfs Disk
one_mount = record {
  vfs_nodes = some two_nodes;
  text = update (λ p. []) 70 (b'a' ∷ []);
  node = λ m. none;
  streams = λ s. none;
  dirs = update (λ s. none) 9 (some 5);
  world = record {
    errno = some 0;
    device = record { left = 1 ∷ 2 ∷ 3 ∷ []; got = []; cells = λ a. 0 };
  };
}

one_mount-Ready : Ready memory 71 one_mount
one_mount-Ready = ((1, omega arith, refl), only)
  where
    only : (j : ℕ) → j < 2 → (two_nodes.nodes j).is_taken ≡ true → 71 ≢ (two_nodes.nodes j).data2
    only zero lt t e = absurd (omega (arith, e))
    only (suc j) lt t e = ground arith

mount_example :
    ((mount drivers memory 6 (b'b' ∷ []) 71 [] one_mount).0 ≡ vfs_ok)
    × ((mount drivers memory 6 (b'b' ∷ []) 71 [] one_mount).1.world ≡ one_mount.world)
    × ((other : List ℕ)
        → lookup (mount drivers memory 6 (b'b' ∷ []) 71 [] one_mount).1 other
          ≡ (if eq_text (b'b' ∷ []) other then some 6 else lookup one_mount other))
unfolding lookup_in find_node
mount_example =
    mount-lookup drivers memory one_mount 6 71 (b'b' ∷ []) same refl one_mount-Ready refl

two_nodes-DistinctIn : DistinctIn one_mount.text two_nodes
two_nodes-DistinctIn zero zero i j ti tj e = refl
two_nodes-DistinctIn zero (suc j) i lt ti tj e = ground arith
two_nodes-DistinctIn (suc i) j lt k ti tj e = ground arith

unmount_example :
    (w : Vfs Disk) × (unmount drivers (b'a' ∷ []) one_mount ≡ some (vfs_ok, w))
    × (w.world ≡ one_mount.world)
    × ((other : List ℕ)
        → lookup w other ≡ (if eq_text (b'a' ∷ []) other then none else lookup one_mount other))
unfolding find_node search_for_disk_name
unmount_example =
    unmount-lookup drivers one_mount two_nodes 0 (b'a' ∷ []) same refl two_nodes-DistinctIn refl
      refl

abbrev no_node_told : Vfs Disk
no_node_told = record one_mount { world = record one_mount.world { errno = some 4 } }

-- `b:x`, where only `a` is mounted
unknown_disk_example :
    (fopen drivers (b'b' ∷ 58 ∷ b'x' ∷ []) [] one_mount ≡ some (none, no_node_told))
    × (opendir drivers (b'b' ∷ 58 ∷ b'x' ∷ []) one_mount ≡ some (none, no_node_told))
    × (mkdir drivers (b'b' ∷ 58 ∷ b'x' ∷ []) 0 one_mount ≡ some (minus_one, no_node_told))
    × (unlink drivers (b'b' ∷ 58 ∷ b'x' ∷ []) one_mount ≡ some (minus_one, no_node_told))
unfolding lookup_in find_node
unknown_disk_example =
    unknown_disk drivers one_mount two_nodes (b'b' ∷ []) (b'x' ∷ []) [] 0 refl
      ((λ e. absurd (omega (arith, e))), tt) (omega arith) refl

fopen_example :
    (o : Vfs Disk) × (fopen drivers (b'a' ∷ 58 ∷ b'x' ∷ []) (b'r' ∷ []) one_mount
      ≡ some (some 1, o))
    × ((ptr size nmemb : ℕ)
        → fread drivers ptr size nmemb 1 o
          ≡ some (
            (read ptr size nmemb 1 one_mount.world).0,
            record o { world = (read ptr size nmemb 1 one_mount.world).1 },
          ))
    × ((e : Vfs Disk) × (fclose drivers 1 o ≡ some (0, e)) × (e.world ≡ one_mount.world))
unfolding lookup_in find_node
fopen_example =
    fopen-fread-fclose drivers one_mount two_nodes (b'a' ∷ []) (b'x' ∷ []) (b'r' ∷ []) 5 1
      one_mount.world open_file read close refl ((λ e. absurd (omega (arith, e))), tt) (omega arith)
      refl refl refl refl refl

abbrev source : World Disk → List ℕ
source w = w.device.left

abbrev sink : World Disk → List ℕ
sink w = w.device.got

abbrev cells : World Disk → ℕ → ℕ
cells w = w.device.cells

bounded : (ptr size : ℕ) (bytes : List ℕ) (w : World Disk) → (read_byte ptr size bytes w).0 ≤ size
bounded ptr zero bytes w = omega arith
bounded ptr (suc size) [] w = omega arith
bounded ptr (suc size) (c ∷ bytes) w = omega arith

ended :
    (ptr size : ℕ) (bytes : List ℕ) (w : World Disk)
    → 0 < size
    → (read_byte ptr size bytes w).0 ≡ 0
    → bytes ≡ []
ended ptr zero bytes w pos e = absurd (omega arith)
ended ptr (suc size) [] w pos e = refl
ended ptr (suc size) (c ∷ bytes) w pos e = absurd (omega (arith, e))

taken :
    (ptr size : ℕ) (bytes : List ℕ) (w : World Disk)
    → w.device.left ≡ bytes
    → w.device.left
      ≡ segment (cells (read_byte ptr size bytes w).1) ptr (read_byte ptr size bytes w).0
        ++ source (read_byte ptr size bytes w).1
taken ptr zero bytes w e = refl
taken ptr (suc size) [] w e = refl
taken ptr (suc size) (c ∷ bytes) w e =
    e ∙ ap (λ d. d ∷ bytes) (sym (update_self w.device.cells ptr c))

read_apart :
    (ptr size : ℕ) (bytes : List ℕ) (w : World Disk) → sink (read_byte ptr size bytes w).1 ≡ sink w
read_apart ptr zero bytes w = refl
read_apart ptr (suc size) [] w = refl
read_apart ptr (suc size) (c ∷ bytes) w = refl

read-IsSource : IsSource source sink cells 1 read
read-IsSource = record {
  bounded = λ ptr size w. bounded ptr size w.device.left w;
  ended = λ ptr size w. ended ptr size w.device.left w;
  taken = λ ptr size w. taken ptr size w.device.left w refl;
  apart = λ ptr size w. read_apart ptr size w.device.left w;
}

write-IsSink : IsSink source sink cells 2 write
write-IsSink = record {
  some_taken = some_taken;
  bounded = within;
  appended = appended;
  kept = kept;
  apart = apart;
}
  where
    some_taken : (ptr size : ℕ) (w : World Disk) → 0 < size → 0 < (write ptr size 1 2 w).0
    some_taken ptr zero w h = absurd (omega arith)
    some_taken ptr (suc size) w h = omega arith

    within : (ptr size : ℕ) (w : World Disk) → (write ptr size 1 2 w).0 ≤ size
    within ptr zero w = omega arith
    within ptr (suc size) w = omega arith

    appended :
        (ptr size : ℕ) (w : World Disk)
        → sink (write ptr size 1 2 w).1 ≡ sink w ++ segment (cells w) ptr (write ptr size 1 2 w).0
    appended ptr zero w = sym (append-nil (sink w))
    appended ptr (suc size) w = refl

    kept : (ptr size : ℕ) (w : World Disk) → cells (write ptr size 1 2 w).1 ≡ cells w
    kept ptr zero w = refl
    kept ptr (suc size) w = refl

    apart : (ptr size : ℕ) (w : World Disk) → source (write ptr size 1 2 w).1 ≡ source w
    apart ptr zero w = refl
    apart ptr (suc size) w = refl

abbrev both_open : Vfs Disk
both_open = record one_mount { streams = update (update (λ s. none) 1 (some 5)) 2 (some 5) }

-- `a:x` is copied to `a:y`.
copy_example :
    (w : Vfs Disk) × (copy drivers 4096 4 4096
        (b'a' ∷ 58 ∷ b'x' ∷ [])
        (b'a' ∷ 58 ∷ b'y' ∷ [])
        one_mount
      ≡ some (0, w))
    × (sink w.world ≡ 1 ∷ 2 ∷ 3 ∷ [])
unfolding fopen resolve split_disk lookup_in find_node
copy_example =
    copy_lem source sink cells drivers 1 2 5 5 read write refl refl read-IsSource write-IsSink 4096
      4 4096 (b'a' ∷ 58 ∷ b'x' ∷ []) (b'a' ∷ 58 ∷ b'y' ∷ []) one_mount
      (record one_mount { streams = update (λ s. none) 1 (some 5) }) both_open close close refl refl
      refl refl refl (λ e. absurd (omega (arith, e))) refl refl (λ w. refl) (λ w. refl)
      (omega arith) (omega arith) (omega arith)
