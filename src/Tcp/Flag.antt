-- ===== src/Tcp/Flag.antt =====
-- include/net/tcp.h: the flags of a segment.
use fox_os_kernel.Prelude.{ℕ}

abbrev pub fin : ℕ
fin = 1

abbrev pub syn : ℕ
syn = 2

abbrev pub rst : ℕ
rst = 4

abbrev pub psh : ℕ
psh = 8

abbrev pub ack : ℕ
ack = 16
