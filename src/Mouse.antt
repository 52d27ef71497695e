-- ===== src/Mouse.antt =====
-- src/driver/mouse.cpp: the PS/2 mouse driver. The bytes that the ports give are arguments, the bytes that
-- they are sent and the calls of the handler are lists.
pub mod Framing
use fox_os_kernel.Prelude.{
  ℕ, zero, suc, ◌+◌, ◌/◌, bit_and, bit_or, Bool, true, false, List, [], ◌∷◌, ◌++◌, ◌==◌,
  if◌then◌else◌,
}

pub data MouseButton : Type 0 where
  left_button right_button middle_button : MouseButton

pub data MouseEvent : Type 0 where
  on_mouse_move : ℕ → ℕ → ℕ → MouseEvent
  on_mouse_down : MouseButton → MouseEvent

-- `skip` is the static variable of `handle`, and `has_handler` is `handler != 0`.
pub record MouseDriver : Type 0 where
  pub has_handler : Bool
  pub skip : Bool
  pub mouse_cycle : ℕ
  pub packet_0 : ℕ
  pub packet_1 : ℕ
  pub packet_2 : ℕ
  pub mouse_packet_ready : Bool

-- The packet is what memory holds.
unfoldable pub new_driver : Bool → ℕ → ℕ → ℕ → MouseDriver
new_driver has_handler a b c = record {
  has_handler = has_handler;
  skip = true;
  mouse_cycle = 0;
  packet_0 = a;
  packet_1 = b;
  packet_2 = c;
  mouse_packet_ready = false;
}

abbrev pub is_zero : ℕ → Bool
is_zero n = n == 0

-- The `switch` on `mouse_cycle`; a byte that cannot begin a packet is dropped.
unfoldable pub collect : ℕ → MouseDriver → MouseDriver
collect byte d =
    if d.mouse_cycle == 0
    then (if bit_and byte 8 == 0 then d else record d { packet_0 = byte; mouse_cycle = 1 })
    else if d.mouse_cycle == 1
    then record d { packet_1 = byte; mouse_cycle = 2 }
    else if d.mouse_cycle == 2
    then record d { packet_2 = byte; mouse_packet_ready = true; mouse_cycle = 0 }
    else d

abbrev pub pressed : ℕ → MouseButton → List MouseEvent
pressed bit button = if is_zero bit then [] else on_mouse_down button ∷ []

-- What the handler is called with for a packet.
unfoldable pub report : ℕ → ℕ → ℕ → List MouseEvent
report a b c =
    on_mouse_move a b c ∷ pressed (bit_and a 1) left_button
    ++ pressed (bit_and (a / 2) 1) right_button
    ++ pressed (bit_and (a / 4) 1) middle_button

abbrev pub deliver : MouseDriver → List MouseEvent × MouseDriver
deliver d =
    if d.mouse_packet_ready
    then (
      if d.has_handler then report d.packet_0 d.packet_1 d.packet_2 else [],
      record d { mouse_packet_ready = false },
    )
    else ([], d)

unfoldable pub handle : ℕ → MouseDriver → List MouseEvent × MouseDriver
unfolding collect
handle byte d = if d.skip then ([], record d { skip = false }) else deliver (collect byte d)

-- The interrupts of a list of bytes.
unfoldable pub handle_all : List ℕ → MouseDriver → List MouseEvent × MouseDriver
handle_all [] d = ([], d)
handle_all (byte ∷ bytes) d =
    let r = handle byte d in let rest = handle_all bytes r.1 in (r.0 ++ rest.0, rest.1)

-- `while (timeout--)` over the bytes that `commandport` gives from the `t`-th read on: the number of the
-- read that comes next.
unfoldable pub mouse_wait : (ℕ → ℕ) → ℕ → ℕ → ℕ
mouse_wait status t zero = t
mouse_wait status t (suc timeout) =
    let rest = mouse_wait status (t + 1) timeout in
    if bit_and (status t) 2 == 0 then t + 1 else rest

unfoldable pub mouse_wait_input : (ℕ → ℕ) → ℕ → ℕ → ℕ
mouse_wait_input status t zero = t
mouse_wait_input status t (suc timeout) =
    let rest = mouse_wait_input status (t + 1) timeout in
    if bit_and (status t) 1 == 0 then rest else t + 1

-- The bytes that are written, each with its port, given the status that is read back; the waits have
-- no other effect.
unfoldable pub activate : ℕ → List (ℕ × ℕ)
activate status =
    (0x64, 0xa8)
    ∷ (0x64, 0x20)
    ∷ (0x64, 0x60)
    ∷ (0x60, bit_or status 2)
    ∷ (0x64, 0xD4)
    ∷ (0x60, 0xf6)
    ∷ (0x64, 0xD4)
    ∷ (0x60, 0xf4)
    ∷ []
