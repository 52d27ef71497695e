-- ===== src/Mouse/Framing.antt =====
-- src/driver/mouse.cpp: the packets that a stream of bytes is cut into.
use fox_os_kernel.Prelude.{
  ℕ, zero, suc, ◌+◌, ◌≤◌, bit_and, ◌≡◌, refl, ap, ◌∙◌, true, false, List, [], ◌∷◌, ◌++◌, arith,
  ◌==◌,
}
use fox_os_kernel.Mouse.{
  MouseEvent, MouseDriver, report, handle, handle_all, new_driver, mouse_wait, mouse_wait_input,
}

pub record Packet : Type 0 where
  pub buttons : ℕ
  pub x : ℕ
  pub y : ℕ

-- The first byte of a packet has bit 3 set.
abbrev pub Begins : List Packet → Type 0
Begins [] = Unit
Begins (p ∷ packets) = ((bit_and p.buttons 8 == 0) ≡ false) × Begins packets

abbrev pub bytes_of : List Packet → List ℕ
bytes_of [] = []
bytes_of (p ∷ packets) = p.buttons ∷ p.x ∷ p.y ∷ bytes_of packets

abbrev pub reports : List Packet → List MouseEvent
reports [] = []
reports (p ∷ packets) = report p.buttons p.x p.y ++ reports packets

-- Bytes that cannot begin a packet.
abbrev pub Noise : List ℕ → Type 0
Noise [] = Unit
Noise (b ∷ bytes) = ((bit_and b 8 == 0) ≡ true) × Noise bytes

-- Between two packets.
abbrev pub Idle : MouseDriver → Type 0
Idle d =
    (d.skip ≡ false) × (d.has_handler ≡ true) × (d.mouse_cycle ≡ 0) × (d.mouse_packet_ready ≡ false)

handle_noise : (b : ℕ) (d : MouseDriver) → Idle d → (bit_and b 8 == 0) ≡ true → handle b d ≡ ([], d)
unfolding handle
handle_noise b d (s, h, c, r) e = rw (s, c, e, r) refl

handle_first :
    (b : ℕ) (d : MouseDriver)
    → Idle d
    → (bit_and b 8 == 0) ≡ false
    → handle b d ≡ ([], record d { packet_0 = b; mouse_cycle = 1 })
unfolding handle
handle_first b d (s, h, c, r) e = rw (s, c, e, r) refl

handle_second :
    (b : ℕ) (d : MouseDriver)
    → d.skip ≡ false
    → d.mouse_packet_ready ≡ false
    → d.mouse_cycle ≡ 1
    → handle b d ≡ ([], record d { packet_1 = b; mouse_cycle = 2 })
unfolding handle
handle_second b d s r c = rw (s, c, r) refl

handle_third :
    (b : ℕ) (d : MouseDriver)
    → d.skip ≡ false
    → d.has_handler ≡ true
    → d.mouse_cycle ≡ 2
    → handle b d ≡ (
      report d.packet_0 d.packet_1 b,
      record d { packet_2 = b; mouse_cycle = 0; mouse_packet_ready = false },
    )
unfolding handle
handle_third b d s h c = rw (s, c, h) refl

handle_all_step :
    (b : ℕ) (bytes : List ℕ) (d e : MouseDriver) (events : List MouseEvent)
    → handle b d ≡ (events, e)
    → handle_all (b ∷ bytes) d ≡ (events ++ (handle_all bytes e).0, (handle_all bytes e).1)
unfolding handle_all
handle_all_step b bytes d e events run =
    ap (λ r. (r.0 ++ (handle_all bytes r.1).0, (handle_all bytes r.1).1)) run

handle_packet :
    (p : Packet) (rest : List ℕ) (d : MouseDriver)
    → Idle d
    → (bit_and p.buttons 8 == 0) ≡ false
    → (e : MouseDriver) × Idle e
      × (handle_all (p.buttons ∷ p.x ∷ p.y ∷ rest) d
          ≡ (report p.buttons p.x p.y ++ (handle_all rest e).0, (handle_all rest e).1))
handle_packet p rest d (s, h, c, r) begins =
    let d1 : MouseDriver = record d { packet_0 = p.buttons; mouse_cycle = 1 } in
    let d2 : MouseDriver = record d1 { packet_1 = p.x; mouse_cycle = 2 } in
    let d3 : MouseDriver = record d2 {
      packet_2 = p.y;
      mouse_cycle = 0;
      mouse_packet_ready = false;
    } in
    (
      d3,
      (s, h, refl, refl),
      handle_all_step p.buttons (p.x ∷ p.y ∷ rest) d d1 []
            (handle_first p.buttons d (s, h, c, r) begins)
          ∙ handle_all_step p.x (p.y ∷ rest) d1 d2 [] (handle_second p.x d1 s r refl)
          ∙ handle_all_step p.y rest d2 d3 (report p.buttons p.x p.y)
              (handle_third p.y d2 s h refl),
    )

handle_packets :
    (packets : List Packet) (d : MouseDriver)
    → Idle d
    → Begins packets
    → (e : MouseDriver) × Idle e × (handle_all (bytes_of packets) d ≡ (reports packets, e))
unfolding handle_all
handle_packets [] d idle begins = (d, idle, refl)
handle_packets (p ∷ packets) d idle begins =
    let one = handle_packet p (bytes_of packets) d idle begins.0 in
    let more = handle_packets packets one.0 one.1 begins.1 in
    (more.0, more.1, one.2 ∙ ap (λ r. (report p.buttons p.x p.y ++ r.0, r.1)) more.2)

handle_all-Noise :
    (noise bytes : List ℕ) (d : MouseDriver)
    → Idle d
    → Noise noise
    → handle_all (noise ++ bytes) d ≡ handle_all bytes d
handle_all-Noise [] bytes d idle dropped = refl
handle_all-Noise (b ∷ noise) bytes d idle dropped =
    handle_all_step b (noise ++ bytes) d d [] (handle_noise b d idle dropped.0)
    ∙ handle_all-Noise noise bytes d idle dropped.1

skipped :
    (first a b c : ℕ)
    → handle first (new_driver true a b c) ≡ ([], record (new_driver true a b c) { skip = false })
unfolding handle new_driver
skipped first a b c = refl

-- A new driver with a handler, that gets one byte, which it skips, any bytes with bit 3 clear and then the
-- bytes of any packets, whose first bytes have bit 3 set: the handler is called exactly with the moves
-- and the buttons of these packets, in their order, and the driver waits for the next packet.
pub handle_all-reports :
    (a b c first : ℕ) (noise : List ℕ) (packets : List Packet)
    → Noise noise
    → Begins packets
    → (e : MouseDriver) × Idle e
      × (handle_all (first ∷ noise ++ bytes_of packets) (new_driver true a b c)
          ≡ (reports packets, e))
unfolding new_driver
handle_all-reports a b c first noise packets dropped begins =
    let d : MouseDriver = record (new_driver true a b c) { skip = false } in
    let idle : Idle d = (refl, refl, refl, refl) in
    let run = handle_packets packets d idle begins in
    (
      run.0,
      run.1,
      handle_all_step first (noise ++ bytes_of packets) (new_driver true a b c) d []
            (skipped first a b c)
          ∙ handle_all-Noise noise (bytes_of packets) d idle dropped
          ∙ run.2,
    )

-- A wait reads the status at most as often as the timeout allows.
pub mouse_wait_bound :
    (status : ℕ → ℕ) (t timeout : ℕ)
    → (mouse_wait status t timeout ≤ t + timeout)
      × (mouse_wait_input status t timeout ≤ t + timeout)
unfolding mouse_wait mouse_wait_input
mouse_wait_bound status t zero = (omega arith, omega arith)
mouse_wait_bound status t (suc timeout) = ground (arith, mouse_wait_bound status (t + 1) timeout)
