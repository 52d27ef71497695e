-- ===== src/Examples/Devices.antt =====
-- Scan codes and mouse packets, and messages of the DHCP and DNS clients, at concrete inputs.
use fox_os_kernel.Prelude.{ℕ, ◌<◌, ◌≡◌, refl, true, false, some, List, [], ◌∷◌, ◌++◌, arith}
use fox_os_kernel.Keyboard.Handler.{
  KeyboardDriver, key_down, special_key_down, special_key_up, left_shift, typed, handle, handle_all,
}
use fox_os_kernel.Keyboard.Us.{keymap_us}
use fox_os_kernel.Keyboard.Flags.{After, handle_all-After}
use fox_os_kernel.Mouse.{MouseDriver}
use fox_os_kernel.Mouse
use fox_os_kernel.Mouse.Framing.{Packet, Idle, bytes_of, reports, handle_all-reports}
use fox_os_kernel.Dhcp.{DhcpPacket, DhcpProtocol, get_dhcp_options, word_at}
use fox_os_kernel.Dhcp
use fox_os_kernel.Dhcp.Options.{encode, first_of, get_dhcp_options_lem}
use fox_os_kernel.Dhcp.Lease.{Requests, lease_lem}
use fox_os_kernel.Dns.{resolv_domain_to_hostname}
use fox_os_kernel.Dns.Name.{domain, Labels}
use fox_os_kernel.Dns.Labels.{resolv_domain_to_hostname_lem}

abbrev keyboard : KeyboardDriver
keyboard = record {
  has_handler = true;
  keymap = 2;
  l_shift = false;
  r_shift = false;
  caps_lock = false;
  extended_ascii = false;
}

-- Shift down, A, shift up.
typed_A :
    (handle_all (0x2A ∷ 0x1E ∷ 0xAA ∷ []) keyboard).0
    ≡ special_key_down left_shift ∷ key_down b'A' ∷ special_key_up left_shift ∷ []
unfolding handle_all handle typed keymap_us
typed_A = refl

-- The prefixed 0x2A is not a shift.
handle_all_example :
    After
      (0xE0 ∷ 0x2A ∷ 0x3A ∷ 0x36 ∷ [])
      keyboard
      (handle_all (0xE0 ∷ 0x2A ∷ 0x3A ∷ 0x36 ∷ []) keyboard).1
handle_all_example = handle_all-After (0xE0 ∷ 0x2A ∷ 0x3A ∷ 0x36 ∷ []) keyboard refl

-- One packet with the left button, behind a byte that is noise.
abbrev click : Packet
click = record { buttons = 9; x = 3; y = 250 }

reports_example :
    (e : MouseDriver) × Idle e
    × (Mouse.handle_all (0xFA ∷ (0x00 ∷ []) ++ bytes_of (click ∷ [])) (Mouse.new_driver true 0 0 0)
        ≡ (reports (click ∷ []), e))
reports_example = handle_all-reports 0 0 0 0xFA (0x00 ∷ []) (click ∷ []) (refl, tt) (refl, tt)

abbrev lease_options : List (ℕ × List ℕ)
lease_options =
    (53, 5 ∷ [])
    ∷ (1, 255 ∷ 255 ∷ 255 ∷ 0 ∷ [])
    ∷ (3, 10 ∷ 0 ∷ 2 ∷ 2 ∷ [])
    ∷ (6, 10 ∷ 0 ∷ 2 ∷ 3 ∷ [])
    ∷ []

get_dhcp_options_example :
    get_dhcp_options (0x63 ∷ 0x82 ∷ 0x53 ∷ 0x63 ∷ encode lease_options (0 ∷ [])) 3
    ≡ some (first_of 3 lease_options (0 ∷ []))
get_dhcp_options_example = get_dhcp_options_lem 0x63 0x82 0x53 0x63 3 0 lease_options [] (
  (λ e. absurd (omega (arith, e))),
  (
    (λ e. absurd (omega (arith, e))),
    ((λ e. absurd (omega (arith, e))), ((λ e. absurd (omega (arith, e))), tt)),
  ),
)

abbrev message : ℕ → List ℕ → DhcpPacket
message your_ip options = record {
  op = 2;
  hardware_type = 1;
  hardware_addr_len = 6;
  hops = 0;
  xid = 0x55555555;
  flags = 0;
  your_ip = your_ip;
  client_hardware_addr = [];
  options = 0x63 ∷ 0x82 ∷ 0x53 ∷ 0x63 ∷ options;
}

abbrev client : DhcpProtocol
client = record { ip = 0; gateway = 0; subnet = 0; dns = 0; complete = false; sent = [] }

abbrev offer : DhcpPacket
offer = message 7 (encode ((53, 2 ∷ []) ∷ []) (0 ∷ []))

abbrev ack : DhcpPacket
ack = message 7 (encode lease_options (0 ∷ []))

lease_example :
    (q : DhcpPacket) × Requests 7 q
    × ((asked : DhcpProtocol) × (Dhcp.on_udp_message 1 offer client ≡ some asked)
        × (asked ≡ record client { sent = client.sent ++ (q ∷ []) })
        × (Dhcp.on_udp_message 1 ack asked
            ≡ some (record {
              ip = 7;
              gateway = 33685514;
              subnet = 16777215;
              dns = 50462730;
              complete = true;
              sent = client.sent ++ (q ∷ []);
            })))
unfolding get_dhcp_options
lease_example =
    lease_lem 1 33685514 50462730 16777215 offer ack client _ _ (omega arith) refl refl refl refl
      refl

-- `ab.c`
dns_example :
    Labels
      (λ a. 7)
      (resolv_domain_to_hostname 100 (domain (b'a' ∷ b'b' ∷ []) ((b'c' ∷ []) ∷ [])) (λ a. 7))
      100
      ((b'a' ∷ b'b' ∷ []) ∷ (b'c' ∷ []) ∷ [])
    × ((x : ℕ)
        → x < 100
        → resolv_domain_to_hostname 100 (domain (b'a' ∷ b'b' ∷ []) ((b'c' ∷ []) ∷ [])) (λ a. 7) x
          ≡ 7)
dns_example =
    resolv_domain_to_hostname_lem 100 (b'a' ∷ b'b' ∷ []) ((b'c' ∷ []) ∷ []) (λ a. 7)
      (
        (((λ e. absurd (omega (arith, e))), ((λ e. absurd (omega (arith, e))), tt)), omega arith),
        ((((λ e. absurd (omega (arith, e))), tt), omega arith), tt),
      )
