-- ===== src/Keyboard/Handler.antt =====
-- src/driver/keyboard.cpp: `KeyboardDriver::handle`. The byte of the data port is an argument, and what the
-- handler is called with is a list of events.
use fox_os_kernel.Prelude.{ℕ, Bool, true, false, not, List, [], ◌∷◌, ◌++◌, ◌==◌, if◌then◌else◌}
use fox_os_kernel.Keyboard.Switch.{switch}
use fox_os_kernel.Keyboard.German.{keymap_de}
use fox_os_kernel.Keyboard.French.{keymap_fr}
use fox_os_kernel.Keyboard.Us.{keymap_us}

pub data SpecialKey : Type 0 where
  left_shift left_ctrl left_alt left_gui : SpecialKey
  right_shift right_control right_alt right_gui : SpecialKey
  caps_lock_key num_lock scroll_lock : SpecialKey
  up_arrow down_arrow left_arrow right_arrow : SpecialKey

pub data KeyEvent : Type 0 where
  key_down : ℕ → KeyEvent
  special_key_down special_key_up : SpecialKey → KeyEvent

-- `has_handler` is `handler != 0`.
pub record KeyboardDriver : Type 0 where
  pub has_handler : Bool
  pub keymap : ℕ
  pub l_shift : Bool
  pub r_shift : Bool
  pub caps_lock : Bool
  pub extended_ascii : Bool

-- `keymap_us_e` is 2.
unfoldable pub new_driver : Bool → KeyboardDriver
new_driver has_handler = record {
  has_handler = has_handler;
  keymap = 2;
  l_shift = false;
  r_shift = false;
  caps_lock = false;
  extended_ascii = false;
}

-- The keys behind the prefix 0xE0.
abbrev pub extended_cases : List (ℕ × List KeyEvent)
extended_cases =
    (0x1D, special_key_down right_control ∷ [])
    ∷ (0x9D, special_key_up right_control ∷ [])
    ∷ (0x38, special_key_down right_alt ∷ [])
    ∷ (0xB8, special_key_up right_alt ∷ [])
    ∷ (0x5B, special_key_down left_gui ∷ [])
    ∷ (0xDB, special_key_up left_gui ∷ [])
    ∷ (0x5C, special_key_down right_gui ∷ [])
    ∷ (0xDC, special_key_up right_gui ∷ [])
    ∷ (0x48, special_key_down up_arrow ∷ [])
    ∷ (0xC8, special_key_up up_arrow ∷ [])
    ∷ (0x50, special_key_down down_arrow ∷ [])
    ∷ (0xD0, special_key_up down_arrow ∷ [])
    ∷ (0x4B, special_key_down left_arrow ∷ [])
    ∷ (0xCB, special_key_up left_arrow ∷ [])
    ∷ (0x4D, special_key_down right_arrow ∷ [])
    ∷ (0xCD, special_key_up right_arrow ∷ [])
    ∷ []

-- The `default` of the switch, for every key that is none of the others.
unfoldable pub typed : ℕ → KeyboardDriver → List KeyEvent
typed key d =
    if d.keymap == 0
    then key_down (keymap_de key d.l_shift d.r_shift d.caps_lock) ∷ []
    else if d.keymap == 1
    then key_down (keymap_fr key d.l_shift d.r_shift d.caps_lock) ∷ []
    else if d.keymap == 2
    then key_down (keymap_us key d.l_shift d.r_shift d.caps_lock) ∷ []
    else []

abbrev pub plain_cases : KeyboardDriver → List (ℕ × (List KeyEvent × KeyboardDriver))
plain_cases d =
    (0xE0, ([], record d { extended_ascii = true }))
    ∷ (0x2A, (special_key_down left_shift ∷ [], record d { l_shift = true }))
    ∷ (0xAA, (special_key_up left_shift ∷ [], record d { l_shift = false }))
    ∷ (0x36, (special_key_down right_shift ∷ [], record d { r_shift = true }))
    ∷ (0xB6, (special_key_up right_shift ∷ [], record d { r_shift = false }))
    ∷ (0x1D, (special_key_down left_ctrl ∷ [], d))
    ∷ (0x9D, (special_key_up left_ctrl ∷ [], d))
    ∷ (0x38, (special_key_down left_alt ∷ [], d))
    ∷ (0xB8, (special_key_up left_alt ∷ [], d))
    ∷ (0x3A, (special_key_down caps_lock_key ∷ [], record d { caps_lock = not d.caps_lock }))
    ∷ (0xBA, (special_key_up caps_lock_key ∷ [], d))
    ∷ (0x45, (special_key_down num_lock ∷ [], d))
    ∷ (0xC5, (special_key_up num_lock ∷ [], d))
    ∷ (0x46, (special_key_down scroll_lock ∷ [], d))
    ∷ (0xC6, (special_key_up scroll_lock ∷ [], d))
    ∷ []

unfoldable pub handle : ℕ → KeyboardDriver → List KeyEvent × KeyboardDriver
unfolding switch
handle key d =
    if not d.has_handler
    then ([], d)
    else if d.extended_ascii
    then (switch [] extended_cases key, record d { extended_ascii = false })
    else switch (typed key d, d) (plain_cases d) key

-- The interrupts of a list of scan codes.
unfoldable pub handle_all : List ℕ → KeyboardDriver → List KeyEvent × KeyboardDriver
handle_all [] d = ([], d)
handle_all (key ∷ keys) d =
    let r = handle key d in let rest = handle_all keys r.1 in (r.0 ++ rest.0, rest.1)
