-- ===== src/Keyboard/Us.antt =====
-- src/driver/keyboard.cpp: `keymap_us`, from the scan code of a key to a character.
use fox_os_kernel.Prelude.{ℕ, Bool, ◌||◌, List, [], ◌∷◌, if◌then◌else◌}
use fox_os_kernel.Keyboard.Switch.{switch}

abbrev pub shifted_us : List (ℕ × ℕ)
shifted_us =
    (2, b'!')
    ∷ (3, 34)
    ∷ (5, b'$')
    ∷ (6, b'%')
    ∷ (7, 94)
    ∷ (8, b'&')
    ∷ (9, b'*')
    ∷ (10, b'(')
    ∷ (11, b')')
    ∷ (12, b'_')
    ∷ (13, b'+')
    ∷ (14, 8)
    ∷ (16, b'Q')
    ∷ (17, b'W')
    ∷ (18, b'E')
    ∷ (19, b'R')
    ∷ (20, b'T')
    ∷ (21, b'Y')
    ∷ (22, b'U')
    ∷ (23, b'I')
    ∷ (24, b'O')
    ∷ (25, b'P')
    ∷ (26, 123)
    ∷ (27, 125)
    ∷ (30, b'A')
    ∷ (31, b'S')
    ∷ (32, b'D')
    ∷ (33, b'F')
    ∷ (34, b'G')
    ∷ (35, b'H')
    ∷ (36, b'J')
    ∷ (37, b'K')
    ∷ (38, b'L')
    ∷ (39, b':')
    ∷ (40, 64)
    ∷ (41, 126)
    ∷ (43, 124)
    ∷ (44, b'Z')
    ∷ (45, b'X')
    ∷ (46, b'C')
    ∷ (47, b'V')
    ∷ (48, b'B')
    ∷ (49, b'N')
    ∷ (50, b'M')
    ∷ (51, b'<')
    ∷ (52, b'>')
    ∷ (53, b'?')
    ∷ (28, 10)
    ∷ (57, 32)
    ∷ []

abbrev pub plain_us : List (ℕ × ℕ)
plain_us =
    (2, b'1')
    ∷ (3, b'2')
    ∷ (4, b'3')
    ∷ (5, b'4')
    ∷ (6, b'5')
    ∷ (7, b'6')
    ∷ (8, b'7')
    ∷ (9, b'8')
    ∷ (10, b'9')
    ∷ (11, b'0')
    ∷ (12, b'-')
    ∷ (13, b'=')
    ∷ (14, 8)
    ∷ (16, b'q')
    ∷ (17, b'w')
    ∷ (18, b'e')
    ∷ (19, b'r')
    ∷ (20, b't')
    ∷ (21, b'y')
    ∷ (22, b'u')
    ∷ (23, b'i')
    ∷ (24, b'o')
    ∷ (25, b'p')
    ∷ (26, 91)
    ∷ (27, 93)
    ∷ (28, 10)
    ∷ (30, b'a')
    ∷ (31, b's')
    ∷ (32, b'd')
    ∷ (33, b'f')
    ∷ (34, b'g')
    ∷ (35, b'h')
    ∷ (36, b'j')
    ∷ (37, b'k')
    ∷ (38, b'l')
    ∷ (39, b';')
    ∷ (40, 39)
    ∷ (41, b'#')
    ∷ (43, 92)
    ∷ (44, b'z')
    ∷ (45, b'x')
    ∷ (46, b'c')
    ∷ (47, b'v')
    ∷ (48, b'b')
    ∷ (49, b'n')
    ∷ (50, b'm')
    ∷ (51, b',')
    ∷ (52, b'.')
    ∷ (53, b'/')
    ∷ (57, 32)
    ∷ []

unfoldable pub keymap_us : ℕ → Bool → Bool → Bool → ℕ
unfolding switch
keymap_us key l_shift r_shift caps_lock =
    if l_shift || r_shift || caps_lock then switch 0 shifted_us key else switch 0 plain_us key
