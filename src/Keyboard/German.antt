-- ===== src/Keyboard/German.antt =====
-- src/driver/keyboard.cpp: `keymap_de`, from the scan code of a key to a character.
use fox_os_kernel.Prelude.{ℕ, Bool, ◌||◌, List, [], ◌∷◌, if◌then◌else◌}
use fox_os_kernel.Keyboard.Switch.{switch}

abbrev pub shifted_de : List (ℕ × ℕ)
shifted_de =
    (2, b'!')
    ∷ (3, 34)
    ∷ (5, b'$')
    ∷ (6, b'%')
    ∷ (7, b'&')
    ∷ (8, b'/')
    ∷ (9, b'(')
    ∷ (10, b')')
    ∷ (11, b'=')
    ∷ (12, b'?')
    ∷ (13, 96)
    ∷ (16, b'Q')
    ∷ (17, b'W')
    ∷ (18, b'E')
    ∷ (19, b'R')
    ∷ (20, b'T')
    ∷ (21, b'Z')
    ∷ (22, b'U')
    ∷ (23, b'I')
    ∷ (24, b'O')
    ∷ (25, b'P')
    ∷ (30, b'A')
    ∷ (31, b'S')
    ∷ (32, b'D')
    ∷ (33, b'F')
    ∷ (34, b'G')
    ∷ (35, b'H')
    ∷ (36, b'J')
    ∷ (37, b'K')
    ∷ (38, b'L')
    ∷ (44, b'Y')
    ∷ (45, b'X')
    ∷ (46, b'C')
    ∷ (47, b'V')
    ∷ (48, b'B')
    ∷ (49, b'N')
    ∷ (50, b'M')
    ∷ (51, b';')
    ∷ (52, b':')
    ∷ (53, b'_')
    ∷ (27, b'*')
    ∷ (28, 10)
    ∷ (43, 39)
    ∷ (57, 32)
    ∷ []

abbrev pub plain_de : List (ℕ × ℕ)
plain_de =
    (2, b'1')
    ∷ (3, b'2')
    ∷ (4, b'3')
    ∷ (5, b'4')
    ∷ (6, b'5')
    ∷ (7, b'6')
    ∷ (8, b'7')
    ∷ (9, b'8')
    ∷ (10, b'9')
    ∷ (11, b'0')
    ∷ (14, 8)
    ∷ (16, b'q')
    ∷ (17, b'w')
    ∷ (18, b'e')
    ∷ (19, b'r')
    ∷ (20, b't')
    ∷ (21, b'z')
    ∷ (22, b'u')
    ∷ (23, b'i')
    ∷ (24, b'o')
    ∷ (25, b'p')
    ∷ (30, b'a')
    ∷ (31, b's')
    ∷ (32, b'd')
    ∷ (33, b'f')
    ∷ (34, b'g')
    ∷ (35, b'h')
    ∷ (36, b'j')
    ∷ (37, b'k')
    ∷ (38, b'l')
    ∷ (44, b'y')
    ∷ (45, b'x')
    ∷ (46, b'c')
    ∷ (47, b'v')
    ∷ (48, b'b')
    ∷ (49, b'n')
    ∷ (50, b'm')
    ∷ (51, b',')
    ∷ (52, b'.')
    ∷ (53, b'-')
    ∷ (27, b'+')
    ∷ (28, 10)
    ∷ (43, b'#')
    ∷ (41, b'^')
    ∷ (57, 32)
    ∷ []

unfoldable pub keymap_de : ℕ → Bool → Bool → Bool → ℕ
unfolding switch
keymap_de key l_shift r_shift caps_lock =
    if l_shift || r_shift || caps_lock then switch 0 shifted_de key else switch 0 plain_de key
