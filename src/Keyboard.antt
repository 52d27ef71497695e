-- ===== src/Keyboard.antt =====
-- src/driver/keyboard.cpp: the PS/2 keyboard driver, from scan codes to the events of its handler.
pub mod Switch
pub mod German
pub mod French
pub mod Us
pub mod Handler
pub mod Flags
pub mod Letters
