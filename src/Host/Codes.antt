-- ===== src/Host/Codes.antt =====
-- The numbers of tn3270d/tn3270_codes.h and libtnX/tnX_codes.h.
use linux_sna.Base.{ℕ}

-- TN3270_SESSION_CTL_*
abbrev pub reset_mdt : ℕ
reset_mdt = 0x01

abbrev pub keyboard_restore : ℕ
keyboard_restore = 0x02

abbrev pub reset : ℕ
reset = 0x40

-- CMD_3270_* and the orders
abbrev pub cmd_write : ℕ
cmd_write = 0x01

abbrev pub cmd_erase_write : ℕ
cmd_erase_write = 0x05

abbrev pub cmd_read_modified : ℕ
cmd_read_modified = 0x06

abbrev pub order_sf : ℕ
order_sf = 0x1d

-- SBA and RA
abbrev pub order_sba : ℕ
order_sba = 0x11

abbrev pub order_ra : ℕ
order_ra = 0x02

-- ESC, and the 5250 commands that follow it
abbrev pub esc : ℕ
esc = 0x04

abbrev pub cmd_clear_unit : ℕ
cmd_clear_unit = 0x40

abbrev pub cmd_save_screen : ℕ
cmd_save_screen = 0x02

abbrev pub cmd_write_error_code : ℕ
cmd_write_error_code = 0x21

-- ATTR_5250_WHITE and ATTR_5250_NORMAL
abbrev pub attr_white : ℕ
attr_white = 0x22

abbrev pub attr_normal : ℕ
attr_normal = 0x20
