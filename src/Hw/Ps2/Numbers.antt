-- ===== src/Hw/Ps2/Numbers.antt =====
-- The numbers of include/hw/ps2.hpp: bits of the status, commands, answers and types of devices.
use cantos.Prelude.{ℕ}

abbrev pub stat_inbuff : ℕ
stat_inbuff = 0x02

abbrev pub com_read : ℕ
com_read = 0x20

abbrev pub com_write : ℕ
com_write = 0x60

abbrev pub com_dis2 : ℕ
com_dis2 = 0xa7

abbrev pub com_en2 : ℕ
com_en2 = 0xa8

abbrev pub com_test2 : ℕ
com_test2 = 0xa9

abbrev pub com_testcon : ℕ
com_testcon = 0xaa

abbrev pub com_test1 : ℕ
com_test1 = 0xab

abbrev pub com_dis1 : ℕ
com_dis1 = 0xad

abbrev pub com_en1 : ℕ
com_en1 = 0xae

abbrev pub com_next2in : ℕ
com_next2in = 0xd4

abbrev pub con_en1 : ℕ
con_en1 = 0x01

abbrev pub con_en2 : ℕ
con_en2 = 0x02

abbrev pub con_clock2 : ℕ
con_clock2 = 0x20

-- The complement of CON_EN1 | CON_EN2 | CON_TRANS.
abbrev pub con_kept : ℕ
con_kept = 0xbc

abbrev pub dev_identify : ℕ
dev_identify = 0xf2

abbrev pub dev_disable_scan : ℕ
dev_disable_scan = 0xf5

abbrev pub ack_byte : ℕ
ack_byte = 0xfa

abbrev pub resend_byte : ℕ
resend_byte = 0xfe

abbrev pub type_keyboard : ℕ
type_keyboard = 0x80

abbrev pub type_translation_keyboard_at : ℕ
type_translation_keyboard_at = 0x80

abbrev pub type_standard_mouse : ℕ
type_standard_mouse = 0x40

abbrev pub type_scroll_mouse : ℕ
type_scroll_mouse = 0x41

abbrev pub type_5btn_mouse : ℕ
type_5btn_mouse = 0x42

abbrev pub type_translation_mf2_keyboard : ℕ
type_translation_mf2_keyboard = 0x81

abbrev pub type_mf2_keyboard : ℕ
type_mf2_keyboard = 0x82

abbrev pub type_unknown : ℕ
type_unknown = 0x0
