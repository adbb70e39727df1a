-- ===== src/Sd/Command.antt =====
-- sd_raw_internal.h: the commands that are sent to a card, the tokens and masks of its answers, and
-- the limits of the waits in milliseconds.
use fkfs.Base.{ℕ, ◌*◌}

abbrev pub init_timeout : ℕ
init_timeout = 2 * 1000

abbrev pub read_timeout : ℕ
read_timeout = 300

abbrev pub write_timeout : ℕ
write_timeout = 600

abbrev pub erase_timeout : ℕ
erase_timeout = 10 * 1000

-- The wait for an idle bus in front of each command.
abbrev pub command_timeout : ℕ
command_timeout = 300

abbrev pub cmd0 : ℕ
cmd0 = 0x00

abbrev pub cmd8 : ℕ
cmd8 = 0x08

abbrev pub cmd9 : ℕ
cmd9 = 0x09

abbrev pub cmd13 : ℕ
cmd13 = 0x0D

abbrev pub cmd17 : ℕ
cmd17 = 0x11

abbrev pub cmd24 : ℕ
cmd24 = 0x18

abbrev pub cmd32 : ℕ
cmd32 = 0x20

abbrev pub cmd33 : ℕ
cmd33 = 0x21

abbrev pub cmd38 : ℕ
cmd38 = 0x26

abbrev pub cmd55 : ℕ
cmd55 = 0x37

abbrev pub cmd58 : ℕ
cmd58 = 0x3A

abbrev pub acmd41 : ℕ
acmd41 = 0x29

abbrev pub r1_ready_state : ℕ
r1_ready_state = 0x00

abbrev pub r1_idle_state : ℕ
r1_idle_state = 0x01

abbrev pub r1_illegal_command : ℕ
r1_illegal_command = 0x04

abbrev pub data_start_block : ℕ
data_start_block = 0xFE

abbrev pub data_res_mask : ℕ
data_res_mask = 0x1F

abbrev pub data_res_accepted : ℕ
data_res_accepted = 0x05
