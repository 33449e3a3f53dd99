-- ===== src/Flash/Layout.antt =====
-- The areas of the flash: bsp/inc/bsp_flash.h and the tables at the head of bsp/src/bsp_flash.c.
use ch32v303rct6_rtt_mrs.Base.{ℕ, ◌+◌, ◌-◌, ◌*◌}

abbrev pub page_size : ℕ
page_size = 256

abbrev pub page_records : ℕ
page_records = 25

abbrev pub record_size : ℕ
record_size = 10

-- `TeRecord`.
pub data Record : Type 0 where
  alarm alarm_rcy fault fault_rcy power_down power_on sensor_end_of_life : Record

-- `hr_record_max_num`.
unfoldable pub max_num : Record → ℕ
max_num alarm = 200
max_num alarm_rcy = 200
max_num fault = 100
max_num fault_rcy = 100
max_num power_down = 50
max_num power_on = 50
max_num sensor_end_of_life = 1

-- `hr_record_pages`.
unfoldable pub pages : Record → ℕ
pages alarm = 9
pages alarm_rcy = 9
pages fault = 5
pages fault_rcy = 5
pages power_down = 3
pages power_on = 3
pages sensor_end_of_life = 1

-- The last page of 256 KB.
abbrev pub config_addr : ℕ
config_addr = 0x08000000 + 256 * 1024 - page_size

abbrev pub factory_time_addr : ℕ
factory_time_addr = config_addr

-- A packed `TuFlashProductTimeLimitFrame` has 8 bytes.
abbrev pub time_frame_size : ℕ
time_frame_size = 8

abbrev pub expiration_time_addr : ℕ
expiration_time_addr = factory_time_addr + time_frame_size

abbrev pub alarm_value_addr : ℕ
alarm_value_addr = expiration_time_addr + time_frame_size

abbrev pub init_flag_addr : ℕ
init_flag_addr = config_addr + 254

-- `hr_start_addr`, from the last area down.
unfoldable pub start_addr : Record → ℕ
start_addr sensor_end_of_life = factory_time_addr - page_size
start_addr power_on = factory_time_addr - page_size - page_size * 3
start_addr power_down = factory_time_addr - page_size - page_size * 3 - page_size * 3
start_addr fault_rcy = factory_time_addr - page_size - page_size * 3 - page_size * 3 - page_size * 5
start_addr fault =
    factory_time_addr - page_size - page_size * 3 - page_size * 3 - page_size * 5 - page_size * 5
start_addr alarm_rcy =
    factory_time_addr
    - page_size
    - page_size * 3
    - page_size * 3
    - page_size * 5
    - page_size * 5
    - page_size * 9
start_addr alarm =
    factory_time_addr
    - page_size
    - page_size * 3
    - page_size * 3
    - page_size * 5
    - page_size * 5
    - page_size * 9
    - page_size * 9
