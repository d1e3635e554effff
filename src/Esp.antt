-- ===== src/Esp.antt =====
-- The global `ESP` of ESP.h: fixed answers, since a host has no chip.
use bit_magic_zi_modem.Base.{ℕ, ◌*◌, List, codes}

abbrev pub get_sdk_version : List ℕ
get_sdk_version = codes "zimodem-host"

abbrev pub get_flash_chip_real_size : ℕ
get_flash_chip_real_size = 4 * 1024 * 1024

abbrev pub get_flash_chip_size : ℕ
get_flash_chip_size = 4 * 1024 * 1024

abbrev pub get_cpu_freq_mhz : ℕ
get_cpu_freq_mhz = 240

-- The identifier, the free heap, the size of the sketch and the revision.
abbrev pub get_flash_chip_id : ℕ
get_flash_chip_id = 0

abbrev pub get_free_heap : ℕ
get_free_heap = 0

abbrev pub get_sketch_size : ℕ
get_sketch_size = 0

abbrev pub get_chip_revision : ℕ
get_chip_revision = 0
