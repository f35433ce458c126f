-- ===== src/Common/Config.antt =====
-- src/common/config.h
use my_db.Base.{ℕ}

abbrev pub page_size : ℕ
page_size = 4096

abbrev pub max_slots_per_page : ℕ
max_slots_per_page = 128
