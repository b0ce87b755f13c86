-- ===== src/Common/Colours.antt =====
-- common/colours.go
use catalogger.Base.{ℕ}

abbrev pub colour_purple : ℕ
colour_purple = 10181046

abbrev pub colour_green : ℕ
colour_green = 3066993

abbrev pub colour_red : ℕ
colour_red = 15158332

abbrev pub colour_orange : ℕ
colour_orange = 15105570

abbrev pub colour_blue : ℕ
colour_blue = 3447003

abbrev pub colour_gold : ℕ
colour_gold = 15844367
