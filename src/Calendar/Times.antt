-- ===== src/Calendar/Times.antt =====
-- `isTimeEarlier` of Assignment1/calendar_filter.c: 0 for "earlier", -1 otherwise.
pub mod Order
use advanced_systems_program.Prelude.{ℕ, suc, Bool, get_or, if◌then◌else◌, codes, str_eq}
use advanced_systems_program.Prelude.Int.{ℤ, pos, negsuc, ltb_ℤ}
use advanced_systems_program.CLib.{Bytes, c_str, strtol_two}

-- The number that the two bytes at `i` of a time spell.
unfoldable pub number_at : Bytes → ℕ → ℤ
number_at t i = strtol_two (get_or t i 0) (get_or t (suc i) 0)

-- `!strcmp(time, "--:--")`
unfoldable pub no_time : Bytes → Bool
no_time t = str_eq (c_str t) (codes "--:--")

unfoldable pub is_time_earlier : Bytes → Bytes → ℤ
is_time_earlier time1 time2 =
    if no_time time1
    then negsuc 0
    else if no_time time2
    then negsuc 0
    else if ltb_ℤ (number_at time1 0) (number_at time2 0)
    then pos 0
    else if ltb_ℤ (number_at time1 3) (number_at time2 3)
    then pos 0
    else negsuc 0
