-- ===== src/Calendar/Times/Order.antt =====
-- `isTimeEarlier` against the order of the times of a day.
use advanced_systems_program.Prelude.{
  ℕ, ◌+◌, ◌*◌, ◌/◌, ◌%◌, ◌<◌, ◌≡◌, ◌↔◌, ◌⊎◌, false, ◌||◌, [], ◌∷◌, ltb, if◌then◌else◌, arith,
}
use advanced_systems_program.Prelude.Int.{pos, negsuc}
use advanced_systems_program.CLib.{Bytes, c_str, strtol_two}
use advanced_systems_program.Calendar.Times.{number_at, no_time, is_time_earlier}

-- The array that holds the text HH:MM.
abbrev pub clock : (hour minute : ℕ) → Bytes
clock hour minute =
    (b'0' + hour / 10)
    ∷ (b'0' + hour % 10)
    ∷ b':'
    ∷ (b'0' + minute / 10)
    ∷ (b'0' + minute % 10)
    ∷ 0
    ∷ []

strtol_two-digits : (n : ℕ) → n < 100 → strtol_two (b'0' + n / 10) (b'0' + n % 10) ≡ pos n
unfolding strtol_two
strtol_two-digits n h = ground arith

clock-no_time : (hour minute : ℕ) → hour < 100 → no_time (clock hour minute) ≡ false
unfolding no_time c_str
clock-no_time hour minute h = ground arith

number_at-hour : (h m : ℕ) → h < 100 → number_at (clock h m) 0 ≡ pos h
unfolding number_at
number_at-hour h m a = strtol_two-digits h a

number_at-minute : (h m : ℕ) → m < 100 → number_at (clock h m) 3 ≡ pos m
unfolding number_at
number_at-minute h m a = strtol_two-digits m a

is_time_earlier-clock :
    (h m h' m' : ℕ)
    → h < 100
    → m < 100
    → h' < 100
    → m' < 100
    → is_time_earlier (clock h m) (clock h' m') ≡ (if ltb h h' || ltb m m' then pos 0 else negsuc 0)
unfolding is_time_earlier
is_time_earlier-clock h m h' m' a b c d =
    rw
      (
        clock-no_time h m a,
        clock-no_time h' m' c,
        number_at-hour h m a,
        number_at-hour h' m' c,
        number_at-minute h m b,
        number_at-minute h' m' d,
      )
      (ground arith)

-- Minutes since midnight.
abbrev pub minutes : (hour minute : ℕ) → ℕ
minutes hour minute = 60 * hour + minute

-- On two times of day the function says "earlier" (0) exactly if the first is earlier, or has a
-- later hour and a smaller minute.
is_time_earlier-minutes :
    (h m h' m' : ℕ)
    → h < 24
    → m < 60
    → h' < 24
    → m' < 60
    → (is_time_earlier (clock h m) (clock h' m') ≡ pos 0)
      ↔ ((minutes h m < minutes h' m') ⊎ ((h' < h) × (m < m')))
is_time_earlier-minutes h m h' m' a b c d =
    let e =
      is_time_earlier-clock h m h' m' (omega arith) (omega arith) (omega arith) (omega arith) in
    (λ z. ground arith, λ z. ground arith)

-- Within one hour the function is the order of the minutes.
pub is_time_earlier-same_hour :
    (h m m' : ℕ)
    → h < 24
    → m < 60
    → m' < 60
    → is_time_earlier (clock h m) (clock h m') ≡ (if ltb m m' then pos 0 else negsuc 0)
is_time_earlier-same_hour h m m' a b c =
    let e =
      is_time_earlier-clock h m h m' (omega arith) (omega arith) (omega arith) (omega arith) in
    ground arith
