-- ===== src/CLib/Search.antt =====
-- `s.find(marker)` for a marker that is not empty, and `s.substr` behind the marker.
use advanced_systems_program.Prelude.{
  Option, none, some, [], ◌∷◌, if◌then◌else◌, length, take, drop, str_eq,
}
use advanced_systems_program.CLib.{Bytes}

-- `none` for `string::npos`.
unfoldable pub behind : Bytes → Bytes → Option Bytes
behind marker [] = none
behind marker (c ∷ cs) =
    let later = behind marker cs in
    if str_eq (take (length marker) (c ∷ cs)) marker
    then some (drop (length marker) (c ∷ cs))
    else later
