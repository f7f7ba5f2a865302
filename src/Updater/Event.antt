-- ===== src/Updater/Event.antt =====
-- `Event_t`, and how `processCalendar` takes a line apart.
pub mod Fields
use advanced_systems_program.Prelude.{ℕ, Bool, Option, some, List, [], ◌&&◌, not, str_eq}
use advanced_systems_program.CLib.{Bytes}
use advanced_systems_program.CLib.Streams.{Got, get_line}
use advanced_systems_program.Updater.Checks.{is_empty}

pub record Event : Type 0 where
  pub action : Bytes
  pub title : Bytes
  pub date : Bytes
  pub time : Bytes
  pub location : Bytes

-- Five calls of `getline` on one `part`, each result stored in a field.
unfoldable pub parse_event : Bytes → Event
parse_event email =
    let a = get_line b',' [] (some email) in
    let t = get_line b',' a.part a.rest in
    let d = get_line b',' t.part t.rest in
    let h = get_line b',' d.part d.rest in
    let l = get_line b',' h.part h.rest in
    record { action = a.part; title = t.part; date = d.part; time = h.part; location = l.part }

-- `CompareEvents`: true for equal.
unfoldable pub compare_events : Event → Event → Bool
compare_events e f =
    not (is_empty e.action)
    && not (is_empty f.action)
    && (str_eq e.action f.action
        && str_eq e.title f.title
        && str_eq e.time f.time
        && str_eq e.date f.date
        && str_eq e.location f.location)
