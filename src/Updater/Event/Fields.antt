-- ===== src/Updater/Event/Fields.antt =====
-- The event of an accepted line has the parts of the line.
use advanced_systems_program.Prelude.{
  ◌≡◌, refl, sym, ◌∙◌, true, none, some, List, [], ◌∷◌, ◌&&◌, arith,
}
use advanced_systems_program.CLib.{Bytes}
use advanced_systems_program.CLib.Streams.{
  Stream, Got, get_line, parts, Splits, nothing, last, inner, get_line-Splits,
}
use advanced_systems_program.Updater.Checks.{
  check_email, check_action, check_title, check_date, check_time, check_location,
}
use advanced_systems_program.Updater.Checks.Accepts.{five_parts, check_email-five_parts}
use advanced_systems_program.Updater.Event.{parse_event}

-- The parts that are still to come.
abbrev left : Stream → List Bytes
left none = []
left (some s) = parts b',' s

Splits-part :
    (s p : Bytes) (ps : List Bytes)
    → parts b',' s ≡ p ∷ ps
    → {g : Got} → Splits b',' s g
    → (g.part ≡ p) × (left g.rest ≡ ps)
Splits-part s p ps h (nothing e) = absurd (ground arith)
Splits-part s p ps h (last e) = (ground arith, ground arith)
Splits-part s p ps h (inner e lt) = (ground arith, ground arith)

get_line-part :
    (old : Bytes) (r : Stream) (p : Bytes) (ps : List Bytes)
    → left r ≡ p ∷ ps
    → ((get_line b',' old r).part ≡ p) × (left (get_line b',' old r).rest ≡ ps)
get_line-part old none p ps h = absurd (ground arith)
get_line-part old (some s) p ps h = Splits-part s p ps h (get_line-Splits b',' old s)

-- On a line with five parts or more, the fields of the event are the first five.
pub parse_event-parts :
    (email a t d h l : Bytes) (ps : List Bytes)
    → parts b',' email ≡ a ∷ t ∷ d ∷ h ∷ l ∷ ps
    → parse_event email ≡ record { action = a; title = t; date = d; time = h; location = l }
unfolding parse_event
parse_event-parts email a t d h l ps e =
    let ga = get_line b',' [] (some email) in
    let pa = get_line-part [] (some email) a _ e in
    let gt = get_line b',' ga.part ga.rest in
    let pt = get_line-part ga.part ga.rest t _ pa.1 in
    let gd = get_line b',' gt.part gt.rest in
    let pd = get_line-part gt.part gt.rest d _ pt.1 in
    let gh = get_line b',' gd.part gd.rest in
    let ph = get_line-part gd.part gd.rest h _ pd.1 in
    let pl = get_line-part gh.part gh.rest l _ ph.1 in
    (λ i. record {
      action = pa.0 i;
      title = pt.0 i;
      date = pd.0 i;
      time = ph.0 i;
      location = pl.0 i;
    })

five_parts-parse_event :
    (line : Bytes) (ps : List Bytes)
    → parts b',' line ≡ ps
    → five_parts ps ≡ true
    → (check_action (parse_event line).action
        && check_title (parse_event line).title
        && check_date (parse_event line).date
        && check_time (parse_event line).time
        && check_location (parse_event line).location)
      ≡ true
unfolding five_parts
five_parts-parse_event line [] e h = absurd (ground arith)
five_parts-parse_event line (a ∷ []) e h = absurd (ground arith)
five_parts-parse_event line (a ∷ t ∷ []) e h = absurd (ground arith)
five_parts-parse_event line (a ∷ t ∷ d ∷ []) e h = absurd (ground arith)
five_parts-parse_event line (a ∷ t ∷ d ∷ k ∷ []) e h = absurd (ground arith)
five_parts-parse_event line (a ∷ t ∷ d ∷ k ∷ l ∷ m ∷ ps) e h = absurd (ground arith)
five_parts-parse_event line (a ∷ t ∷ d ∷ k ∷ l ∷ []) e h =
    rw (parse_event-parts line a t d k l [] e) h

-- On a line that `CheckEmailString` accepts, `processCalendar` fills the event with five fields that
-- pass the checks of action, title, date, time and location.
pub parse_event-accepted :
    (line : Bytes)
    → check_email line ≡ true
    → (check_action (parse_event line).action
        && check_title (parse_event line).title
        && check_date (parse_event line).date
        && check_time (parse_event line).time
        && check_location (parse_event line).location)
      ≡ true
parse_event-accepted line h =
    five_parts-parse_event line (parts b',' line) refl (sym (check_email-five_parts line) ∙ h)
