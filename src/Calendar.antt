-- ===== src/Calendar.antt =====
-- Assignment1/calendar_filter.c: the calendar of events, fed by lines that create, edit and delete
-- events. Event has the struct and `parseInput`, Times the comparison of times, Store the list of
-- nodes with its searches, Handlers the three operations, and Program the loop of `main`.
pub mod Event
pub mod Times
pub mod Store
pub mod Handlers
pub mod Program
mod Tests
