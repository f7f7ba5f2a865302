-- ===== src/Updater.antt =====
-- Assignment2/locationUpdater.cpp: a thread that picks event lines out of a mail and a thread that
-- keeps a calendar of them. Checks has the tests of a line, Event the event and its parsing, Calendar
-- the multimap with its searches and the three operations, Threads the hand-over of the lines, Mail
-- both together.
pub mod Checks
pub mod Calendar
pub mod Event
pub mod Mail
pub mod Threads
mod Tests
