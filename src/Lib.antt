-- ===== src/Lib.antt =====
-- A model of the C and C++ programs of the repository Advanced-Systems-Programming, with theorems on
-- them.
-- Paths below are given from the repository's root.
--
-- The parts:
--   Prelude: library names, Boolean tests on the native numbers, lists, integers, 64-bit words.
--   CLib: what the programs use of the C and C++ libraries (strtok, strcpy, fgets, strtol, getline,
--     find, printf of an int).
--   EmailFilter: Assignment1/email_filter.c. checkAction is `check_action` and so on; the loop of
--     isWellFormed is `turn`, repeated by `turns`; main is `main`.
--   Calendar: Assignment1/calendar_filter.c. Event has struct event_t and parseInput, Times
--     isTimeEarlier, Store the linked list with its searches, AppendEvent and deleteNode, Handlers
--     CreateEvent, EditEvent, DeleteEvent and ProcessCalendar, and Program main.
--   Pipeline: Assignment1/location_updater.c, which runs the two filters on both sides of a pipe:
--     the descriptors of its three processes, an event line on its way through both filters, and in
--     Run the whole program.
--   CharDriver: Assignment5/Dutka_Gianfranco_Assignment_5/char_driver.c. Device has struct
--     char_devices and the kernel's part, Ops the file operations, Setup my_init, build_device,
--     cleanup_char_device and my_exit, Client the script testing_kmod.c beside it and Menu
--     the program userapp.c.
--   ModeDriver: Assignment6/assignment6.c. Device has the sections of e2_open, e2_release and
--     e2_ioctl under `sem1`, System the steps of the processes that interleave them, Signals
--     the steps that signals add, Cases the programs Assignment6/case1.cpp to case4.cpp as threads on
--     the device, Transfer e2_read and e2_write, and Setup my_init and my_exit.
--   Keyboard: Assignment7/submission/keyboard_sim.c. System has the shared memory, the pipes and the
--     steps of interrupt_keyboard_thread, control_keyboard_thread, interrupt_driver_thread and
--     control_driver_thread, Report what main prints behind them.
--   Simulator: Assignment7/simulator.c with keyboard.c and driver_simulator.c, the same in three
--     programs. Startup has the descriptors on their way through the arguments and init_fds,
--     Interrupts the steps of the two interrupt_threads, ReadFile readFile.
--   Updater: Assignment2/locationUpdater.cpp. Checks has CheckEmailString and its checks, Event the
--     parsing of a line, Calendar the multimap with its searches, CreateEvent, EditEvent, DeleteEvent
--     and processCalendar, Threads parseArguments and the steps of ParseValidEmailsThread and
--     processCalendarThread, Mail the emails of a mail processed on the calendar.
--   SharedUpdater: Assignment4/locationUpdater.cpp. Its module has the ring of emails that
--     ParseValidEmailsThread fills and processCalendarThread empties, Processes the steps of the two
--     processes that do so, Delete safeSearchEarliestEventByDate and DeleteEvent, Mail
--     processCalendar. The rest of the calendar is Updater's.
--   Transfers: Assignment3/eft.cpp. Its module has the reading of ParseInput, with parseAccount,
--     parseTransfer, InsertAccount and GetAccountIndex, Threads the steps of SendMoney.
--
-- Bounds and fuel. The state machine of the email filter runs on six rounds and parseInput on
-- five: each round goes to a later state. Sums of a position and a count in the drivers wrap at
-- 2^64; positions and sizes alone are taken to lie below 2^63. Lines are cut by fgets at
-- BUFFERSIZE - 1 bytes, and the buffer is 0 behind a line. The loop over getline runs on two
-- rounds more than the text has bytes: each round takes a byte or meets the end. The balances in
-- Transfers wrap at 2^32. Digits are printed on one more round than the number, and readFile ends on
-- one round more than the file has bytes.
--
-- What is not modelled. The kernel and the C library are parameters or small definitions of their
-- documented behaviour: memory that was copied or not, memory that is found or not, a file that is
-- mapped or not, signals that end a sleep. In the calendar malloc succeeds and gives no address
-- twice. In ModeDriver a section under `sem1` is one step: a signal that ends a wait for `sem1`,
-- after which the section runs without the lock, is left out, and in Cases no signal arrives at
-- all. In Updater a call of processCalendar by the thread is one that returns, and
-- ValidEmails.size() outside the lock reads the current value. The synchronization variables of
-- Simulator but for the lock of keyboard.c, mmap and fork in Assignment4, the course material under
-- Assignment5/LDD_sol and the book examples under scull/ldd3-master are not modelled.
pub mod Prelude
pub mod CLib
pub mod EmailFilter
pub mod Calendar
pub mod Pipeline
pub mod CharDriver
pub mod ModeDriver
pub mod Keyboard
pub mod Updater
pub mod SharedUpdater
pub mod Transfers
pub mod Simulator
