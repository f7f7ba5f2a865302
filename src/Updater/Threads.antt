-- ===== src/Updater/Threads.antt =====
-- The two threads of Assignment2/locationUpdater.cpp and what they share. A step is a section under
-- `mLock` or one access outside it; a sleeper may wake without a signal.
pub mod Delivery
pub mod Races
use advanced_systems_program.Prelude.{
  ℕ, zero, suc, ◌+◌, ◌-◌, ◌%◌, ◌^◌, ◌≤◌, ◌<◌, ◌≡◌, ◌≢◌, ◌⊎◌, Bool, true, false, ◌&&◌, Option, none,
  some, List, [], ◌∷◌, ◌++◌, ltb, leb, if◌then◌else◌, length, take, drop, str_eq, codes,
}
use advanced_systems_program.Prelude.Int.{ℤ, pos, negsuc}
use advanced_systems_program.CLib.{Bytes, c_str}
use advanced_systems_program.CLib.Search.{behind}
use advanced_systems_program.CLib.Strtol.{strtol}
use advanced_systems_program.Updater.Checks.{check_email}

-- A `long` in an `int`, as the comparison with `size()` reads it.
abbrev pub int_as_size : ℕ → ℕ
int_as_size n = let low = n % 2 ^ 32 in if ltb low (2 ^ 31) then low else low + (2 ^ 64 - 2 ^ 32)

abbrev buffer_length : ℤ → Option ℕ
buffer_length (pos zero) = none
buffer_length (pos (suc n)) = some (int_as_size (suc n))
buffer_length (negsuc n) = none

-- `parseArguments`: `BufferLength`, or false.
unfoldable pub parse_arguments : List Bytes → Option ℕ
unfolding strtol c_str
parse_arguments [] = none
parse_arguments (program ∷ []) = none
parse_arguments (program ∷ len ∷ []) = buffer_length (strtol len)
parse_arguments (program ∷ len ∷ more ∷ args) = none

-- The rest of a line of the mail behind "Subject: ".
unfoldable pub after_subject : Bytes → Option Bytes
unfolding behind
after_subject = behind (codes "Subject: ")

-- The line of an event that a line of the mail carries, if it does.
unfoldable pub found_email : Bytes → List Bytes
unfolding after_subject c_str check_email
found_email line =
    if ltb 9 (length (c_str line))
    then elim (after_subject line) [
      | none ↦ []
      | some email ↦ if check_email email then email ∷ [] else []
    ]
    else []

unfoldable pub emails : List Bytes → List Bytes
unfolding found_email
emails [] = []
emails (line ∷ lines) = found_email line ++ emails lines

pub data Parser : Type 0 where
  reading : Parser  -- before `getline`
  signalling : Parser  -- in the loop behind `pthread_mutex_unlock`
  leaving : Parser  -- `Done` is set
  gone : Parser

pub data Processor : Type 0 where
  testing : Processor  -- before `while(true && !Done)`
  locking : Processor
  holding : Processor  -- with the lock, before the test of the waiting loop
  to_wait : Processor  -- the same, behind the test, before `pthread_cond_wait`
  waiting : Processor
  woken : Processor  -- before `pthread_cond_wait` has the lock again
  draining : Processor  -- in the loop that processes the emails
  ended : Processor

pub record System : Type 0 where
  pub input : List Bytes
  pub parser : Parser
  pub processor : Processor
  pub valid_emails : List Bytes
  pub done : Bool
  pub processed : List Bytes  -- the arguments of `processCalendar`, in order

abbrev pub start : List Bytes → System
start input = record {
  input = input;
  parser = reading;
  processor = testing;
  valid_emails = [];
  done = false;
  processed = [];
}

-- `mLock` is not held by the processor.
abbrev pub lock_free : Processor → Bool
lock_free testing = true
lock_free locking = true
lock_free holding = false
lock_free to_wait = false
lock_free waiting = true
lock_free woken = true
lock_free draining = false
lock_free ended = true

-- `pthread_cond_signal`
abbrev pub signal : Processor → Processor
signal testing = testing
signal locking = locking
signal holding = holding
signal to_wait = to_wait
signal waiting = woken
signal woken = woken
signal draining = draining
signal ended = ended

pub data Step (limit : ℕ) (s : System) : System → Type 0 where
  parse_line :
      {line : Bytes} {lines : List Bytes}
      → s.parser ≡ reading
      → s.input ≡ line ∷ lines
      → lock_free s.processor ≡ true
      → Step limit s (record s {
        input = lines;
        parser = signalling;
        valid_emails = s.valid_emails ++ found_email line;
      })
  signal_full :
      s.parser ≡ signalling
      → limit ≤ length s.valid_emails
      → Step limit s (record s { processor = signal s.processor })
  next_line :
      s.parser ≡ signalling
      → length s.valid_emails < limit
      → Step limit s (record s { parser = reading })
  set_done :
      s.parser ≡ reading → s.input ≡ [] → Step limit s (record s { parser = leaving; done = true })
  signal_done :
      s.parser ≡ leaving → Step limit s (record s { parser = gone; processor = signal s.processor })
  go_on : s.processor ≡ testing → s.done ≡ false → Step limit s (record s { processor = locking })
  stop : s.processor ≡ testing → s.done ≡ true → Step limit s (record s { processor = ended })
  lock : s.processor ≡ locking → Step limit s (record s { processor = holding })
  must_wait :
      s.processor ≡ holding
      → s.valid_emails ≡ []
      → s.done ≡ false
      → Step limit s (record s { processor = to_wait })
  wait : s.processor ≡ to_wait → Step limit s (record s { processor = waiting })
  wake : s.processor ≡ waiting → Step limit s (record s { processor = woken })
  relock : s.processor ≡ woken → Step limit s (record s { processor = holding })
  drain :
      s.processor ≡ holding
      → (s.valid_emails ≢ []) ⊎ (s.done ≡ true)
      → Step limit s (record s { processor = draining })
  process :
      {email : Bytes} {rest : List Bytes}
      → s.processor ≡ draining
      → s.valid_emails ≡ email ∷ rest
      → Step limit s (record s { valid_emails = rest; processed = s.processed ++ email ∷ [] })
  unlock :
      s.processor ≡ draining → s.valid_emails ≡ [] → Step limit s (record s { processor = testing })

-- The states that lie ahead of `s`.
pub data Reach (limit : ℕ) (s : System) : System → Type 0 where
  here : Reach limit s s
  next : {t u : System} → Reach limit s t → Step limit t u → Reach limit s u
