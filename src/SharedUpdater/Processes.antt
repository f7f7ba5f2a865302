-- ===== src/SharedUpdater/Processes.antt =====
-- The two processes of Assignment4/locationUpdater.cpp and the memory that they share. A step is a
-- section under `m_Lock` or one access outside it; a sleeper may wake without a signal. Where the
-- processes stand is told as for the threads of Assignment2.
pub mod Simulation
use advanced_systems_program.Prelude.{
  ℕ, ◌≤◌, ◌<◌, ◌≡◌, ◌⊎◌, Bool, true, false, Option, none, some, List, [], ◌∷◌, ◌++◌, ◌>>=◌,
}
use advanced_systems_program.CLib.{Bytes}
use advanced_systems_program.Updater.Threads.{
  found_email, Parser, reading, signalling, leaving, gone, Processor, testing, locking, holding,
  to_wait, waiting, woken, draining, ended, lock_free, signal,
}
use advanced_systems_program.SharedUpdater.{Ring, empty_ring, write_email, read_email}

pub record System : Type 0 where
  pub input : List Bytes
  pub parser : Parser
  pub processor : Processor
  pub ring : Ring
  pub done : Bool
  pub processed : List Bytes  -- the arguments of `processCalendar`, in order

abbrev pub start : List Bytes → System
start input = record {
  input = input;
  parser = reading;
  processor = testing;
  ring = empty_ring;
  done = false;
  processed = [];
}

-- The emails of a line, which are one or none.
unfoldable pub write_emails : ℕ → List Bytes → Ring → Option Ring
unfolding write_email
write_emails n [] r = some r
write_emails n (email ∷ rest) r = write_email n email r >>= write_emails n rest

pub data Step (limit : ℕ) (s : System) : System → Type 0 where
  parse_line :
      {line : Bytes} {lines : List Bytes} {ring : Ring}
      → s.parser ≡ reading
      → s.input ≡ line ∷ lines
      → lock_free s.processor ≡ true
      → write_emails limit (found_email line) s.ring ≡ some ring
      → Step limit s (record s { input = lines; parser = signalling; ring = ring })
  signal_full :
      s.parser ≡ signalling
      → limit ≤ s.ring.email_count
      → Step limit s (record s { processor = signal s.processor })
  next_line :
      s.parser ≡ signalling
      → s.ring.email_count < limit
      → Step limit s (record s { parser = reading })
  set_done :
      s.parser ≡ reading → s.input ≡ [] → Step limit s (record s { parser = leaving; done = true })
  signal_done :
      s.parser ≡ leaving → Step limit s (record s { parser = gone; processor = signal s.processor })
  go_on : s.processor ≡ testing → s.done ≡ false → Step limit s (record s { processor = locking })
  stop : s.processor ≡ testing → s.done ≡ true → Step limit s (record s { processor = ended })
  lock : s.processor ≡ locking → Step limit s (record s { processor = holding })
  must_wait :
      s.processor ≡ holding
      → s.ring.email_count ≡ 0
      → s.done ≡ false
      → Step limit s (record s { processor = to_wait })
  wait : s.processor ≡ to_wait → Step limit s (record s { processor = waiting })
  wake : s.processor ≡ waiting → Step limit s (record s { processor = woken })
  relock : s.processor ≡ woken → Step limit s (record s { processor = holding })
  drain :
      s.processor ≡ holding
      → (0 < s.ring.email_count) ⊎ (s.done ≡ true)
      → Step limit s (record s { processor = draining })
  process :
      {email : Bytes} {ring : Ring}
      → s.processor ≡ draining
      → 0 < s.ring.email_count
      → read_email limit s.ring ≡ some (email, ring)
      → Step limit s (record s { ring = ring; processed = s.processed ++ email ∷ [] })
  unlock :
      s.processor ≡ draining
      → s.ring.email_count ≡ 0
      → Step limit s (record s { processor = testing })

-- The states that lie ahead of `s`.
pub data Reach (limit : ℕ) (s : System) : System → Type 0 where
  here : Reach limit s s
  next : {t u : System} → Reach limit s t → Step limit t u → Reach limit s u
