-- ===== src/SharedUpdater/Processes/Simulation.antt =====
-- The processes do what the threads of Assignment2 do, with the ring in place of the vector.
use advanced_systems_program.Prelude.{
  ℕ, ◌≤◌, ◌<◌, ◌≡◌, inl, inr, refl, sym, ap, ◌∙◌, true, ◌&&◌, Option, some, List, [], ◌∷◌, ◌++◌,
  length, all, arith, &&-eq-true,
}
use mathlib.Core.Path.{subst}
use mathlib.Core.List.{append-nil}
use advanced_systems_program.CLib.{Bytes}
use advanced_systems_program.Updater.Threads
use advanced_systems_program.Updater.Threads.{
  found_email, emails, after_subject, Parser, reading, Processor, ended, lock_free,
}
use advanced_systems_program.Updater.Threads.Delivery.{
  processed-in_order, ended-lost, reading-room, length-found_email,
}
use advanced_systems_program.SharedUpdater.{Ring, read_email}
use advanced_systems_program.SharedUpdater.Queue.{Represents, write-Represents, read-Represents}
use advanced_systems_program.SharedUpdater.Refinement.{AreTexts, empty-Represents}
use advanced_systems_program.SharedUpdater.Texts.{no_zero, found_email-AreTexts}
use advanced_systems_program.SharedUpdater.Processes.{
  System, start, write_emails, Step, parse_line, signal_full, next_line, set_done, signal_done,
  go_on, stop, lock, must_wait, wait, wake, relock, drain, process, unlock, Reach, here, next,
}

-- The state of the threads in which `ValidEmails` is `q`.
abbrev pub view : System → List Bytes → Threads.System
view s q = record {
  input = s.input;
  parser = s.parser;
  processor = s.processor;
  valid_emails = q;
  done = s.done;
  processed = s.processed;
}

record Simulated (limit : ℕ) (input : List Bytes) (s : System) (q : List Bytes) : Type 0 where
  reach : Threads.Reach limit (Threads.start input) (view s q)
  ring : Represents limit q s.ring
  texts : AreTexts q
  plain : all no_zero s.input ≡ true

write_emails-Represents :
    (limit : ℕ) (q es : List Bytes) (r : Ring)
    → Represents limit q r
    → AreTexts es
    → length es ≤ 1
    → length q < limit
    → (s : Ring) × (write_emails limit es r ≡ some s) × Represents limit (q ++ es) s
unfolding write_emails
write_emails-Represents limit q [] r rep t l h =
    (r, refl, subst (λ l. Represents limit l r) (sym (append-nil q)) rep)
write_emails-Represents limit q (e ∷ []) r rep (t, ts) l h =
    let (s, w, rep') = write-Represents limit q e r rep t h in (s, rw w refl, rep')
write_emails-Represents limit q (e ∷ f ∷ es) r rep t l h = absurd (omega arith)

append_all-AreTexts : (q es : List Bytes) → AreTexts q → AreTexts es → AreTexts (q ++ es)
append_all-AreTexts [] es ts us = us
append_all-AreTexts (e ∷ q) es (t, ts) us = (t, append_all-AreTexts q es ts us)

-- The section of the parser finds room in the ring and in its array.
parse_line-fits :
    (limit : ℕ) (input : List Bytes) (s : System) (q : List Bytes) {line : Bytes}
    {lines : List Bytes}
    → 0 < limit
    → Simulated limit input s q
    → s.parser ≡ reading
    → s.input ≡ line ∷ lines
    → (ring : Ring) × (write_emails limit (found_email line) s.ring ≡ some ring)
      × Represents limit (q ++ found_email line) ring
      × AreTexts (found_email line)
      × (all no_zero lines ≡ true)
parse_line-fits limit input s q {line} {lines} h sim p i =
    let plain : (no_zero line && all no_zero lines) ≡ true = ap (all no_zero) (sym i) ∙ sim.plain in
    let (zl, zs) = &&-eq-true (no_zero line) (all no_zero lines) plain in
    let texts = found_email-AreTexts line zl in
    let (ring, w, rep) =
      write_emails-Represents limit q (found_email line) s.ring sim.ring texts
        (length-found_email line) (reading-room limit input h sim.reach p) in
    (ring, w, rep, texts, zs)

some-injective : {a b : Ring} {o : Option Ring} → o ≡ some a → o ≡ some b → a ≡ b
some-injective h k = ground arith

-- A step that leaves the ring and the input alone.
moved :
    {limit : ℕ} {input : List Bytes} {s t : System} {q : List Bytes}
    → Simulated limit input s q
    → t.ring ≡ s.ring
    → t.input ≡ s.input
    → Threads.Step limit (view s q) (view t q)
    → (p : List Bytes) × Simulated limit input t p
moved {limit} {q = q} sim r i st = (
  q,
  record {
    reach = Threads.next sim.reach st;
    ring = subst (λ l. Represents limit q l) (sym r) sim.ring;
    texts = sim.texts;
    plain = ap (all no_zero) i ∙ sim.plain;
  },
)

empty_of_length : (l : List Bytes) → length l ≡ 0 → l ≡ []
empty_of_length [] e = refl
empty_of_length (x ∷ l) e = absurd (omega arith)

read-injective : {a b : Bytes × Ring} {o : Option (Bytes × Ring)} → o ≡ some a → o ≡ some b → a ≡ b
read-injective h k = ground arith

process-Simulated :
    {limit : ℕ} {input : List Bytes} (s : System) (q : List Bytes) {email : Bytes} {ring : Ring}
    → Simulated limit input s q
    → s.processor ≡ Threads.draining
    → 0 < s.ring.email_count
    → read_email limit s.ring ≡ some (email, ring)
    → (p : List Bytes) × Simulated limit input
        (record s { ring = ring; processed = s.processed ++ email ∷ [] })
        p
process-Simulated s [] sim p c w = let size = sim.ring.size in absurd (omega arith)
process-Simulated {limit} {input} s (e ∷ q) {email} {ring} sim p c w =
    let (t, ts) = sim.texts in
    let (after, returns, rep) = read-Represents limit e q s.ring sim.ring t in
    let both : (e, after) ≡ (email, ring) = read-injective returns w in
    let st = Threads.next sim.reach (Threads.process p refl) in
    (
      q,
      record {
        reach =
            subst
              (λ m.
                Threads.Reach limit (Threads.start input)
                  (record (view s q) { processed = s.processed ++ m ∷ [] }))
              (ap (λ x. x.0) both) st;
        ring = subst (λ r. Represents limit q r) (ap (λ x. x.1) both) rep;
        texts = ts;
        plain = sim.plain;
      },
    )

Step-Simulated :
    {limit : ℕ} {input : List Bytes} {s t : System} (q : List Bytes)
    → 0 < limit
    → Simulated limit input s q
    → Step limit s t
    → (p : List Bytes) × Simulated limit input t p
Step-Simulated {limit} {input} {s} q h sim (parse_line {line} {lines} {ring} p i f w) =
    let (ring', w', rep, texts, zs) = parse_line-fits limit input s q h sim p i in
    (
      q ++ found_email line,
      record {
        reach = Threads.next sim.reach (Threads.parse_line p i f);
        ring = subst (λ r. Represents limit (q ++ found_email line) r) (some-injective w' w) rep;
        texts = append_all-AreTexts q (found_email line) sim.texts texts;
        plain = zs;
      },
    )
Step-Simulated q h sim (signal_full p c) =
    let size = sim.ring.size in moved sim refl refl (Threads.signal_full p (omega arith))
Step-Simulated q h sim (next_line p c) =
    let size = sim.ring.size in moved sim refl refl (Threads.next_line p (omega arith))
Step-Simulated q h sim (set_done p i) = moved sim refl refl (Threads.set_done p i)
Step-Simulated q h sim (signal_done p) = moved sim refl refl (Threads.signal_done p)
Step-Simulated q h sim (go_on p d) = moved sim refl refl (Threads.go_on p d)
Step-Simulated q h sim (stop p d) = moved sim refl refl (Threads.stop p d)
Step-Simulated q h sim (lock p) = moved sim refl refl (Threads.lock p)
Step-Simulated q h sim (must_wait p c d) =
    moved sim refl refl (Threads.must_wait p (empty_of_length q (sym sim.ring.size ∙ c)) d)
Step-Simulated q h sim (wait p) = moved sim refl refl (Threads.wait p)
Step-Simulated q h sim (wake p) = moved sim refl refl (Threads.wake p)
Step-Simulated q h sim (relock p) = moved sim refl refl (Threads.relock p)
Step-Simulated q h sim (drain p (inl c)) =
    let size = sim.ring.size in
    moved sim refl refl (Threads.drain p (inl λ e. let l = ap length e in omega arith))
Step-Simulated q h sim (drain p (inr d)) = moved sim refl refl (Threads.drain p (inr d))
Step-Simulated {s = s} q h sim (process p c w) = process-Simulated s q sim p c w
Step-Simulated q h sim (unlock p c) =
    moved sim refl refl (Threads.unlock p (empty_of_length q (sym sim.ring.size ∙ c)))

Reach-Simulated :
    (limit : ℕ) (input : List Bytes) {s : System}
    → 0 < limit
    → all no_zero input ≡ true
    → Reach limit (start input) s
    → (q : List Bytes) × Simulated limit input s q
Reach-Simulated limit input h z here =
    ([], record { reach = Threads.here; ring = empty-Represents limit h; texts = tt; plain = z })
Reach-Simulated limit input h z (next r st) =
    let (q, sim) = Reach-Simulated limit input h z r in Step-Simulated q h sim st

-- With a positive `BufferLength` and on a mail without 0 bytes, every state of the two processes is a
-- state of the two threads of Assignment2, reached on the same mail, with the ring in place of
-- `ValidEmails`.
pub processes-threads :
    (limit : ℕ) (input : List Bytes) {s : System}
    → 0 < limit
    → all no_zero input ≡ true
    → Reach limit (start input) s
    → (q : List Bytes) × Threads.Reach limit (Threads.start input) (view s q)
      × Represents limit q s.ring
processes-threads limit input h z r =
    let (q, sim) = Reach-Simulated limit input h z r in (q, sim.reach, sim.ring)

-- With a positive `BufferLength` and on a mail without 0 bytes, what is found in the line that the
-- parser reads next is written to one of the `BufferLength` arrays, and does not run over its end.
pub email-fits :
    (limit : ℕ) (input : List Bytes) {s : System} {line : Bytes} {lines : List Bytes}
    → 0 < limit
    → all no_zero input ≡ true
    → Reach limit (start input) s
    → s.parser ≡ reading
    → s.input ≡ line ∷ lines
    → (ring : Ring) × (write_emails limit (found_email line) s.ring ≡ some ring)
email-fits limit input {s} {line} {lines} h z r p i =
    let (q, sim) = Reach-Simulated limit input h z r in
    let (ring, w, rep, texts, zs) =
      parse_line-fits limit input s q {line = line} {lines = lines} h sim p i in
    (ring, w)

next_read :
    (limit : ℕ) (input : List Bytes) (s : System) (q : List Bytes)
    → 0 < limit
    → Simulated limit input s q
    → 0 < s.ring.email_count
    → (email : Bytes) × (ring : Ring) × (rest : List Bytes) × (read_email limit s.ring
        ≡ some (email, ring))
      × (s.processed ++ email ∷ rest ≡ emails input)
next_read limit input s [] h sim c = let size = sim.ring.size in absurd (omega arith)
next_read limit input s (e ∷ q) h sim c =
    let (t, ts) = sim.texts in
    let (after, returns, rep) = read-Represents limit e q s.ring sim.ring t in
    (e, after, q ++ emails s.input, returns, (processed-in_order limit input h sim.reach).0)

-- With a positive `BufferLength` and on a mail without 0 bytes, whenever the count in shared memory is
-- not 0, the read of the process of the calendar is of one of the `BufferLength` arrays, and gives the
-- email of the mail that follows those it has processed.
pub email-read :
    (limit : ℕ) (input : List Bytes) {s : System}
    → 0 < limit
    → all no_zero input ≡ true
    → Reach limit (start input) s
    → 0 < s.ring.email_count
    → (email : Bytes) × (ring : Ring) × (rest : List Bytes) × (read_email limit s.ring
        ≡ some (email, ring))
      × (s.processed ++ email ∷ rest ≡ emails input)
email-read limit input {s} h z r c =
    let (q, sim) = Reach-Simulated limit input h z r in next_read limit input s q h sim c

-- With a positive `BufferLength` and on a mail without 0 bytes, what the process of the calendar has not
-- processed once it has ended are the last emails of the mail, as many as the count in shared memory
-- says, and fewer than `BufferLength`.
pub ended-left :
    (limit : ℕ) (input : List Bytes) {s : System}
    → 0 < limit
    → all no_zero input ≡ true
    → Reach limit (start input) s
    → s.processor ≡ ended
    → (q : List Bytes) × (s.processed ++ q ≡ emails input)
      × (s.ring.email_count ≡ length q)
      × (length q < limit)
ended-left limit input h z r e =
    let (q, sim) = Reach-Simulated limit input h z r in
    let (all_of, few) = ended-lost limit input h sim.reach e in (q, all_of, sim.ring.size, few)
