-- ===== src/SharedUpdater/Queue.antt =====
-- The ring is a queue of at most `BufferLength` emails.
use advanced_systems_program.Prelude.{
  ℕ, zero, suc, ◌+◌, ◌-◌, ◌%◌, ◌≤◌, ◌<◌, ◌≡◌, ◌≢◌, inl, inr, refl, sym, ap, ◌∙◌, true, not, some,
  List, [], ◌∷◌, ◌++◌, ◌==◌, ltb, if◌then◌else◌, length, length-append, take, drop, replicate,
  get_or, all, arith, Bool-cases, length-replicate,
}
use native.Mathlib.Nat.{mod-eq_of_lt, mod_self}
use advanced_systems_program.CLib.{Bytes, c_str}
use advanced_systems_program.SharedUpdater.{
  default_length, Ring, put, overlay, write_email, read_slot, take_email, read_email,
}

-- A position that has run over the end at most once.
abbrev pub wrap : ℕ → ℕ → ℕ
wrap n x = if ltb x n then x else x - n

abbrev pub padded : Bytes → Bytes
padded email = email ++ replicate (default_length - length email) 0

-- The ring holds the emails of `q`, the first at the read position, and is 0 elsewhere.
pub record Represents (n : ℕ) (q : List Bytes) (r : Ring) : Type 0 where
  pub size : r.email_count ≡ length q
  pub fits : length q ≤ n
  pub read_in : r.buffer_read < n
  pub write_at : r.buffer_write ≡ wrap n (r.buffer_read + length q)
  pub held : (k : ℕ) → k < n → r.valid_emails (wrap n (r.buffer_read + k)) ≡ padded (get_or q k [])

-- A string that leaves room for a 0.
pub record IsText (email : Bytes) : Type 0 where
  pub short : length email < default_length
  pub no_zero : all (λ c. not (c == 0)) email ≡ true

sub_zero : (n : ℕ) → n - 0 ≡ n
sub_zero n = omega arith

suc_sub_suc : (n l : ℕ) → suc n - suc l ≡ n - l
suc_sub_suc n l = omega arith

zero_sub : (n : ℕ) → zero ≡ zero - suc n
zero_sub n = omega arith

drop-replicate : (n m : ℕ) → drop {A = ℕ} n (replicate m 0) ≡ replicate (m - n) 0
drop-replicate zero m = ap (λ k. replicate {A = ℕ} k 0) (sym (sub_zero m))
drop-replicate (suc n) zero = ap (λ k. replicate {A = ℕ} k 0) (zero_sub n)
drop-replicate (suc n) (suc m) =
    drop-replicate n m ∙ ap (λ k. replicate {A = ℕ} k 0) (sym (suc_sub_suc m n))

overlay-padded :
    (email : Bytes)
    → length email < default_length
    → overlay email (padded []) ≡ some (padded email)
unfolding overlay
overlay-padded email h =
    let l = length-replicate {A = ℕ} default_length 0 in
    rw (drop-replicate (length email) default_length) (ground arith)

c_str-take :
    (m n : ℕ) (email : Bytes)
    → length email ≤ m
    → length email < n
    → all (λ c. not (c == 0)) email ≡ true
    → c_str (take m (email ++ replicate (n - length email) 0)) ≡ email
unfolding c_str
c_str-take zero n [] h k z = refl
c_str-take (suc m) zero [] h k z = absurd (omega arith)
c_str-take (suc m) (suc n) [] h k z =
    ap (λ d. c_str (take (suc m) (replicate d 0))) (sub_zero (suc n))
c_str-take zero n (c ∷ cs) h k z = absurd (omega arith)
c_str-take (suc m) zero (c ∷ cs) h k z = absurd (omega arith)
c_str-take (suc m) (suc n) (c ∷ cs) h k z = elim (Bool-cases (c == 0)) [
  | inl e ↦ absurd (ground arith)
  | inr e ↦ rw e (
      ap (λ d. c ∷ c_str (take m (cs ++ replicate d 0))) (suc_sub_suc n (length cs))
      ∙ ap (◌∷◌ c) (c_str-take m n cs (omega arith) (omega arith) (ground arith)))
]

read_slot-padded : (email : Bytes) → IsText email → read_slot (padded email) ≡ email
unfolding read_slot
read_slot-padded email t =
    let short = t.short in
    c_str-take (default_length - 1) default_length email (omega arith) short t.no_zero

next_mod : (n x : ℕ) → x < n → (x + 1) % n ≡ wrap n (x + 1)
next_mod n x h = elim (Bool-cases (ltb (x + 1) n)) [
  | inl e ↦ rw e (mod-eq_of_lt (ground arith))
  | inr e ↦ let full : x + 1 ≡ n = ground arith in rw e (rw full (mod_self n ∙ omega arith))
]

module _ {A : Type 0} where
  get_or-before :
      (xs : List A) (x d : A) (k : ℕ) → k ≢ length xs → get_or (xs ++ x ∷ []) k d ≡ get_or xs k d
  get_or-before [] x d zero h = absurd (h refl)
  get_or-before [] x d (suc k) h = refl
  get_or-before (y ∷ ys) x d zero h = refl
  get_or-before (y ∷ ys) x d (suc k) h = get_or-before ys x d k λ e. h (ap suc e)

  get_or-last : (xs : List A) (x d : A) → get_or (xs ++ x ∷ []) (length xs) d ≡ x
  get_or-last [] x d = refl
  get_or-last (y ∷ ys) x d = get_or-last ys x d

  get_or-beyond : (xs : List A) (d : A) (k : ℕ) → length xs ≤ k → get_or xs k d ≡ d
  get_or-beyond [] d k h = refl
  get_or-beyond (y ∷ ys) d zero h = absurd (omega arith)
  get_or-beyond (y ∷ ys) d (suc k) h = get_or-beyond ys d k (omega arith)

put-same : (slots : ℕ → Bytes) (i : ℕ) (slot : Bytes) (k : ℕ) → k ≡ i → put slots i slot k ≡ slot
put-same slots i slot k h = ground arith

put-other :
    (slots : ℕ → Bytes) (i : ℕ) (slot : Bytes) (k : ℕ) → k ≢ i → put slots i slot k ≡ slots k
put-other slots i slot k h = ground arith

pub write-Represents :
    (n : ℕ) (q : List Bytes) (email : Bytes) (r : Ring)
    → Represents n q r
    → IsText email
    → length q < n
    → (s : Ring) × (write_email n email r ≡ some s) × Represents n (q ++ email ∷ []) s
unfolding write_email
write-Represents n q email r rep t h =
    let size = rep.size in
    let read_in = rep.read_in in
    let write_at = rep.write_at in
    let more = length-append q (email ∷ []) in
    let slot : r.valid_emails r.buffer_write ≡ padded [] =
      ap r.valid_emails write_at
      ∙ rep.held (length q) h
      ∙ ap padded (get_or-beyond q [] (length q) (omega arith)) in
    let fill : overlay email (r.valid_emails r.buffer_write) ≡ some (padded email) =
      ap (overlay email) slot ∙ overlay-padded email t.short in
    let room : ltb r.buffer_write n ≡ true = ground arith in
    (
      record {
        valid_emails = put r.valid_emails r.buffer_write (padded email);
        email_count = r.email_count + 1;
        buffer_read = r.buffer_read;
        buffer_write = (r.buffer_write + 1) % n;
      },
      rw (write_email, room, fill) refl,
      record {
        size = omega arith;
        fits = omega arith;
        read_in = read_in;
        write_at = next_mod n r.buffer_write (ground arith) ∙ ground arith;
        held = λ k lt. elim (Bool-cases (k == length q)) [
          | inl e ↦
              let same : k ≡ length q = ground arith in
              put-same r.valid_emails r.buffer_write (padded email) (wrap n (r.buffer_read + k))
                (ap (λ m. wrap n (r.buffer_read + m)) same ∙ sym write_at)
              ∙ ap padded
                  (sym (ap (λ m. get_or (q ++ email ∷ []) m []) same ∙ get_or-last q email []))
          | inr e ↦
              put-other r.valid_emails r.buffer_write (padded email) (wrap n (r.buffer_read + k))
                (λ f. ground arith)
              ∙ rep.held k lt
              ∙ ap padded (sym (get_or-before q email [] k λ f. ground arith))
        ];
      },
    )

take-Represents :
    (n : ℕ) (email : Bytes) (q : List Bytes) (r : Ring)
    → Represents n (email ∷ q) r
    → IsText email
    → ((take_email n r).0 ≡ email) × Represents n q (take_email n r).1
unfolding take_email
take-Represents n email q r rep t =
    let size = rep.size in
    let fits = rep.fits in
    let read_in = rep.read_in in
    let write_at = rep.write_at in
    let first : r.valid_emails r.buffer_read ≡ padded email =
      ap r.valid_emails (ground arith) ∙ rep.held 0 (omega arith) in
    let step = next_mod n r.buffer_read read_in in
    (
      ap read_slot first ∙ read_slot-padded email t,
      record {
        size = omega arith;
        fits = omega arith;
        read_in = ground arith;
        write_at = write_at ∙ ground arith;
        held = λ k lt. elim (Bool-cases (ltb (k + 1) n)) [
          | inl e ↦
              let old : wrap n ((r.buffer_read + 1) % n + k) ≡ wrap n (r.buffer_read + suc k) =
                ground arith in
              put-other r.valid_emails r.buffer_read (replicate default_length 0)
                (wrap n ((r.buffer_read + 1) % n + k)) (λ f. ground arith)
              ∙ ap r.valid_emails old
              ∙ rep.held (suc k) (ground arith)
          | inr e ↦
              put-same r.valid_emails r.buffer_read (replicate default_length 0)
                (wrap n ((r.buffer_read + 1) % n + k)) (ground arith)
              ∙ ap padded (sym (get_or-beyond q [] k (ground arith)))
        ];
      },
    )

pub read-Represents :
    (n : ℕ) (email : Bytes) (q : List Bytes) (r : Ring)
    → Represents n (email ∷ q) r
    → IsText email
    → (s : Ring) × (read_email n r ≡ some (email, s)) × Represents n q s
unfolding read_email
read-Represents n email q r rep t =
    let (same, rep') = take-Represents n email q r rep t in
    let read_in = rep.read_in in
    let room : ltb r.buffer_read n ≡ true = ground arith in
    ((take_email n r).1, rw (read_email, room) (ap (λ e. some (e, (take_email n r).1)) same), rep')
