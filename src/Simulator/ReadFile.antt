-- ===== src/Simulator/ReadFile.antt =====
-- `readFile` of keyboard.c, which is not called at this commit. A read of an open file does not fail.
use advanced_systems_program.Prelude.{
  ℕ, zero, suc, ◌+◌, ◌≤◌, ◌<◌, ◌≡◌, refl, arith, Option, none, some, [], ◌∷◌, ◌++◌, inl, inr, ltb,
  leb, if◌then◌else◌, length, length-append,
}
use mathlib.Core.List.{append_assoc, append-nil}
use advanced_systems_program.CLib.{Bytes}
use advanced_systems_program.CLib.Decimal.{less_or}

abbrev max_buff : ℕ
max_buff = 2048

-- How the call ends: `exit(0)`, or with these bytes and a 0 in `buffer`. Or the fuel is used up.
pub data Result : Type 0 where
  unfinished : Result
  exits : Result
  filled : Bytes → Result

-- The test behind the loop.
unfoldable pub close_buffer : Bytes → Result
close_buffer bytes = if leb max_buff (length bytes) then exits else filled bytes

-- The loop, with the bytes that are in `buffer`. On a file that is not open `read` returns -1.
unfoldable pub read_loop : ℕ → Option Bytes → Bytes → Result
unfolding close_buffer
read_loop zero file bytes = unfinished
read_loop (suc fuel) none bytes =
    let rest = read_loop fuel none bytes in
    if ltb (length bytes) max_buff then rest else close_buffer bytes
read_loop (suc fuel) (some []) bytes = close_buffer bytes
read_loop (suc fuel) (some (c ∷ cs)) bytes =
    let rest = read_loop fuel (some cs) (bytes ++ c ∷ []) in
    if ltb (length bytes + 1) max_buff then rest else close_buffer (bytes ++ c ∷ [])

-- `none` is a file that `open` refuses.
unfoldable pub read_file : ℕ → Option Bytes → Result
unfolding read_loop
read_file fuel file = read_loop fuel file []

-- The whole file, or the bytes up to the size of the buffer.
read_loop-fits :
    (fuel : ℕ) (cs bytes : Bytes)
    → length cs < fuel
    → length bytes + length cs < max_buff
    → read_loop fuel (some cs) bytes ≡ filled (bytes ++ cs)
unfolding read_loop close_buffer
read_loop-fits zero cs bytes h l = ground arith
read_loop-fits (suc fuel) [] bytes h l = ground (arith, append-nil bytes)
read_loop-fits (suc fuel) (c ∷ cs) bytes h l =
    let n = length-append bytes (c ∷ []) in
    let i = read_loop-fits fuel cs (bytes ++ c ∷ []) (omega arith) (omega arith) in
    let a = append_assoc bytes (c ∷ []) cs in ground arith

read_loop-full :
    (fuel : ℕ) (cs bytes : Bytes)
    → length cs < fuel
    → max_buff ≤ length bytes + length cs
    → read_loop fuel (some cs) bytes ≡ exits
unfolding read_loop close_buffer
read_loop-full zero cs bytes h l = ground arith
read_loop-full (suc fuel) [] bytes h l = ground arith
read_loop-full (suc fuel) (c ∷ cs) bytes h l =
    let n = length-append bytes (c ∷ []) in
    let i = read_loop-full fuel cs (bytes ++ c ∷ []) (omega arith) in ground arith

read_loop-closed :
    (fuel : ℕ) (bytes : Bytes) → length bytes < max_buff → read_loop fuel none bytes ≡ unfinished
unfolding read_loop close_buffer
read_loop-closed zero bytes h = refl
read_loop-closed (suc fuel) bytes h = let i = read_loop-closed fuel bytes h in ground arith

-- What `readFile` is to do with a file.
abbrev pub expected : Option Bytes → Result
expected none = unfinished
expected (some cs) = if ltb (length cs) max_buff then filled cs else exits

abbrev pub size : Option Bytes → ℕ
size none = 0
size (some cs) = length cs

-- On more fuel than the file has bytes, `readFile` stores the whole of a file of less than 2048 bytes
-- and exits on a longer one; if the file cannot be opened it does not end, whatever the fuel.
read_file-expected :
    (fuel : ℕ) (file : Option Bytes) → size file < fuel → read_file fuel file ≡ expected file
unfolding read_file
read_file-expected fuel none h = read_loop-closed fuel [] (omega arith)
read_file-expected fuel (some cs) h = elim (less_or (length cs) 2048) [
  | inl l ↦ let r = read_loop-fits fuel cs [] h (omega arith) in ground arith
  | inr l ↦ let r = read_loop-full fuel cs [] h (omega arith) in ground arith
]
