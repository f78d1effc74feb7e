-- ===== src/Zpoline/Maps.antt =====
-- `rewrite_code` of mylib/zpoline.c: which parts of memory are rewritten, from the lines of
-- /proc/self/maps. A line is shorter than the buffer of 4096 bytes.
use staut.Prelude.{
  ℕ, ◌+◌, ◌-◌, ◌*◌, ◌%◌, ◌^◌, Bool, false, ◌&&◌, ◌||◌, not, ◌==◌, leb, if◌then◌else◌, List, [], ◌∷◌,
  Option, none, some, ◌>>=◌, CString, strncmp_eq, length, take, min,
}
use staut.Zpoline.Rewrite.{Code, Disassembler, disassemble_and_rewrite}

-- `strstr(s, w) != NULL`
abbrev pub contains : CString → CString → Bool
contains [] w = strncmp_eq w [] (length w)
contains (c ∷ s) w = strncmp_eq w (c ∷ s) (length w) || contains s w

-- "stack" and "vsyscall"
abbrev pub stack_text : CString
stack_text = 115 ∷ 116 ∷ 97 ∷ 99 ∷ 107 ∷ []

abbrev pub vsyscall_text : CString
vsyscall_text = 118 ∷ 115 ∷ 121 ∷ 115 ∷ 99 ∷ 97 ∷ 108 ∷ 108 ∷ []

abbrev pub blank : ℕ
blank = 32

abbrev pub dash : ℕ
dash = 45

-- `strtok` with the delimiter " ": the spaces before a word are passed over, and the one behind it is
-- taken. The word comes with what is left.
abbrev pub word : CString → CString × CString
word [] = ([], [])
word (c ∷ s) = let w = word s in if c == blank then ([], s) else (c ∷ w.0, w.1)

abbrev pub strtok : CString → Option (CString × CString)
strtok [] = none
strtok (c ∷ s) = let t = strtok s in if c == blank then t else some (word (c ∷ s))

-- The value of a hexadecimal digit.
abbrev pub digit : ℕ → Option ℕ
digit c =
    if leb 48 c && leb c 57
    then some (c - 48)
    else if leb 97 c && leb c 102
    then some (c - 87)
    else if leb 65 c && leb c 70
    then some (c - 55)
    else none

-- `strtol` with base 16 at a digit: it reads up to the first other byte. The lines have no sign and no
-- "0x".
abbrev pub strtol_from : ℕ → CString → ℕ
strtol_from acc [] = acc
strtol_from acc (c ∷ s) = elim (digit c) [ none ↦ acc | some v ↦ strtol_from (acc * 16 + v) s ]

-- A value that leaves a `long` is cut to the largest.
abbrev pub strtol : CString → ℕ
strtol s = min (strtol_from 0 s) (2 ^ 63 - 1)

-- `addr` up to the '-', and behind it.
abbrev pub before_dash : CString → CString
before_dash [] = []
before_dash (c ∷ s) = let r = before_dash s in if c == dash then [] else c ∷ r

abbrev pub behind_dash : CString → CString
behind_dash [] = []
behind_dash (c ∷ s) = let r = behind_dash s in if c == dash then s else r

-- `mem_prot & PROT_EXEC`
abbrev pub has_exec : CString → Bool
has_exec [] = false
has_exec (c ∷ s) = c == 120 || has_exec s

module _ (syscall_addr : ℕ) (disasm : Disassembler) where
  -- The case for the second word, which is the protection.
  unfoldable pub rewrite_mapping : CString → CString → Code → Option Code
  rewrite_mapping addr prot c =
      let from = strtol (before_dash addr) in
      let to = strtol (behind_dash addr) in
      if not (has_exec prot)
      then some c
      else if from == 0
      then some c
      else disassemble_and_rewrite syscall_addr disasm from ((to + 2 ^ 64 - from) % 2 ^ 64) c

  -- The words of a line. `addr` has room for 64 bytes and a 0.
  unfoldable pub rewrite_words : CString → Code → Option Code
  rewrite_words buf c = elim (strtok buf) [
    | none ↦ some c
    | some first ↦ elim (strtok first.1) [
      | none ↦ some c
      | some second ↦ rewrite_mapping (take 64 first.0) second.0 c
    ]
  ]

  -- A round of the loop.
  unfoldable pub rewrite_line : CString → Code → Option Code
  rewrite_line buf c =
      if not (contains buf stack_text) && not (contains buf vsyscall_text)
      then rewrite_words buf c
      else some c

  -- `rewrite_code`, over the lines of the file.
  unfoldable pub rewrite_code : List CString → Code → Option Code
  rewrite_code [] c = some c
  rewrite_code (buf ∷ bufs) c = rewrite_line buf c >>= λ d. rewrite_code bufs d
