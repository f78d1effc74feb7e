-- ===== src/Zpoline/Printed.antt =====
-- `rewrite_code` of mylib/zpoline.c on the memory map as the kernel prints it.
use staut.Prelude.{
  ℕ, zero, suc, ◌+◌, ◌-◌, ◌*◌, ◌%◌, ◌^◌, ◌≤◌, ◌<◌, ◌≡◌, ◌≢◌, refl, ap, fun_ext, ◌∙◌, arith, Bool,
  true, false, ◌&&◌, not, ◌==◌, ltb, if◌then◌else◌, List, [], ◌∷◌, ◌++◌, map, Option, some, ◌>>=◌,
  CString, min, length, length-append, take, ==-false,
}
use staut.Zpoline.Rewrite.{Code, Disassembler, disassemble_and_rewrite}
use staut.Zpoline.Maps.{
  contains, stack_text, vsyscall_text, blank, dash, word, strtok, digit, strtol_from, before_dash,
  behind_dash, has_exec, rewrite_mapping, rewrite_words, rewrite_line, rewrite_code,
}

-- A mapping: the hexadecimal digits of its two addresses, its protection, and what stands behind.
pub record Mapping : Type 0 where
  pub start : List ℕ
  pub stop : List ℕ
  pub read : Bool
  pub write : Bool
  pub exec : Bool
  pub shared : Bool
  pub rest : CString

abbrev pub hex : ℕ → ℕ
hex d = if ltb d 10 then 48 + d else 87 + d

abbrev pub value_from : ℕ → List ℕ → ℕ
value_from acc [] = acc
value_from acc (d ∷ ds) = value_from (acc * 16 + d) ds

abbrev pub value : List ℕ → ℕ
value ds = value_from 0 ds

abbrev pub AreDigits : List ℕ → Type 0
AreDigits [] = Unit
AreDigits (d ∷ ds) = (d < 16) × AreDigits ds

-- "start-stop rwxp rest"
abbrev pub print_range : Mapping → CString
print_range m = map hex m.start ++ (dash ∷ map hex m.stop)

abbrev pub print_prot : Mapping → CString
print_prot m =
    (if m.read then 114 else dash)
    ∷ (if m.write then 119 else dash)
    ∷ (if m.exec then 120 else dash)
    ∷ (if m.shared then 115 else 112)
    ∷ []

abbrev pub print_line : Mapping → CString
print_line m = print_range m ++ blank ∷ (print_prot m ++ blank ∷ m.rest)

pub record IsMapping (m : Mapping) : Type 0 where
  pub start_digits : AreDigits m.start
  pub stop_digits : AreDigits m.stop
  pub short : length m.start + length m.stop < 64
  pub ordered : value m.start ≤ value m.stop
  pub bounded : value m.stop < 2 ^ 63
  pub in_buffer : length (print_line m) < 4095

abbrev pub AreMappings : List Mapping → Type 0
AreMappings [] = Unit
AreMappings (m ∷ ms) = IsMapping m × AreMappings ms

-- What is to be rewritten: executable, not at address 0, and without the two words in its line.
abbrev pub is_target : Mapping → Bool
is_target m =
    (not (contains (print_line m) stack_text) && not (contains (print_line m) vsyscall_text))
    && (m.exec && not (value m.start == 0))

-- The targets, one after the other.
abbrev pub rewrite_targets : ℕ → Disassembler → List Mapping → Code → Option Code
rewrite_targets a disasm [] c = some c
rewrite_targets a disasm (m ∷ ms) c =
    (if is_target m
      then disassemble_and_rewrite a disasm (value m.start) (value m.stop - value m.start) c
      else some c)
    >>= λ d. rewrite_targets a disasm ms d

abbrev NoBlank : CString → Type 0
NoBlank [] = Unit
NoBlank (c ∷ s) = (c ≢ blank) × NoBlank s

word-append : (w s : CString) → NoBlank w → word (w ++ blank ∷ s) ≡ (w, s)
word-append [] s h = refl
word-append (c ∷ w) s h = rw (==-false c blank h.0, word-append w s h.1) refl

strtok-append : (w s : CString) → 0 < length w → NoBlank w → strtok (w ++ blank ∷ s) ≡ some (w, s)
strtok-append [] s l h = absurd (omega arith)
strtok-append (c ∷ w) s l h = rw (==-false c blank h.0, word-append w s h.1) refl

digit-hex : (d : ℕ) → d < 16 → digit (hex d) ≡ some d
digit-hex d h = ground arith

hex_ne : (d : ℕ) → d < 16 → (hex d ≢ blank) × (hex d ≢ dash)
hex_ne d h = (λ e. ground (arith, e), λ e. ground (arith, e))

strtol_from-hex :
    (acc : ℕ) (ds : List ℕ) → AreDigits ds → strtol_from acc (map hex ds) ≡ value_from acc ds
strtol_from-hex acc [] h = refl
strtol_from-hex acc (d ∷ ds) h =
    rw (digit-hex d h.0, strtol_from) (strtol_from-hex (acc * 16 + d) ds h.1)

before_dash-append :
    (ds : List ℕ) (s : CString) → AreDigits ds → before_dash (map hex ds ++ dash ∷ s) ≡ map hex ds
before_dash-append [] s h = refl
before_dash-append (d ∷ ds) s h =
    rw (==-false (hex d) dash (hex_ne d h.0).1, before_dash-append ds s h.1) refl

behind_dash-append :
    (ds : List ℕ) (s : CString) → AreDigits ds → behind_dash (map hex ds ++ dash ∷ s) ≡ s
behind_dash-append [] s h = refl
behind_dash-append (d ∷ ds) s h =
    rw (==-false (hex d) dash (hex_ne d h.0).1) (behind_dash-append ds s h.1)

NoBlank-append : (v w : CString) → NoBlank v → NoBlank w → NoBlank (v ++ w)
NoBlank-append [] w h k = k
NoBlank-append (c ∷ v) w h k = (h.0, NoBlank-append v w h.1 k)

NoBlank-hex : (ds : List ℕ) → AreDigits ds → NoBlank (map hex ds)
NoBlank-hex [] h = tt
NoBlank-hex (d ∷ ds) h = ((hex_ne d h.0).0, NoBlank-hex ds h.1)

length-map : (ds : List ℕ) → length (map hex ds) ≡ length ds
length-map [] = refl
length-map (d ∷ ds) = ap suc (length-map ds)

take-all : (n : ℕ) (xs : CString) → length xs ≤ n → take n xs ≡ xs
take-all zero [] h = refl
take-all zero (x ∷ xs) h = absurd (omega arith)
take-all (suc n) [] h = refl
take-all (suc n) (x ∷ xs) h = ap (◌∷◌ x) (take-all n xs (omega arith))

strtol-hex :
    (ds : List ℕ)
    → AreDigits ds
    → value ds < 2 ^ 63
    → min (strtol_from 0 (map hex ds)) (2 ^ 63 - 1) ≡ value ds
strtol-hex ds h small = omega (arith, strtol_from-hex 0 ds h, small)

branches :
    (exec low : Bool) (x : Option Code) (c : Code)
    → (if not exec then some c else if low then some c else x)
      ≡ (if exec && not low then x else some c)
branches true true x c = refl
branches true false x c = refl
branches false true x c = refl
branches false false x c = refl

rewrite_words-two :
    (a : ℕ) (disasm : Disassembler) (buf addr r prot r' : CString) (c : Code)
    → strtok buf ≡ some (addr, r)
    → strtok r ≡ some (prot, r')
    → rewrite_words a disasm buf c ≡ rewrite_mapping a disasm (take 64 addr) prot c
unfolding rewrite_words
rewrite_words-two a disasm buf addr r prot r' c e f = rw (e, f, rewrite_words) refl

nested :
    (b d : Bool) (x : Option Code) (c : Code)
    → (if b then (if d then x else some c) else some c) ≡ (if b && d then x else some c)
nested true d x c = refl
nested false d x c = refl

module _ (m : Mapping) (v : IsMapping m) where
  length-range : length (print_range m) ≡ length m.start + 1 + length m.stop
  length-range = omega (
    arith,
    length-append (map hex m.start) (dash ∷ map hex m.stop),
    length-map m.start,
    length-map m.stop,
  )

  NoBlank-range : NoBlank (print_range m)
  NoBlank-range =
      NoBlank-append (map hex m.start) (dash ∷ map hex m.stop) (NoBlank-hex m.start v.start_digits)
        (λ e. omega (arith, e), NoBlank-hex m.stop v.stop_digits)

  NoBlank-prot : NoBlank (print_prot m)
  NoBlank-prot = ground arith

  has_exec-prot : has_exec (print_prot m) ≡ m.exec
  has_exec-prot = ground arith

  rewrite_words-print_line :
      (a : ℕ) (disasm : Disassembler) (c : Code)
      → rewrite_words a disasm (print_line m) c ≡ (
          if m.exec && not (value m.start == 0)
          then disassemble_and_rewrite a disasm (value m.start) (value m.stop - value m.start) c
          else some c)
  unfolding rewrite_mapping
  rewrite_words-print_line a disasm c =
      rewrite_words-two a disasm (print_line m) (print_range m) (print_prot m ++ blank ∷ m.rest)
        (print_prot m) m.rest c
        (strtok-append (print_range m) (print_prot m ++ blank ∷ m.rest)
          (omega (arith, length-range)) NoBlank-range)
        (strtok-append (print_prot m) m.rest (omega arith) NoBlank-prot)
      ∙ rw
          (
            rewrite_mapping,
            take-all 64 (print_range m) (omega (arith, length-range, v.short)),
            has_exec-prot,
            before_dash-append m.start (map hex m.stop) v.start_digits,
            behind_dash-append m.start (map hex m.stop) v.start_digits,
            strtol-hex m.start v.start_digits (omega (arith, v.ordered, v.bounded)),
            strtol-hex m.stop v.stop_digits v.bounded,
            size,
          )
          (branches m.exec (value m.start == 0) _ c)
    where
      size : (value m.stop + 2 ^ 64 - value m.start) % 2 ^ 64 ≡ value m.stop - value m.start
      size = omega (arith, v.ordered, v.bounded)

  rewrite_line-print_line :
      (a : ℕ) (disasm : Disassembler) (c : Code)
      → rewrite_line a disasm (print_line m) c ≡ (
          if is_target m
          then disassemble_and_rewrite a disasm (value m.start) (value m.stop - value m.start) c
          else some c)
  unfolding rewrite_line
  rewrite_line-print_line a disasm c =
      ap
        (λ x.
          if not (contains (print_line m) stack_text) && not (contains (print_line m) vsyscall_text)
          then x
          else some c)
        (rewrite_words-print_line a disasm c)
      ∙ nested
          (not (contains (print_line m) stack_text) && not (contains (print_line m) vsyscall_text))
          (m.exec && not (value m.start == 0)) _ c

-- On the lines that the kernel prints, where each address has hexadecimal digits and fits an `int64_t`,
-- both together have fewer than 64 digits, a line fits the buffer, and no mapping ends before it starts: `rewrite_code` rewrites
-- exactly the executable mappings, each from its first to its last byte and in the order of the file,
-- but for one at address 0 and those whose line has the word "stack" or "vsyscall".
pub rewrite_code-print_line :
    (a : ℕ) (disasm : Disassembler) (ms : List Mapping) (c : Code)
    → AreMappings ms
    → rewrite_code a disasm (map print_line ms) c ≡ rewrite_targets a disasm ms c
unfolding rewrite_code
rewrite_code-print_line a disasm [] c h = refl
rewrite_code-print_line a disasm (m ∷ ms) c h = rw (rewrite_line-print_line m h.0 a disasm c) (
    ap {A = Code → Option Code}
      (λ f.
        (if is_target m
          then disassemble_and_rewrite a disasm (value m.start) (value m.stop - value m.start) c
          else some c)
        >>= f)
      (fun_ext (λ d. rewrite_code-print_line a disasm ms d h.1)))
