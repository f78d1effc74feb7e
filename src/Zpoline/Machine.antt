-- ===== src/Zpoline/Machine.antt =====
-- The x86-64 instructions that the trampoline of mylib/zpoline.c consists of, read from memory byte by
-- byte.
use staut.Prelude.{
  ℕ, zero, suc, ◌+◌, ◌-◌, ◌*◌, ◌^◌, Option, none, some, List, ◌∷◌, ◌==◌, leb, ltb, if◌then◌else◌,
  ◌>>=◌,
}

-- `rip`, `rax` and the stack, its top first.
pub record Cpu : Type 0 where
  pub rip : ℕ
  pub rax : ℕ
  pub stack : List ℕ

-- A byte as an 8-bit displacement or immediate, sign-extended to 64 bits.
abbrev pub sign_extend : ℕ → ℕ
sign_extend b = if ltb b 128 then b else b + 2 ^ 64 - 2 ^ 8

-- `rip` behind a short jump.
abbrev pub jump_by : ℕ → ℕ → ℕ
jump_by rip b = if ltb b 128 then rip + b else rip + b - 256

-- The eight bytes at `a`, lowest first.
unfoldable pub word_at : (ℕ → ℕ) → ℕ → ℕ
word_at mem a =
    mem a
    + 256
      * (mem (a + 1)
          + 256
            * (mem (a + 2)
                + 256
                  * (mem (a + 3)
                      + 256
                        * (mem (a + 4)
                            + 256 * (mem (a + 5) + 256 * (mem (a + 6) + 256 * mem (a + 7)))))))

-- One instruction: nop, jmp rel8, push imm8, push %rax, movabs imm64,%rax and jmp *%rax. Any other is
-- `none`.
unfoldable pub step : (ℕ → ℕ) → Cpu → Option Cpu
step mem c =
    let b = mem c.rip in
    let b' = mem (c.rip + 1) in
    if b == 0x90
    then some (record c { rip = c.rip + 1 })
    else if b == 0xeb
    then some (record c { rip = jump_by (c.rip + 2) b' })
    else if b == 0x6a
    then some (record c { rip = c.rip + 2; stack = sign_extend b' ∷ c.stack })
    else if b == 0x50
    then some (record c { rip = c.rip + 1; stack = c.rax ∷ c.stack })
    else if b == 0x48
    then (if b' == 0xb8
        then some (record c { rip = c.rip + 10; rax = word_at mem (c.rip + 2) })
        else none)
    else if b == 0xff
    then (if b' == 0xe0 then some (record c { rip = c.rax }) else none)
    else none

-- Instructions until `rip` leaves the page at address 0.
unfoldable pub run : ℕ → (ℕ → ℕ) → Cpu → Option Cpu
run zero mem c = none
run (suc fuel) mem c =
    let rest = step mem c >>= run fuel mem in if leb 0x1000 c.rip then some c else rest
