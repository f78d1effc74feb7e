-- ===== src/Zpoline/Entry.antt =====
-- The first instructions of `asm_syscall_hook` in mylib/zpoline.c, which undo what the trampoline pushed.
use staut.Prelude.{
  ℕ, ◌*◌, ◌%◌, ◌^◌, ◌≤◌, ◌<◌, ◌≡◌, arith, Option, none, some, List, [], ◌∷◌, ltb, if◌then◌else◌,
  ◌>>=◌, ◌≢◌, ◌⊎◌, inl, inr, lt→ltb, ℕ_discrete, ltb-false,
}
use staut.Zpoline.Machine.{run}
use staut.Zpoline.Trampoline.{trampoline, run-sled, pushes-false, pushes-true}

-- The registers that these instructions touch, and the stack.
pub record Regs : Type 0 where
  pub rax : ℕ
  pub rdi : ℕ
  pub stack : List ℕ

abbrev pop_rax : Regs → Option Regs
pop_rax r = elim r.stack [ [] ↦ none | x ∷ st ↦ some (record r { rax = x; stack = st }) ]

abbrev pop_rdi : Regs → Option Regs
pop_rdi r = elim r.stack [ [] ↦ none | x ∷ st ↦ some (record r { rdi = x; stack = st }) ]

-- addq $8,%rsp
abbrev discard : Regs → Option Regs
discard r = elim r.stack [ [] ↦ none | x ∷ st ↦ some (record r { stack = st }) ]

-- The factor of `imul`: three times it is 1 modulo 2 ^ 64.
abbrev pub third : ℕ
third = 0xaaaa_aaaa_aaaa_aaab

-- From `popq %rax` to `skip_pop`.
unfoldable pub asm_prologue : Regs → Option Regs
asm_prologue r = do
  a ← pop_rax r
  let saved = record a { stack = a.rax ∷ a.rdi ∷ a.stack }
  let product = record saved { rdi = third; rax = saved.rax * third % 2 ^ 64 }
  let below = ltb product.rax product.rdi
  b ← pop_rax product
  c ← pop_rdi b
  if below then some c else discard c

-- `callq *%rax` with `n` in %rax and `ret` behind the call: the trampoline, then the prologue.
unfoldable pub enter_hook : ℕ → ℕ → ℕ → ℕ → List ℕ → Option Regs
unfolding asm_prologue
enter_hook hook n rdi ret stack =
    run 516 (trampoline hook) (record { rip = n; rax = n; stack = ret ∷ stack }) >>= λ c.
    asm_prologue (record { rax = c.rax; rdi = rdi; stack = c.stack })

-- The test tells the numbers n * 3 + 1 from the others.
third-below : (n : ℕ) → n < 512 → n % 3 ≢ 1 → n * third % 2 ^ 64 < third
third-below n h ne = omega arith

third-above : (n : ℕ) → n < 512 → n % 3 ≡ 1 → third ≤ n * third % 2 ^ 64
third-above n h e = omega arith

-- A system call number below 512 that is less than 405 or is not of the form n * 3 + 1 reaches
-- `asm_syscall_hook`, and behind its prologue the number is in %rax, %rdi is as it was, and the return
-- address is on top of the stack.
pub enter_hook-returns :
    (hook n rdi ret : ℕ) (stack : List ℕ)
    → hook < 2 ^ 64
    → 0x1000 ≤ hook
    → n < 512
    → (n < 405) ⊎ (n % 3 ≢ 1)
    → enter_hook hook n rdi ret stack ≡ some (record { rax = n; rdi = rdi; stack = ret ∷ stack })
unfolding enter_hook
enter_hook-returns hook n rdi ret stack h k l ok = elim (ℕ_discrete (n % 3) 1) [
  | yes e ↦ rw (
    run-sled 516 hook n n (ret ∷ stack) h k (omega arith) (omega arith),
    pushes-true n (omega arith) e,
    ltb-false _ third (third-above n l e),
  )
  | no ne ↦ rw (
    run-sled 516 hook n n (ret ∷ stack) h k (omega arith) (omega arith),
    pushes-false n (inr ne),
    lt→ltb _ third (third-below n l ne),
  )
]

-- A number n * 3 + 1 from 405 on reaches `asm_syscall_hook` too, but its prologue discards the return
-- address: what lies below it is on top of the stack.
enter_hook-drops :
    (hook n rdi ret : ℕ) (stack : List ℕ)
    → hook < 2 ^ 64
    → 0x1000 ≤ hook
    → n < 512
    → 405 ≤ n
    → n % 3 ≡ 1
    → enter_hook hook n rdi ret stack ≡ some (record { rax = n; rdi = rdi; stack = stack })
unfolding enter_hook
enter_hook-drops hook n rdi ret stack h k l late e = rw (
  run-sled 516 hook n n (ret ∷ stack) h k (omega arith) (omega arith),
  pushes-false n (inl late),
  ltb-false _ third (third-above n l e),
)
