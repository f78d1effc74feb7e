-- ===== src/Zpoline/Trampoline.antt =====
-- `setup_trampoline` of mylib/zpoline.c, and where an entry at a system call number leads.
use staut.Prelude.{
  ℕ, zero, suc, ◌+◌, ◌-◌, ◌/◌, ◌%◌, ◌^◌, ◌≤◌, ◌<◌, ◌≡◌, refl, arith, Option, some, List, ◌∷◌, ◌==◌,
  leb, ltb, if◌then◌else◌, ℕ_discrete, Bool, true, false, ◌&&◌, leb-false, le→leb, ◌≢◌, ◌∙◌, ◌⊎◌,
  inl, inr, ==_iff, ==-false, dec_le,
}
use staut.Zpoline.Machine.{Cpu, step, run, word_at}

-- NR_syscalls
abbrev pub nr_syscalls : ℕ
nr_syscalls = 512

-- The byte of the sled at `i`.
unfoldable pub sled_byte : ℕ → ℕ
sled_byte i =
    if ltb (nr_syscalls - 0x6a - 2) i
    then 0x90
    else if i % 3 == 0
    then 0xeb
    else if i % 3 == 1
    then 0x6a
    else 0x90

-- The byte at `i` behind the sled: push %rax; movabs hook,%rax; jmp *%rax.
unfoldable pub jump_byte : ℕ → ℕ → ℕ
jump_byte hook i =
    if i == 0x0
    then 0x50
    else if i == 0x1
    then 0x48
    else if i == 0x2
    then 0xb8
    else if i == 0x3
    then hook % 256
    else if i == 0x4
    then hook / 2 ^ 8 % 256
    else if i == 0x5
    then hook / 2 ^ 16 % 256
    else if i == 0x6
    then hook / 2 ^ 24 % 256
    else if i == 0x7
    then hook / 2 ^ 32 % 256
    else if i == 0x8
    then hook / 2 ^ 40 % 256
    else if i == 0x9
    then hook / 2 ^ 48 % 256
    else if i == 0xa
    then hook / 2 ^ 56 % 256
    else if i == 0xb
    then 0xff
    else if i == 0xc
    then 0xe0
    else 0

-- The page that `setup_trampoline` fills; `hook` is the address of `asm_syscall_hook`.
unfoldable pub trampoline : ℕ → ℕ → ℕ
unfolding sled_byte jump_byte
trampoline hook i = if ltb i nr_syscalls then sled_byte i else jump_byte hook (i - nr_syscalls)

-- The entries at which the sled pushes 0x90 before it slides down.
unfoldable pub pushes : ℕ → Bool
pushes n = leb n (nr_syscalls - 0x6a - 2) && n % 3 == 1

abbrev pub pushed : ℕ
pushed = 0xffff_ffff_ffff_ff90

-- The `movabs` loads the address that was stored.
word_at-trampoline : (hook : ℕ) → hook < 2 ^ 64 → word_at (trampoline hook) 515 ≡ hook
unfolding word_at trampoline
word_at-trampoline hook h = omega arith

-- Behind the sled, with at least four steps.
run-jump :
    (f hook : ℕ) (rax : ℕ) (stack : List ℕ)
    → hook < 2 ^ 64
    → 0x1000 ≤ hook
    → run
        (suc (suc (suc (suc f))))
        (trampoline hook)
        (record { rip = 512; rax = rax; stack = stack })
      ≡ some (record { rip = hook; rax = hook; stack = rax ∷ stack })
unfolding run step trampoline
run-jump f hook rax stack h k = rw (word_at-trampoline hook h, le→leb 0x1000 hook k)

run-jump_of_le :
    (fuel hook n rax : ℕ) (stack : List ℕ)
    → hook < 2 ^ 64
    → 0x1000 ≤ hook
    → n ≡ 512
    → 4 ≤ fuel
    → run fuel (trampoline hook) (record { rip = n; rax = rax; stack = stack })
      ≡ some (record { rip = hook; rax = hook; stack = rax ∷ stack })
run-jump_of_le zero hook n rax stack h k e l = absurd (omega arith)
run-jump_of_le (suc zero) hook n rax stack h k e l = absurd (omega arith)
run-jump_of_le (suc (suc zero)) hook n rax stack h k e l = absurd (omega arith)
run-jump_of_le (suc (suc (suc zero))) hook n rax stack h k e l = absurd (omega arith)
run-jump_of_le (suc (suc (suc (suc f)))) hook n rax stack h k e l =
    rw e (run-jump f hook rax stack h k)

-- One instruction of the sled.
abbrev slide : ℕ → ℕ → List ℕ → Cpu
slide n rax stack =
    if leb 405 n
    then record { rip = n + 1; rax = rax; stack = stack }
    else if n % 3 == 0
    then record { rip = n + 108; rax = rax; stack = stack }
    else if n % 3 == 1
    then record { rip = n + 2; rax = rax; stack = pushed ∷ stack }
    else record { rip = n + 1; rax = rax; stack = stack }

slide_cases {κ} :
    (P : Cpu → Type κ) (n rax : ℕ) (stack : List ℕ)
    → ((405 ≤ n) ⊎ (n % 3 ≡ 2) → P (record { rip = n + 1; rax = rax; stack = stack }))
    → (n < 405 → n % 3 ≡ 0 → P (record { rip = n + 108; rax = rax; stack = stack }))
    → (n < 405 → n % 3 ≡ 1 → P (record { rip = n + 2; rax = rax; stack = pushed ∷ stack }))
    → P (slide n rax stack)
slide_cases P n rax stack walk jump push = elim (dec_le 405 n) [
  | yes p ↦ rw (le→leb 405 n p) (walk (inl p))
  | no p ↦ rw (leb-false 405 n (omega arith)) (elim (ℕ_discrete (n % 3) 0) [
    | yes q ↦ rw ((==_iff (n % 3) 0).1 q) (jump (omega arith) q)
    | no q ↦ rw (==-false (n % 3) 0 q) (elim (ℕ_discrete (n % 3) 1) [
      | yes r ↦ rw ((==_iff (n % 3) 1).1 r) (push (omega arith) r)
      | no r ↦ rw (==-false (n % 3) 1 r) (walk (inr (omega arith)))
    ])
  ])
]

-- Where the sled slides on, the entry pushes as the next one does; jumps and pushes lead to an entry
-- that pushes nothing.
pub pushes-false : (n : ℕ) → (405 ≤ n) ⊎ (n % 3 ≢ 1) → pushes n ≡ false
unfolding pushes
pushes-false n h = ground arith

pub pushes-true : (n : ℕ) → n < 405 → n % 3 ≡ 1 → pushes n ≡ true
unfolding pushes
pushes-true n h k = ground arith

step-sled :
    (hook n rax : ℕ) (stack : List ℕ)
    → n < 512
    → step (trampoline hook) (record { rip = n; rax = rax; stack = stack })
      ≡ some (slide n rax stack)
unfolding step trampoline
step-sled hook n rax stack h = ground arith

-- From any entry of the sled the hook is reached, with %rax pushed and the extra word where the entry
-- pushes one.
pub run-sled :
    (fuel hook n rax : ℕ) (stack : List ℕ)
    → hook < 2 ^ 64
    → 0x1000 ≤ hook
    → n ≤ 512
    → 516 ≤ n + fuel
    → run fuel (trampoline hook) (record { rip = n; rax = rax; stack = stack })
      ≡ some (record {
        rip = hook;
        rax = hook;
        stack = rax ∷ (if pushes n then pushed ∷ stack else stack);
      })
unfolding run pushes
run-sled zero hook n rax stack h k m l = absurd (omega arith)
run-sled (suc fuel) hook n rax stack h k m l = elim (ℕ_discrete n 512) [
  | yes e ↦ rw e (run-jump_of_le (suc fuel) hook 512 rax stack h k refl (omega arith))
  | no ne ↦
      rw (leb-false 0x1000 n (omega arith), step-sled hook n rax stack (omega arith))
        (slide_cases (λ c. run fuel (trampoline hook) c ≡ some target) n rax stack
          (λ q.
            run-sled fuel hook (n + 1) rax stack h k (omega arith) (omega arith)
            ∙ same_stack (pushes-false (n + 1) (omega arith)) (pushes-false n (omega arith)))
          (λ p q.
            run-sled fuel hook (n + 108) rax stack h k (omega arith) (omega arith)
            ∙ same_stack (pushes-false (n + 108) (omega arith)) (pushes-false n (omega arith)))
          (λ p q.
            run-sled fuel hook (n + 2) rax (pushed ∷ stack) h k (omega arith) (omega arith)
            ∙ pushed_stack (pushes-false (n + 2) (omega arith)) (pushes-true n p q)))
]
  where
    target : Cpu
    target = record {
      rip = hook;
      rax = hook;
      stack = rax ∷ (if pushes n then pushed ∷ stack else stack);
    }

    arrive : Bool → List ℕ → Option Cpu
    arrive b st =
        some (record { rip = hook; rax = hook; stack = rax ∷ (if b then pushed ∷ st else st) })

    same_stack : {b b' : Bool} → b ≡ false → b' ≡ false → arrive b stack ≡ arrive b' stack
    same_stack e e' = rw (e, e')

    pushed_stack :
        {b b' : Bool} → b ≡ false → b' ≡ true → arrive b (pushed ∷ stack) ≡ arrive b' stack
    pushed_stack e e' = rw (e, e')
