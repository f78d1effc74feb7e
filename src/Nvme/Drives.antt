-- ===== src/Nvme/Drives.antt =====
-- `nvme_init` of mylib/nvme.cc: the PCI addresses in DRIVE_IDS. The bytes in memory
-- behind the twelve of `pci_addr`, up to a 0, are a parameter, since no end is stored.
use mathlib.Core.List.{append-nil}
use staut.Prelude.{
  ℕ, zero, suc, ◌+◌, ◌≤◌, ◌<◌, ◌≡◌, refl, sym, ap, subst, ◌-◌, ◌∙◌, ◌≢◌, arith, Bool, true, Option,
  none, some, List, [], ◌∷◌, ◌++◌, ◌==◌, if◌then◌else◌, ◌>>=◌, CString, length, length-append, take,
  ==_iff, ==-false, ℕ_discrete, ltb, ltb-false, map,
}

-- '_'
abbrev pub bar : ℕ
bar = 95

-- `while (s[i] != '_' && s[i] != '\0')` and `while (s[i] == '_' && s[i] != '\0')`
abbrev pub skip_name : CString → CString
skip_name [] = []
skip_name (c ∷ s) = if c == bar then c ∷ s else skip_name s

abbrev pub skip_bars : CString → CString
skip_bars [] = []
skip_bars (c ∷ s) = if c == bar then skip_bars s else c ∷ s

-- The text in `pci_addr`: the twelve bytes that are copied and, if the end of `s` is not among them, what
-- stands behind them in memory.
unfoldable pub pci_addr_of : CString → CString → CString
pci_addr_of junk s = if ltb (length s) 12 then s else take 12 s ++ junk

-- The loop, from drive `j` on: the addresses that `__nvme_init` is called with. `is_uio` tells which
-- have a directory under the driver; `none` means `exit(1)`. Each round takes a byte at least.
unfoldable pub init_drives :
    CString → ℕ → (CString → Bool) → ℕ → ℕ → CString → Option (List CString)
init_drives junk zero is_uio nd j s = some []
init_drives junk (suc fuel) is_uio nd j [] = some []
init_drives junk (suc fuel) is_uio nd j (c ∷ s) =
    let pci_addr = pci_addr_of junk (c ∷ s) in
    let rest = init_drives junk fuel is_uio nd (j + 1) (skip_bars (skip_name (c ∷ s))) in
    if is_uio pci_addr
    then if j + 1 == nd then some (pci_addr ∷ []) else (rest >>= λ l. some (pci_addr ∷ l))
    else none

-- `nvme_init`
unfoldable pub nvme_init : CString → (CString → Bool) → ℕ → CString → Option (List CString)
nvme_init junk is_uio nd s = init_drives junk (length s + 1) is_uio nd 0 s

abbrev pub HasNoBar : CString → Type 0
HasNoBar [] = Unit
HasNoBar (c ∷ s) = (c ≢ bar) × HasNoBar s

-- An address as the kernel spells it, where what is looked up for it is a drive that is left to the driver.
abbrev pub IsAddress : CString → (CString → Bool) → CString → Type 0
IsAddress junk is_uio a = (length a ≡ 12) × HasNoBar a × (is_uio (a ++ junk) ≡ true)

abbrev pub AreAddresses : CString → (CString → Bool) → List CString → Type 0
AreAddresses junk is_uio [] = Unit
AreAddresses junk is_uio (a ∷ ids) = IsAddress junk is_uio a × AreAddresses junk is_uio ids

-- The addresses with a '_' between two.
abbrev pub join : List CString → CString
join [] = []
join (a ∷ []) = a
join (a ∷ b ∷ ids) = a ++ bar ∷ join (b ∷ ids)

take-nil : (n : ℕ) → take {A = CString} n [] ≡ []
take-nil zero = refl
take-nil (suc n) = refl

take-append : (a r : CString) → take (length a) (a ++ r) ≡ a
take-append [] [] = refl
take-append [] (x ∷ r) = refl
take-append (x ∷ a) r = ap (◌∷◌ x) (take-append a r)

skip_name-append : (a r : CString) → HasNoBar a → skip_name (a ++ r) ≡ skip_name r
skip_name-append [] r h = refl
skip_name-append (x ∷ a) r h = rw (==-false x bar h.0) (skip_name-append a r h.1)

skip_bars-join :
    (junk : CString) (is_uio : CString → Bool) (ids : List CString)
    → AreAddresses junk is_uio ids
    → skip_bars (join ids) ≡ join ids
skip_bars-join junk is_uio [] h = refl
skip_bars-join junk is_uio ([] ∷ ids) h = absurd (omega (arith, h.0.0))
skip_bars-join junk is_uio ((x ∷ a) ∷ []) h = rw (==-false x bar h.0.1.0) refl
skip_bars-join junk is_uio ((x ∷ a) ∷ b ∷ ids) h = rw (==-false x bar h.0.1.0) refl

-- What stands behind an address.
abbrev tail_of : List CString → CString
tail_of [] = []
tail_of (b ∷ ids) = bar ∷ join (b ∷ ids)

join-cons : (a : CString) (ids : List CString) → join (a ∷ ids) ≡ a ++ tail_of ids
join-cons a [] = sym (append-nil a)
join-cons a (b ∷ ids) = refl

skip_tail :
    (junk : CString) (is_uio : CString → Bool) (a : CString) (ids : List CString)
    → AreAddresses junk is_uio (a ∷ ids)
    → skip_bars (skip_name (a ++ tail_of ids)) ≡ join ids
skip_tail junk is_uio a [] h = rw (skip_name-append a [] h.0.1) refl
skip_tail junk is_uio a (b ∷ ids) h =
    rw (skip_name-append a (bar ∷ join (b ∷ ids)) h.0.1) (skip_bars-join junk is_uio (b ∷ ids) h.1)

pci_addr_of_address : (junk a r : CString) → length a ≡ 12 → pci_addr_of junk (a ++ r) ≡ a ++ junk
unfolding pci_addr_of
pci_addr_of_address junk a r h =
    rw
      (
        ltb-false (length (a ++ r)) 12 (omega (arith, length-append a r, h)),
        subst (λ n. take n (a ++ r) ≡ a) h (take-append a r),
      )
      refl

init_drives-step :
    (fuel : ℕ) (junk : CString) (is_uio : CString → Bool) (nd j : ℕ) (a r : CString)
    → IsAddress junk is_uio a
    → init_drives junk (suc fuel) is_uio nd j (a ++ r) ≡ (
        if j + 1 == nd
        then some ((a ++ junk) ∷ [])
        else (init_drives junk fuel is_uio nd (j + 1) (skip_bars (skip_name (a ++ r))) >>= λ l.
            some ((a ++ junk) ∷ l)))
unfolding init_drives
init_drives-step fuel junk is_uio nd j [] r h = absurd (omega (arith, h.0))
init_drives-step fuel junk is_uio nd j (x ∷ a) r h =
    rw (pci_addr_of_address junk (x ∷ a) r h.0, h.2) refl

init_drives-join :
    (fuel : ℕ) (junk : CString) (is_uio : CString → Bool) (nd j : ℕ) (ids : List CString)
    → length ids < fuel
    → j < nd
    → AreAddresses junk is_uio ids
    → init_drives junk fuel is_uio nd j (join ids) ≡ some (map (λ a. a ++ junk) (take (nd - j) ids))
unfolding init_drives
init_drives-join zero junk is_uio nd j ids l m h = absurd (omega arith)
init_drives-join (suc fuel) junk is_uio nd j [] l m h =
    ap (λ l. some (map (λ a. a ++ junk) l)) (sym (take-nil (nd - j)))
init_drives-join (suc fuel) junk is_uio nd j (a ∷ ids) l m h = rw (join-cons a ids) (
    init_drives-step fuel junk is_uio nd j a (tail_of ids) h.0 ∙ elim (ℕ_discrete (j + 1) nd) [
      | yes p ↦ rw ((==_iff (j + 1) nd).1 p) (
          ap (λ n. some (map (λ a. a ++ junk) (take n (a ∷ ids)))) {x = 1} {y = nd - j}
            (omega arith))
      | no p ↦
          rw
            (
              ==-false (j + 1) nd p,
              skip_tail junk is_uio a ids h,
              init_drives-join fuel junk is_uio nd (j + 1) ids (omega arith) (omega (arith, p)) h.1,
            )
            (ap (λ n. some (map (λ a. a ++ junk) (take n (a ∷ ids)))) {x = suc (nd - (j + 1))}
              {y = nd - j} (omega (arith, p)))
    ])

length-join :
    (junk : CString) (is_uio : CString → Bool) (ids : List CString)
    → AreAddresses junk is_uio ids
    → length ids ≤ length (join ids)
length-join junk is_uio [] h = omega arith
length-join junk is_uio (a ∷ []) h = omega (arith, h.0.0)
length-join junk is_uio (a ∷ b ∷ ids) h =
    omega
      (arith, h.0.0, length-append a (bar ∷ join (b ∷ ids)), length-join junk is_uio (b ∷ ids) h.1)

-- Let DRIVE_IDS hold addresses of twelve bytes with a '_' between two, and let each, with what stands
-- behind the twelve bytes of `pci_addr` in memory, be looked up as a drive that is left to the driver. Then
-- `nvme_init` sets up drives in the order of the list, as many as ND at most, each for that text.
pub nvme_init-join :
    (junk : CString) (is_uio : CString → Bool) (nd : ℕ) (ids : List CString)
    → 0 < nd
    → AreAddresses junk is_uio ids
    → nvme_init junk is_uio nd (join ids) ≡ some (map (λ a. a ++ junk) (take nd ids))
unfolding nvme_init
nvme_init-join junk is_uio nd ids m h =
    init_drives-join (length (join ids) + 1) junk is_uio nd 0 ids
      (omega (arith, length-join junk is_uio ids h)) m h
    ∙ ap (λ n. some (map (λ a. a ++ junk) (take n ids))) {x = nd - 0} {y = nd} (omega arith)
