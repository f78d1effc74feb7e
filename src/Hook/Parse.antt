-- ===== src/Hook/Parse.antt =====
-- Which names `parse_hooked_filenames` of mylib/hook.c makes of a list of names joined by ':', and which
-- files `is_hooked_filename` then accepts.
use staut.Prelude.{
  ℕ, zero, suc, ◌+◌, ◌≡◌, ◌≢◌, refl, ap, ap₂, ◌∙◌, sym, arith, ==-false, ltb-false, List, [], ◌∷◌,
  ◌++◌, CString, length, take, length-append,
}
use staut.Hook.Names.{colon, skip, strncpy, parse_scan, parse_hooked_filenames}

abbrev pub IsPlain : CString → Type 0
IsPlain [] = Unit
IsPlain (c ∷ s) = (c ≢ colon) × IsPlain s

-- Of each name of a list that begins with `n`.
abbrev pub ArePlain : CString → List CString → Type 0
ArePlain n [] = IsPlain n
ArePlain n (m ∷ ns) = IsPlain n × ArePlain m ns

-- The names with a colon between.
abbrev pub join : CString → List CString → CString
join n [] = n
join n (m ∷ ns) = n ++ colon ∷ join m ns

-- What the buffers hold, from the `k`-th on, when the name `n` begins at index `start`: the last name is
-- copied as it is, any other as the first `start` + `length n` bytes from its beginning on.
abbrev pub copied : (ℕ → CString) → ℕ → ℕ → CString → List CString → List CString
copied junk start k n [] = (n ++ junk k) ∷ []
copied junk start k n (m ∷ ns) =
    strncpy (join n (m ∷ ns)) (start + length n) (junk k)
    ∷ copied junk (start + length n + 1) (k + 1) m ns

skip-[] : (a : ℕ) → skip a [] ≡ []
skip-[] zero = refl
skip-[] (suc a) = refl

skip-add : (a b : ℕ) (s : CString) → skip (a + b) s ≡ skip b (skip a s)
skip-add zero b s = ap (λ j. skip j s) (omega arith)
skip-add (suc a) b [] = skip-[] (suc a + b) ∙ sym (skip-[] b)
skip-add (suc a) b (c ∷ s) =
    ap (λ j. skip j (c ∷ s)) {x = suc a + b} {y = suc (a + b)} (omega arith) ∙ skip-add a b s

skip-append : (n r : CString) → skip (length n) (n ++ r) ≡ r
skip-append [] r = refl
skip-append (c ∷ n) r = skip-append n r

take-append : (n r : CString) → take (length n) (n ++ r) ≡ n
take-append [] r = refl
take-append (c ∷ n) r = ap (λ t. c ∷ t) (take-append n r)

append-[] : (n : CString) → n ++ [] ≡ n
append-[] [] = refl
append-[] (c ∷ n) = ap (λ t. c ∷ t) (append-[] n)

-- Copying as many bytes as the text begins with.
strncpy-append : (n r junk : CString) → strncpy (n ++ r) (length n) junk ≡ n ++ junk
strncpy-append n r junk =
    rw (ltb-false (length (n ++ r)) (length n) (omega (arith, length-append n r)), take-append n r)
      refl

strncpy-length : (n junk : CString) → strncpy n (length n) junk ≡ n ++ junk
strncpy-length n junk =
    ap (λ t. strncpy t (length n) junk) (sym (append-[] n)) ∙ strncpy-append n [] junk

module _ (junk : ℕ → CString) (s : CString) where
  scan_name :
      (n r : CString) (i start k : ℕ)
      → IsPlain n
      → parse_scan junk s (n ++ r) i start k ≡ parse_scan junk s r (i + length n) start k
  unfolding parse_scan
  scan_name [] r i start k p = ap (λ j. parse_scan junk s r j start k) (omega arith)
  scan_name (c ∷ n) r i start k p =
      rw (==-false c colon p.0)
        (scan_name n r (i + 1) start k p.1 ∙ ap (λ j. parse_scan junk s r j start k) (omega arith))

  scan_names :
      (n : CString) (ns : List CString) (start k : ℕ)
      → ArePlain n ns
      → skip start s ≡ join n ns
      → parse_scan junk s (join n ns) start start k ≡ copied junk start k n ns
  unfolding parse_scan
  scan_names n [] start k p e =
      ap (λ t. parse_scan junk s t start start k) (sym (append-[] n))
      ∙ scan_name n [] start start k p
      ∙ ap₂ (λ t j. strncpy t j (junk k) ∷ []) e (omega arith)
      ∙ ap (λ t. t ∷ []) (strncpy-length n (junk k))
  scan_names n (m ∷ ns) start k p e =
      scan_name n (colon ∷ join m ns) start start k p.0
      ∙ ap₂ (λ t u. strncpy t (start + length n) (junk k) ∷ u) e
          (scan_names m ns (start + length n + 1) (k + 1) p.1 behind)
    where
      behind : skip (start + length n + 1) s ≡ join m ns
      behind =
          skip-add (start + length n) 1 s
          ∙ ap (skip 1) (
              skip-add start (length n) s
              ∙ ap (skip (length n)) e
              ∙ skip-append n (colon ∷ join m ns))

-- The names that `parse_hooked_filenames` makes of a list of colon-free names joined by ':' are those
-- of the list for the first and the last. Any other one runs on into the names behind it, by as many
-- bytes as stand before it in the text. `junk` is what the buffers held before.
pub parse_hooked_filenames-join :
    (junk : ℕ → CString) (n : CString) (ns : List CString)
    → ArePlain n ns
    → parse_hooked_filenames junk (join n ns) ≡ copied junk 0 0 n ns
unfolding parse_hooked_filenames
parse_hooked_filenames-join junk n ns p = scan_names junk (join n ns) n ns 0 0 p refl

-- With zeroed buffers one name, or two, come out as they went in.
pub parse_hooked_filenames-pair :
    (n m : CString)
    → IsPlain n
    → IsPlain m
    → (parse_hooked_filenames (λ _. []) n ≡ n ∷ [])
      × (parse_hooked_filenames (λ _. []) (n ++ colon ∷ m) ≡ n ∷ m ∷ [])
parse_hooked_filenames-pair n m p q = (
  parse_hooked_filenames-join (λ _. []) n [] p ∙ ap (λ t. t ∷ []) (append-[] n),
  parse_hooked_filenames-join (λ _. []) n (m ∷ []) (p, q)
      ∙ ap₂ (λ t u. t ∷ u ∷ [])
          (ap (λ j. strncpy (n ++ colon ∷ m) j []) {x = 0 + length n} {y = length n} (omega arith)
            ∙ strncpy-append n (colon ∷ m) []
            ∙ append-[] n)
          (append-[] m),
)
