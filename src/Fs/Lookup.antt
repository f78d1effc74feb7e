-- ===== src/Fs/Lookup.antt =====
-- Which entry `myfs_open` of mylib/myfs.c chooses.
use staut.Prelude.{
  length, lt→ltb, ltb-false, subst, dec_lt, ℕ, zero, suc, ◌+◌, ◌≤◌, ◌<◌, ◌≡◌, refl, arith, ◌++◌,
  true, false, Option, none, some, Bool-cases, inl, inr, CString, strncmp_eq-append, ◌⊎◌,
}
use staut.Fs.State.{Fs, max_files}
use staut.Fs.Ops.{name_matches}
use staut.Fs.Open.{
  name_size, Scan, found, missing, is_empty, note_empty, open_scan, open_at, set_opened, create,
  open_file,
}

-- No entry below `n` matches.
abbrev pub NoMatch : CString → Fs → ℕ → Type 0
NoMatch filename s n = (k : ℕ) → k < n → name_matches filename s k ≡ false

-- `e` is the first entry below `n` that has no name, if there is one.
abbrev pub FirstEmpty : Option ℕ → Fs → ℕ → Type 0
FirstEmpty none s n = (k : ℕ) → k < n → is_empty (s.file k).name ≡ false
FirstEmpty (some e) s n =
    (e < n)
    × (is_empty (s.file e).name ≡ true)
    × ((k : ℕ) → k < e → is_empty (s.file k).name ≡ false)

-- What the scan of entries below `n` may answer.
abbrev pub ScanOf : CString → Fs → ℕ → Scan → Type 0
ScanOf filename s n (found i) = (i < n) × (name_matches filename s i ≡ true) × NoMatch filename s i
ScanOf filename s n (missing e) = NoMatch filename s n × FirstEmpty e s n

NoMatch-suc :
    (filename : CString) (s : Fs) (i : ℕ)
    → NoMatch filename s i
    → name_matches filename s i ≡ false
    → NoMatch filename s (i + 1)
NoMatch-suc filename s i before here k h = ground (arith, before k)

note_empty-FirstEmpty :
    (e : Option ℕ) (s : Fs) (i : ℕ)
    → FirstEmpty e s i
    → FirstEmpty (note_empty e (is_empty (s.file i).name) i) s (i + 1)
unfolding note_empty
note_empty-FirstEmpty (some e) s i h = (omega arith, h.1, h.2)
note_empty-FirstEmpty none s i h = elim (Bool-cases (is_empty (s.file i).name)) [
  | inl e ↦ rw e (omega arith, e, h)
  | inr e ↦ rw e (λ k p. ground (arith, h k))
]

open_scan-ScanOf :
    (n i m : ℕ) (s : Fs) (filename : CString) (e : Option ℕ)
    → i + n ≡ m
    → NoMatch filename s i
    → FirstEmpty e s i
    → ScanOf filename s m (open_scan n i s filename e)
unfolding open_scan
open_scan-ScanOf zero i m s filename e q none_yet first =
    subst (λ k. ScanOf filename s k (missing e)) (omega arith) (none_yet, first)
open_scan-ScanOf (suc n) i m s filename e q none_yet first =
    elim (Bool-cases (name_matches filename s i)) [
      | inl y ↦ rw y (omega arith, y, none_yet)
      | inr y ↦ rw y (
          open_scan-ScanOf n (i + 1) m s filename _ (omega arith)
            (NoMatch-suc filename s i none_yet y) (note_empty-FirstEmpty e s i first))
    ]

scan_all :
    (s : Fs) (filename : CString)
    → ScanOf filename s max_files (open_scan max_files 0 s filename none)
scan_all s filename =
    open_scan-ScanOf max_files 0 max_files s filename none (omega arith) (λ k h. elim h [ ])
      (λ k h. elim h [ ])

-- What `myfs_open` answers: the first matching entry, opened; or, if none matches, the first entry
-- with no name, named and opened; or, if all are named or the name is too long for a new entry, nothing
-- defined.
abbrev pub Opens : CString → Fs → Option (ℕ × Fs) → Type 0
Opens filename s r =
    ((i : ℕ) × (i < max_files)
      × (name_matches filename s i ≡ true)
      × NoMatch filename s i
      × (r ≡ some (i, set_opened s i)))
    ⊎ ((e : ℕ) × NoMatch filename s max_files
        × FirstEmpty (some e) s max_files
        × (length filename < name_size)
        × (r ≡ some (e, set_opened (create s e filename) e)))
    ⊎ (NoMatch filename s max_files
        × (FirstEmpty none s max_files ⊎ (name_size ≤ length filename))
        × (r ≡ none))

open_at-Opens :
    (s : Fs) (filename : CString) (r : Scan)
    → ScanOf filename s max_files r
    → Opens filename s (open_at s filename r)
unfolding open_at
open_at-Opens s filename (found i) h = inl (i, h.0, h.1, h.2, refl)
open_at-Opens s filename (missing (some e)) h = elim (dec_lt (length filename) name_size) [
  | yes p ↦ rw (lt→ltb (length filename) name_size p) (inr (inl (e, h.0, h.1, p, refl)))
  | no p ↦
      rw (ltb-false (length filename) name_size (omega arith))
        (inr (inr (h.0, inr (omega arith), refl)))
]
open_at-Opens s filename (missing none) h = inr (inr (h.0, inl h.1, refl))

-- `myfs_open` opens the first entry whose stored name begins with the given name. If there is none it
-- names and opens the first unnamed entry; the table must have one, and a name must have less than 1024
-- bytes to be stored.
pub open_file-Opens : (s : Fs) (filename : CString) → Opens filename s (open_file s filename)
unfolding open_file
open_file-Opens s filename = open_at-Opens s filename _ (scan_all s filename)

-- If some stored name extends the given name, `myfs_open` opens an entry that is in the table, at or
-- before that one, and creates none.
open_file-extension :
    (s : Fs) (filename ext : CString) (i : ℕ)
    → i < max_files
    → (s.file i).name ≡ filename ++ ext
    → (j : ℕ) × (j ≤ i) × (open_file s filename ≡ some (j, set_opened s j))
open_file-extension s filename ext i h e = elim (open_file-Opens s filename) [
  | inl (j, _, _, before, r) ↦ (j, first_le j before, r)
  | inr (inl (_, before, _, _, _)) ↦ absurd (cc (before i h, matches))
  | inr (inr (before, _, _)) ↦ absurd (cc (before i h, matches))
]
  where
    matches : name_matches filename s i ≡ true
    matches = rw e (strncmp_eq-append filename ext)

    first_le : (j : ℕ) → NoMatch filename s j → j ≤ i
    first_le j before = elim (dec_lt i j) [
      | yes p ↦ absurd (cc (before i p, matches))
      | no p ↦ omega arith
    ]
