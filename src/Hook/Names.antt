-- ===== src/Hook/Names.antt =====
-- `parse_hooked_filenames` and `is_hooked_filename` of mylib/hook.c.
use staut.Prelude.{
  ℕ, zero, suc, ◌+◌, ◌-◌, Bool, false, ◌&&◌, ◌||◌, ◌==◌, if◌then◌else◌, List, [], ◌∷◌, ◌++◌, Option,
  none, some, CString, length, take, strncmp_eq, ltb,
}

-- ':'
abbrev pub colon : ℕ
colon = 58

-- `s + n`
abbrev pub skip : ℕ → CString → CString
skip zero s = s
skip (suc n) [] = []
skip (suc n) (c ∷ s) = skip n s

-- The text of a buffer behind `strncpy(buf, src, n)`: with `n` bytes or more in `src` no 0 byte is
-- written, and the text goes on with `junk`, what stood in the buffer from index `n` on.
abbrev pub strncpy : CString → ℕ → CString → CString
strncpy src n junk = if ltb (length src) n then src else take n src ++ junk

module _ (junk : ℕ → CString) (s : CString) where
  -- The loop of `parse_hooked_filenames`, with `rest` from index `i` of `s` on; `k` names are parsed.
  -- `junk k` is what `malloc` left in the `k`-th buffer.
  unfoldable pub parse_scan : CString → ℕ → ℕ → ℕ → List CString
  parse_scan [] i start k = strncpy (skip start s) (i - start) (junk k) ∷ []
  parse_scan (c ∷ rest) i start k =
      let same = parse_scan rest (i + 1) start k in
      let following = parse_scan rest (i + 1) (i + 1) (k + 1) in
      if c == colon then strncpy (skip start s) i (junk k) ∷ following else same

  -- `parse_hooked_filenames`
  unfoldable pub parse_hooked_filenames : List CString
  unfolding parse_scan
  parse_hooked_filenames = parse_scan s 0 0 0

-- `hooked_filenames` and `hooked_rocksdb_dir`; no names at all is the null pointer.
pub record Hooked : Type 0 where
  pub filenames : List CString
  pub rocksdb_dir : Option CString

-- The loop of `is_hooked_filename`.
unfoldable pub any_prefix : List CString → CString → Bool
any_prefix [] filename = false
any_prefix (h ∷ hs) filename = strncmp_eq h filename (length h) || any_prefix hs filename

-- `sst_suffix`
abbrev pub sst_suffix : CString
sst_suffix = 46 ∷ 115 ∷ 115 ∷ 116 ∷ []

unfoldable pub in_rocksdb_dir : Option CString → CString → Bool
in_rocksdb_dir none filename = false
in_rocksdb_dir (some dir) filename =
    strncmp_eq dir filename (length dir)
    && strncmp_eq sst_suffix (skip (length dir + 7) filename) (length sst_suffix)

-- `is_hooked_filename`
unfoldable pub is_hooked_filename : Hooked → CString → Bool
unfolding any_prefix in_rocksdb_dir
is_hooked_filename h filename =
    any_prefix h.filenames filename || in_rocksdb_dir h.rocksdb_dir filename
