-- ===== src/Transfer/Appends.antt =====
-- A write of mylib/hook.c that makes the file longer.
use staut.Prelude.{
  ℕ, ◌+◌, ◌-◌, ◌/◌, ◌%◌, ◌≤◌, ◌<◌, ◌≡◌, ◌≢◌, refl, ap, sym, arith, true, some, List, ◌∙◌, subst,
  ==_iff, lt→ltb, ◌^◌,
}
use staut.Fs.State.{
  Fs, File, FileState, block_size, at, max_files, max_blocks_per_file, only_opened,
}
use staut.Fs.Ops.{set_state, increment_ref, decrement_ref}
use staut.Fs.Invariant.{IsValid, set_state-IsValid}
use staut.Fs.References.{decrement_ref-counted}
use staut.Fs.Steps.{decrement_ref-IsValid}
use staut.Transfer.Request.{Batch, write_blksz, issued, awaited_in}
use staut.Transfer.Impl.{write_impl}
use staut.Transfer.Shape.{Fits-first, write_blksz-UnitSize, Covers, requests_of, All, Sound}
use staut.Transfer.Read.{increment_ref-opened}
use staut.Transfer.Grow.{Grown, IsReady}
use staut.Transfer.Extend.{extends_all}

set_state-IsReady :
    (fd last offset : ℕ) (s : Fs) (i : ℕ) (x : FileState)
    → IsReady fd last offset s
    → IsReady fd last offset (set_state s i x)
set_state-IsReady fd last offset s i x r = record {
  valid = set_state-IsValid s i x r.valid;
  named = r.named;
  reach = r.reach;
  room = r.room;
}

increment_ref-IsReady :
    (fd last offset : ℕ) (s : Fs)
    → only_opened (s.states fd).flags ≡ true
    → IsReady fd last offset s
    → IsReady fd last offset (increment_ref s fd).1
unfolding increment_ref
increment_ref-IsReady fd last offset s o r = rw o (set_state-IsReady fd last offset s fd _ r)

-- What an answer of a write that may extend the file is.
abbrev pub Extended : Fs → (fd pos len : ℕ) → List Batch → Fs → Type 0
Extended s fd pos len bs t =
    IsValid t
    × All (Sound (t.file fd).block pos len) (requests_of bs)
    × Covers 0 (requests_of bs) len
    × (awaited_in bs + 1 ≡ issued bs)
    × ((k b : ℕ) → (s.file fd).block k ≡ at b → (t.file fd).block k ≡ at b)
    × ((i : ℕ) → i ≢ fd → t.file i ≡ s.file i)
    × ((t.states fd).ref_count ≡ (s.states fd).ref_count)
    × ((t.states fd).flags ≡ (s.states fd).flags)
    × ((pos + len - 1) / block_size + 1 ≤ (t.file fd).n_block)

increment_ref-flags :
    (s : Fs) (fd : ℕ) → ((increment_ref s fd).1.states fd).flags ≡ (s.states fd).flags
unfolding increment_ref
increment_ref-flags s fd = ground arith

-- The reference is dropped behind the loop.
decrement_ref-Extended :
    (s u : Fs) (fd pos len : ℕ) (bs : List Batch)
    → fd < max_files
    → only_opened (s.states fd).flags ≡ true
    → (s.states fd).ref_count + 1 < 2 ^ 16
    → Grown fd (increment_ref s fd).1 u
    → IsValid u
    → All (Sound (u.file fd).block pos len) (requests_of bs)
    → Covers 0 (requests_of bs) len
    → awaited_in bs + 1 ≡ issued bs
    → (pos + len - 1) / block_size + 1 ≤ (u.file fd).n_block
    → Extended s fd pos len bs (decrement_ref u fd)
decrement_ref-Extended s u fd pos len bs fd_in o small grown valid sound covers open_end beyond =
    let (e, c) = increment_ref-opened s fd o small in
    let count : (u.states fd).ref_count ≡ (s.states fd).ref_count + 1 =
      ap (λ (states : ℕ → FileState). (states fd).ref_count) grown.states ∙ c in
    let (f, c', g) =
      decrement_ref-counted u fd (omega (arith, count)) (omega (arith, count, small)) in
    (
      decrement_ref-IsValid u fd fd_in valid,
      subst (λ (file : ℕ → File). All (Sound (file fd).block pos len) (requests_of bs)) (sym f)
          sound,
      covers,
      open_end,
      (λ k b h.
          ap (λ (file : ℕ → File). (file fd).block k) f
          ∙ grown.kept k b (ap (λ (file : ℕ → File). (file fd).block k) e ∙ h)),
      (λ i ne.
          ap (λ (file : ℕ → File). file i) f
          ∙ grown.others i ne
          ∙ ap (λ (file : ℕ → File). file i) e),
      omega (arith, c', count),
      g
          ∙ ap (λ (states : ℕ → FileState). (states fd).flags) grown.states
          ∙ increment_ref-flags s fd,
      subst (λ (file : ℕ → File). (pos + len - 1) / block_size + 1 ≤ (file fd).n_block) (sym f)
          beyond,
    )

-- `write_impl` of an opened file with a name at a sector boundary, that begins in the file or at its end,
-- answers when there are free blocks for what lies behind the end: its requests cover the range in order
-- and without gaps, and each lies within one 4096-byte unit of the device and one block that the file has
-- then. All but one of them are awaited. The file system is well formed then, the file keeps the blocks that
-- it had and has blocks up to the end of the range, and the other files, the flags and the reference count
-- are left as they were. The length is below 2 ^ 31 - 4096, so that the `int` of the loop holds the offset.
pub write_impl-extends :
    (deg : ℕ) (s : Fs) (fd len pos : ℕ)
    → 0 < deg
    → 0 < len
    → pos % 512 ≡ 0
    → fd < max_files
    → len + 4096 < 2 ^ 31
    → only_opened (s.states fd).flags ≡ true
    → (s.states fd).ref_count + 1 < 2 ^ 16
    → (pos + len - 1) / block_size < max_blocks_per_file
    → IsReady fd ((pos + len - 1) / block_size) pos s
    → (bs : List Batch) × (t : Fs) × (write_impl deg s fd len pos ≡ some (bs, t))
      × Extended s fd pos len bs t
unfolding write_impl
write_impl-extends deg s fd len pos d h aligned fd_in n_in o small last_in ready =
    let pos_in : pos + len < 2 ^ 63 = omega (arith, last_in, h) in
    let u = write_blksz-UnitSize len pos in
    let all =
      extends_all fd pos len (write_blksz len pos) u fd_in last_in len deg 0 (increment_ref s fd).1
        d (omega arith) h (Fits-first len pos (write_blksz len pos) aligned u)
        (increment_ref-IsReady fd _ (pos + 0) s o
          (subst (λ p. IsReady fd ((pos + len - 1) / block_size) p s) (omega arith) ready)) in
    (
      all.batches,
      decrement_ref all.fs fd,
      rw
          (
            lt→ltb (len + 4096) (2 ^ 31) n_in,
            lt→ltb (pos + len) (2 ^ 63) pos_in,
            (==_iff (pos % 512) 0).1 aligned,
            all.answers,
          )
          refl,
      decrement_ref-Extended s all.fs fd pos len all.batches fd_in o small all.grown all.valid
          all.sound all.covers all.one_open all.beyond,
    )
