-- ===== src/Transfer/Reread.antt =====
-- A read of mylib/hook.c behind a write of the same range.
use staut.Prelude.{
  ℕ, ◌+◌, ◌-◌, ◌*◌, ◌/◌, ◌%◌, ◌≤◌, ◌<◌, ◌≡◌, refl, ap, sym, ◌∙◌, subst, arith, true, some, List,
  ◌^◌, ltb-false,
}
use staut.Fs.State.{Fs, block_size, get_size, max_files, max_blocks_per_file, only_opened}
use staut.Fs.Invariant.{IsValid}
use staut.Fs.Addresses.{live-at}
use staut.Transfer.Request.{Batch}
use staut.Transfer.Impl.{read_impl, write_impl, clip}
use staut.Transfer.Shape.{requests_of, All, Sound, Covers}
use staut.Transfer.Read.{IsMapped, ReadAnswer, read_impl-reads}
use staut.Transfer.Grow.{IsReady}
use staut.Transfer.Appends.{write_impl-extends}

clip-within :
    (s : Fs) (fd pos len : ℕ)
    → 0 < len
    → (pos + len - 1) / block_size + 1 ≤ (s.file fd).n_block
    → clip (get_size s fd) pos len ≡ len
unfolding clip get_size
clip-within s fd pos len h beyond =
    rw (ltb-false ((s.file fd).n_block * block_size) (pos + len) (omega (arith, h, beyond))) refl

Extended-IsMapped :
    (t : Fs) (fd pos len : ℕ)
    → fd < max_files
    → (pos + len - 1) / block_size < max_blocks_per_file
    → IsValid t
    → (pos + len - 1) / block_size + 1 ≤ (t.file fd).n_block
    → IsMapped (t.file fd).block pos len
Extended-IsMapped t fd pos len fd_in last_in valid beyond k h =
    let (b, e) =
      live-at _
        ((valid.packed fd fd_in).live ((pos + k) / block_size) (omega (arith, h, beyond))) in
    (omega (arith, h, last_in), b, e)

-- A read of the range that `write_impl` has just written, of an opened file with a name at a sector
-- boundary, answers. Its requests cover the whole range in order and without gaps, as those of the write
-- do, and both are sound for the same blocks: each byte is read from where it was written to. The write
-- begins in the file or at its end, and there are free blocks for what lies behind the end. The length is
-- below 2 ^ 31 - 4096, so that the `int` of the loops holds the offset.
pub read_impl-write_impl :
    (write_deg read_deg : ℕ) (s : Fs) (fd len pos : ℕ)
    → 0 < write_deg
    → 0 < read_deg
    → 0 < len
    → pos % 512 ≡ 0
    → fd < max_files
    → len + 4096 < 2 ^ 31
    → only_opened (s.states fd).flags ≡ true
    → (s.states fd).ref_count + 1 < 2 ^ 16
    → (pos + len - 1) / block_size < max_blocks_per_file
    → IsReady fd ((pos + len - 1) / block_size) pos s
    → (bs rs : List Batch) × (t u : Fs) × (write_impl write_deg s fd len pos ≡ some (bs, t))
      × (read_impl read_deg t fd len pos ≡ some (rs, u))
      × All (Sound (t.file fd).block pos len) (requests_of bs)
      × Covers 0 (requests_of bs) len
      × ReadAnswer (t.file fd).block pos len rs
      × (u.file ≡ t.file)
read_impl-write_impl wd rd s fd len pos dw dr h aligned fd_in n_in o small last_in ready =
    let (bs, t, written, ext) =
      write_impl-extends wd s fd len pos dw h aligned fd_in n_in o small last_in ready in
    let (valid, sound, covers, _, _, _, count, flags, beyond) = ext in
    let whole = clip-within t fd pos len h beyond in
    let mapped = Extended-IsMapped t fd pos len fd_in last_in valid beyond in
    let (rs, u, answers, ok, file, _) =
      read_impl-reads rd t fd len pos dr aligned fd_in (omega (arith, last_in, h))
        (subst (λ n. n + 4096 < 2 ^ 31) (sym whole) n_in) (ap (λ f. only_opened f) flags ∙ o)
        (omega (arith, count, small)) (subst (IsMapped (t.file fd).block pos) (sym whole) mapped) in
    (
      bs,
      rs,
      t,
      u,
      written,
      answers,
      sound,
      covers,
      subst (λ n. ReadAnswer (t.file fd).block pos n rs) whole ok,
      file,
    )
