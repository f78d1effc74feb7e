-- ===== src/Transfer/Examples.antt =====
-- A run of the loops of mylib/hook.c on a file of one block.
use staut.Prelude.{ℕ, ◌≤◌, ◌==◌, if◌then◌else◌, ◌+◌, ◌/◌, ◌≡◌, refl, arith, List, [], ◌∷◌, some, ap}
use staut.Fs.State.{Fs, inactive, at, get_size, block_size}
use staut.Fs.Open.{opened_flags}
use staut.Transfer.Request.{Batch, issued, awaited_in}
use staut.Transfer.Impl.{clip, read_impl, write_impl}
use staut.Transfer.Shape.{All, Sound, Covers, requests_of}
use staut.Transfer.Read.{IsMapped, ReadAnswer, read_impl-reads}
use staut.Transfer.Write.{write_impl-overwrites}

-- Block 9 is the first of file 0.
abbrev stored : Fs
stored = record {
  magic = 0;
  free_blocks = λ i. at i;
  free_blocks_rp = 10;
  free_blocks_wp = 5;
  file =
      λ _. record { name = 97 ∷ []; block = λ j. if j == 0 then at 9 else inactive; n_block = 1 };
  states = λ _. record { flags = opened_flags; ref_count = 0 };
}

stored-IsMapped : (len : ℕ) → len ≤ 10000 → IsMapped (stored.file 0).block 512 len
stored-IsMapped len l k h = (
  omega (arith, h, l),
  9,
  ap (stored.file 0).block {x = (512 + k) / block_size} {y = 0} (omega arith),
)

clip-stored : clip (get_size stored 0) 512 700 ≤ 10000
unfolding clip get_size
clip-stored = omega arith

read_impl-reads_example :
    (bs : List Batch) × (t : Fs) × (read_impl 4 stored 0 700 512 ≡ some (bs, t))
    × ReadAnswer (stored.file 0).block 512 (clip (get_size stored 0) 512 700) bs
    × (t.file ≡ stored.file)
    × ((t.states 0).ref_count ≡ (stored.states 0).ref_count)
read_impl-reads_example =
    read_impl-reads 4 stored 0 700 512 (omega arith) refl (omega arith) (omega arith)
      (omega (arith, clip-stored)) refl (omega arith) (stored-IsMapped _ clip-stored)

write_impl-overwrites_example :
    (bs : List Batch) × (t : Fs) × (write_impl 4 stored 0 5000 512 ≡ some (bs, t))
    × All (Sound (stored.file 0).block 512 5000) (requests_of bs)
    × Covers 0 (requests_of bs) 5000
    × (awaited_in bs + 1 ≡ issued bs)
    × (t.file ≡ stored.file)
    × ((t.states 0).ref_count ≡ (stored.states 0).ref_count)
write_impl-overwrites_example =
    write_impl-overwrites 4 stored 0 5000 512 (omega arith) (omega arith) refl (omega arith)
      (omega arith) refl (omega arith) (stored-IsMapped 5000 (omega arith))
