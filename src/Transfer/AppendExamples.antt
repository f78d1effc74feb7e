-- ===== src/Transfer/AppendExamples.antt =====
-- A write of three blocks into a file of mylib/myfs.c that has none yet.
use staut.Prelude.{◌≡◌, refl, arith, some, List}
use staut.Fs.State.{Fs, mount}
use staut.Fs.Examples.{opened, opened-IsValid}
use staut.Transfer.Request.{Batch}
use staut.Transfer.Impl.{read_impl, write_impl}
use staut.Transfer.Shape.{All, Sound, Covers, requests_of}
use staut.Transfer.Read.{ReadAnswer}
use staut.Transfer.Reread.{read_impl-write_impl}
use staut.Transfer.Grow.{IsReady}
use staut.Transfer.Appends.{Extended, write_impl-extends}

opened-IsReady : IsReady 0 2 512 opened
unfolding mount
opened-IsReady = record {
  valid = opened-IsValid;
  named = λ e. cc;
  reach = omega arith;
  room = omega arith;
}

write_impl-extends_example :
    (bs : List Batch) × (t : Fs) × (write_impl 4 opened 0 5000000 512 ≡ some (bs, t))
    × Extended opened 0 512 5000000 bs t
unfolding mount
write_impl-extends_example =
    write_impl-extends 4 opened 0 5000000 512 (omega arith) (omega arith) refl (omega arith)
      (omega arith) refl (omega arith) (omega arith) opened-IsReady

read_impl-write_impl_example :
    (bs rs : List Batch) × (t u : Fs) × (write_impl 4 opened 0 5000000 512 ≡ some (bs, t))
    × (read_impl 8 t 0 5000000 512 ≡ some (rs, u))
    × All (Sound (t.file 0).block 512 5000000) (requests_of bs)
    × Covers 0 (requests_of bs) 5000000
    × ReadAnswer (t.file 0).block 512 5000000 rs
    × (u.file ≡ t.file)
unfolding mount
read_impl-write_impl_example =
    read_impl-write_impl 4 8 opened 0 5000000 512 (omega arith) (omega arith) (omega arith) refl
      (omega arith) (omega arith) refl (omega arith) (omega arith) opened-IsReady
