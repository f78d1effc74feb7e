-- ===== src/Hook/Examples.antt =====
-- Runs of mylib/hook.c with a kernel that counts its calls, and the theorems at concrete inputs.
use staut.Prelude.{ℕ, ◌+◌, ◌≡◌, ◌≢◌, refl, arith, ◌==◌, if◌then◌else◌, List, [], ◌∷◌, some, none}
use staut.Fs.State.{inactive, at, get_size}
use staut.Fs.Ops.{get_lba, ensure_block, increment_ref, decrement_ref}
use staut.Fs.Open.{opened_flags}
use staut.Transfer.Request.{Batch, read_blksz}
use staut.Transfer.Impl.{read_impl, read_loop, clip}
use staut.Hook.Names.{Hooked, parse_hooked_filenames}
use staut.Hook.Parse.{parse_hooked_filenames-join}
use staut.Hook.Calls.{Ret, value, Call, Table, hook_pread64}
use staut.Hook.Position.{Io, gets, sequential, positioned, sequential-positioned, bytes}

-- The third name of "a:b:c" and the second, which runs on.
parse_hooked_filenames-join_example :
    parse_hooked_filenames (λ _. []) (97 ∷ 58 ∷ 98 ∷ 58 ∷ 99 ∷ [])
    ≡ (97 ∷ []) ∷ (98 ∷ 58 ∷ 99 ∷ []) ∷ (99 ∷ []) ∷ []
parse_hooked_filenames-join_example =
    parse_hooked_filenames-join (λ _. []) (97 ∷ []) ((98 ∷ []) ∷ (99 ∷ []) ∷ [])
      (((λ e. omega arith), tt), (((λ e. omega arith), tt), ((λ e. omega arith), tt)))

abbrev kernel : Call → ℕ → Ret × ℕ
kernel c k = (value k, k + 1)

abbrev hooked : Hooked
hooked = record { filenames = (97 ∷ []) ∷ []; rocksdb_dir = none }

-- Descriptor 3 is file 0, whose first block is block 9.
abbrev table : Table
table = record {
  hookfds = λ fd. if fd == 3 then some 0 else none;
  cur_pos = λ _. 512;
  fs = record {
    magic = 0;
    free_blocks = λ i. at i;
    free_blocks_rp = 10;
    free_blocks_wp = 5;
    file =
        λ _. record { name = 97 ∷ []; block = λ j. if j == 0 then at 9 else inactive; n_block = 1 };
    states = λ _. record { flags = opened_flags; ref_count = 0 };
  };
}

abbrev ios : List Io
ios = gets 512 ∷ gets 100 ∷ []

abbrev got : List Batch × Table
got = elim (positioned kernel hooked 4 4 3 ios 512 table 7) [ none ↦ ([], table) | some r ↦ r ]

positioned-got : positioned kernel hooked 4 4 3 ios 512 table 7 ≡ some (got.0, got.1)
unfolding hook_pread64 read_impl read_loop increment_ref decrement_ref get_lba ensure_block clip
    get_size read_blksz
positioned-got = refl

sequential-positioned_example :
    (cursor : ℕ → ℕ) × (sequential kernel hooked 4 4 3 ios table 7
      ≡ some (got.0, record got.1 { cur_pos = cursor }))
    × (cursor 3 ≡ 512 + bytes ios)
    × ((other : ℕ) → other ≢ 3 → cursor other ≡ 512)
sequential-positioned_example =
    sequential-positioned kernel hooked 4 4 3 ios table 7 0 got.0 got.1 refl positioned-got
