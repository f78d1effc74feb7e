-- ===== src/Fs/Examples.antt =====
-- Runs of mylib/myfs.c on a small file table, and the theorems about it at concrete inputs.
use staut.Prelude.{strncmp_eq, ℕ, ◌/◌, ◌≡◌, refl, arith, true, false, [], ◌∷◌, some, CString}
use staut.Fs.State.{Fs, inactive, at, no_flags, mount}
use staut.Fs.Ops.{get_lba, ensure_block, lba_of, unlink, increment_ref}
use staut.Fs.Open.{set_opened, create, open_file}
use staut.Fs.Invariant.{IsValid, HasRoom}
use staut.Fs.Addresses.{get_lba-injective, get_lba-write}
use staut.Fs.Lookup.{Opens, open_file-Opens}
use staut.Fs.Mount.{IsBlank}
use staut.Fs.Steps.{
  Step, Reach, Step-IsValid, opens, looks_up, unlinks, here, next, mounted-IsValid,
}

-- A superblock file of zero bytes.
abbrev pub blank : Fs
blank = record {
  magic = 0;
  free_blocks = λ _. at 0;
  free_blocks_rp = 0;
  free_blocks_wp = 0;
  file = λ _. record { name = []; block = λ _. at 0; n_block = 0 };
  states = λ _. record { flags = no_flags; ref_count = 0 };
}

blank-IsBlank : IsBlank blank
blank-IsBlank = (omega arith, λ i h. refl)

-- "ab"
abbrev pub name : CString
name = 97 ∷ 98 ∷ []

abbrev pub opened : Fs
opened = set_opened (create (mount blank) 0 name) 0

-- Byte 513 of it is written.
abbrev written : Fs
written = (get_lba opened 0 513 true).1

open_file-fresh : open_file (mount blank) name ≡ some (0, opened)
unfolding open_file mount strncmp_eq
open_file-fresh = refl

-- Mounted, opened, written, and unlinked.
opens-Reach : Reach (mount blank) opened
opens-Reach = next here (opens name 0 opened open_file-fresh)

pub opened-IsValid : IsValid opened
opened-IsValid = mounted-IsValid blank opened blank-IsBlank opens-Reach

opened-HasRoom : HasRoom opened
unfolding mount
opened-HasRoom = omega arith

write-Step : Step opened written
unfolding mount get_lba
write-Step = looks_up 0 513 true (omega arith) (omega arith) (λ e. cc) (omega arith) opened-HasRoom

written-IsValid : IsValid written
written-IsValid = Step-IsValid write-Step opened-IsValid

mounted-IsValid_example : IsValid (unlink written name)
mounted-IsValid_example =
    mounted-IsValid blank (unlink written name) blank-IsBlank
      (next (next opens-Reach write-Step) (unlinks name))

lookup-written : (get_lba written 0 600 false).0 ≡ some 1
unfolding get_lba ensure_block mount
lookup-written = refl

lookup-sector : (get_lba written 0 1023 false).0 ≡ some 1
unfolding get_lba ensure_block mount
lookup-sector = refl

abbrev file_0 : ℕ
file_0 = 0

abbrev offset_600 : ℕ
offset_600 = 600

get_lba-injective_example : (file_0 ≡ 0) × (offset_600 / 512 ≡ 1023 / 512)
get_lba-injective_example =
    get_lba-injective written 0 0 600 1023 1 written-IsValid (omega arith) (omega arith)
      (omega arith) (omega arith) lookup-written lookup-sector

get_lba-write_example :
    (b : ℕ) × ((get_lba opened 0 513 true).0 ≡ some (lba_of b 513))
    × (get_lba (get_lba opened 0 513 true).1 0 2000 false
        ≡ (some (lba_of b 2000), (get_lba opened 0 513 true).1))
get_lba-write_example =
    get_lba-write opened 0 513 2000 false (omega arith) (omega arith) opened-HasRoom opened-IsValid
      (omega arith)

-- The last block is in use.
abbrev full : Fs
full = record written { free_blocks_rp = 716799; free_blocks_wp = 716799 }

open_file-Opens_example : Opens name written (open_file written name)
open_file-Opens_example = open_file-Opens written name

name-written : (written.file 0).name ≡ name
unfolding get_lba ensure_block mount
name-written = refl

abbrev referenced : Fs
referenced = (increment_ref written 0).1

ref_count-referenced : (referenced.states 0).ref_count ≡ 1
unfolding increment_ref get_lba ensure_block mount
ref_count-referenced = refl

hole : (opened.file 0).block 0 ≡ inactive
unfolding mount
hole = refl
