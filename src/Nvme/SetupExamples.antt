-- ===== src/Nvme/SetupExamples.antt =====
-- The set-up of mylib/nvme.cc for two cores, and DRIVE_IDS with two addresses for one drive.
use staut.Prelude.{
  ℕ, ◌+◌, ◌≤◌, ◌<◌, ◌≡◌, refl, arith, Bool, true, none, some, [], ◌∷◌, ◌==◌, if◌then◌else◌, CString,
  take, map, ◌++◌,
}
use staut.Nvme.Qp.{Region, nowhere, buffer, cq_of, sq_of, new_qp}
use staut.Nvme.Setup.{Setup, init_drive}
use staut.Nvme.Admin.{answers}
use staut.Nvme.Created.{identification, creations, init_drive-created}
use staut.Nvme.Drives.{HasNoBar, nvme_init, join, nvme_init-join}

abbrev address : Region → ℕ
address nowhere = 0
address (buffer b) = 4096 + b
address (cq_of q) = 8192 + q
address (sq_of q) = 16384 + q

-- The controller is ready at the third read, and a command is done before the fourth poll.
abbrev status : ℕ → ℕ
status k = if k == 0 then 0 else if k == 3 then 1 else 0

init_drive-created_example :
    (t : Setup) × (init_drive 5
        (answers 3)
        (λ _ _. none)
        (λ _ _. 0)
        address
        status
        2
        (record { qps = λ _. none; regs = []; submitted = [] })
      ≡ some t)
    × (t.regs ≡ (0x14, 0) ∷ (0x30, 8192) ∷ (0x28, 16384) ∷ (0x24, 0x70007) ∷ (0x14, 0x460001) ∷ [])
    × (t.submitted ≡ identification ∷ creations 2 1)
    × ((i : ℕ) → 0 < i → i ≤ 2 → t.qps i ≡ some (new_qp i (λ _. none) (λ _. 0)))
init_drive-created_example =
    init_drive-created 3 5 (omega arith) (λ _ _. none) (λ _ _. 0) address status 2 2 refl refl
      (omega arith) (λ _. refl)

-- "0000:00:01.0" and "0000:00:02.0".
abbrev first_id : CString
first_id = 48 ∷ 48 ∷ 48 ∷ 48 ∷ 58 ∷ 48 ∷ 48 ∷ 58 ∷ 48 ∷ 49 ∷ 46 ∷ 48 ∷ []

abbrev second_id : CString
second_id = 48 ∷ 48 ∷ 48 ∷ 48 ∷ 58 ∷ 48 ∷ 48 ∷ 58 ∷ 48 ∷ 50 ∷ 46 ∷ 48 ∷ []

abbrev any_uio : CString → Bool
any_uio _ = true

nvme_init-join_example :
    nvme_init [] any_uio 1 (join (first_id ∷ second_id ∷ []))
    ≡ some (map (λ a. a ++ []) (take 1 (first_id ∷ second_id ∷ [])))
nvme_init-join_example =
    nvme_init-join [] any_uio 1 (first_id ∷ second_id ∷ []) (omega arith)
      ((refl, no_bar_first, refl), ((refl, no_bar_second, refl), tt))
  where
    no_bar_first : HasNoBar first_id
    no_bar_first = ground arith

    no_bar_second : HasNoBar second_id
    no_bar_second = ground arith
