-- ===== src/ServerThread/Files.antt =====
-- The directory listing that ServerThread::getDirectoryContents builds, and the name under which
-- ServerThread::saveFile stores an upload.
use comp6461_assignment.Base.{
  ℕ, zero, suc, ◌+◌, ◌≤◌, ◌<◌, ◌≡◌, refl, ap, ◌∙◌, ◌≢◌, false, none, some, List, [], ◌∷◌, ◌++◌,
  length, arith, if◌then◌else◌, ◌==◌, length-append, Bool-cases, Option-cases, inl, inr, ≢→==,
}
use mathlib.Core.List.{append-nil, append_assoc}
use comp6461_assignment.ServerThread.Defs.{FileApi, Thread}
use comp6461_assignment.ServerThread.Requests.{names_length, fill_names, free_name, save_file}

-- Names with a NUL behind each.
unfoldable pub joined : List (List ℕ) → List ℕ
joined [] = []
joined (name ∷ names) = name ++ 0 ∷ joined names

-- The names that a reader of the listing sees, as FtpClient::performList prints them: one a line, each
-- NUL ending a line.
pub lines_from : List ℕ → List ℕ → List (List ℕ)
lines_from line [] = []
lines_from line (b ∷ bs) =
    if b == 0 then line ∷ lines_from [] bs else lines_from (line ++ b ∷ []) bs

-- No byte of the name is NUL.
abbrev pub IsName : List ℕ → Type 0
IsName [] = Unit
IsName (b ∷ bs) = (b ≢ 0) × IsName bs

abbrev pub AllNames : List (List ℕ) → Type 0
AllNames [] = Unit
AllNames (name ∷ names) = IsName name × AllNames names

pub fill_names-joined :
    (limit index : ℕ) (names : List (List ℕ))
    → index + names_length names ≤ limit
    → fill_names limit index names ≡ some (joined names)
unfolding fill_names joined names_length
fill_names-joined limit index [] h = refl
fill_names-joined limit index (name ∷ names) h =
    ground (arith, fill_names-joined limit (index + (length name + 1)) names (omega arith))

length-joined : (names : List (List ℕ)) → length (joined names) ≡ names_length names
unfolding joined names_length
length-joined [] = refl
length-joined (name ∷ names) =
    omega (arith, length-append name (0 ∷ joined names), length-joined names)

lines_from-name :
    (line name rest : List ℕ)
    → IsName name
    → lines_from line (name ++ 0 ∷ rest) ≡ (line ++ name) ∷ lines_from [] rest
unfolding lines_from
lines_from-name line [] rest h = rw append-nil refl
lines_from-name line (b ∷ name) rest (ne, h) =
    rw (≢→== b 0 ne, lines_from-name (line ++ b ∷ []) name rest h, append_assoc line (b ∷ []) name)
      refl

lines_from-joined : (names : List (List ℕ)) → AllNames names → lines_from [] (joined names) ≡ names
unfolding joined lines_from
lines_from-joined [] h = refl
lines_from-joined (name ∷ names) (h, hs) =
    lines_from-name [] name (joined names) h ∙ ap (◌∷◌ name) (lines_from-joined names hs)

-- The listing of file names that hold no NUL is complete: its loop never runs into its exception,
-- it has the length that was counted for it, and a reader that splits it at the NULs gets the file
-- names back, in order.
pub fill_names_roundtrip :
    (names : List (List ℕ))
    → AllNames names
    → (bytes : List ℕ) × (fill_names (names_length names) 0 names ≡ some bytes)
      × (length bytes ≡ names_length names)
      × (lines_from [] bytes ≡ names)
fill_names_roundtrip names h = (
  joined names,
  fill_names-joined (names_length names) 0 names (omega arith),
  length-joined names,
  lines_from-joined names h,
)

module _ (api : FileApi) where
  open api use {Disk, path_file_exists, write, path_find_extension, path_remove_extension}

  -- The names that saveFile tries, in order.
  unfoldable pub candidate : List ℕ → List ℕ → ℕ → List ℕ
  candidate extension name zero = name
  candidate extension name (suc k) =
      candidate extension (path_remove_extension name ++ b'_' ∷ extension) k

  free_name_sound :
      (fuel : ℕ) (disk : Disk) (extension name found : List ℕ)
      → free_name api fuel disk extension name ≡ some found
      → path_file_exists disk found ≡ false
  unfolding free_name
  free_name_sound zero disk extension name found e = cc
  free_name_sound (suc fuel) disk extension name found e =
      elim (Bool-cases (path_file_exists disk name)) [
        | inl taken ↦
            free_name_sound fuel disk extension (path_remove_extension name ++ b'_' ∷ extension)
              found (ground arith)
        | inr free ↦ ground arith
      ]

  free_name-finds :
      (fuel : ℕ) (disk : Disk) (extension name : List ℕ) (k : ℕ)
      → k < fuel
      → path_file_exists disk (candidate extension name k) ≡ false
      → free_name api fuel disk extension name ≢ none
  unfolding free_name candidate
  free_name-finds zero disk extension name k h e = elim h [ ]
  free_name-finds (suc fuel) disk extension name zero h e = ground arith
  free_name-finds (suc fuel) disk extension name (suc k) h e =
      let rest =
        free_name-finds fuel disk extension (path_remove_extension name ++ b'_' ∷ extension) k
          (omega arith) e in
      ground (arith, rest)

  -- An upload never overwrites a file: if one of the first `fuel` names that saveFile tries is
  -- free, it ends, and it writes the contents, and nothing else, under a name that no file had.
  pub save_file_fresh :
      (fuel k : ℕ) (contents : List ℕ) (t : Thread api)
      → k < fuel
      → path_file_exists t.disk
          (candidate (path_find_extension t.filename) (t.files_directory ++ t.filename) k)
        ≡ false
      → (name : List ℕ) × (path_file_exists t.disk name ≡ false)
        × (save_file api fuel contents t ≡ some (record t { disk = write t.disk name contents }))
  unfolding save_file
  save_file_fresh fuel k contents t h free =
      elim (Option-cases (free_name api fuel t.disk extension first)) [
        | inl out ↦ absurd (free_name-finds fuel t.disk extension first k h free out)
        | inr (name, e) ↦
            (name, free_name_sound fuel t.disk extension first name e, rw (e, save_file) refl)
      ]
    where
      extension : List ℕ
      extension = path_find_extension t.filename

      first : List ℕ
      first = t.files_directory ++ t.filename
