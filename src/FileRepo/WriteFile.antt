-- ===== src/FileRepo/WriteFile.antt =====
-- writeToFile of infrastructure/repository/file/file_repository.go, one system call at a time, so
-- that a crash between two calls is a run of fewer steps.
use hexagonal_backend.Common.{
  ◌≢◌, ℕ, zero, suc, String, ◌≡◌, refl, ◌⊎◌, inl, inr, Bool, Option, none, some, ◌≤◌, ◌-◌, ap,
  if_elim, Option-cases, if◌then◌else◌, arith, true, false, ◌||◌, not, is_some,
}
use mathlib.Core.Path.{subst}
use hexagonal_backend.Common.Result.{Result, ok, err}
use hexagonal_backend.Errors.{backend}

-- The repository's file and the temporary file beside it.
pub record Disk : Type 0 where
  pub file : Option String
  pub tmp : Option String

-- Which call of a write fails, and what encoding the documents gives.
pub record Attempt : Type 0 where
  pub open_fails : Bool
  pub encoded : Option String
  pub sync_fails : Bool
  pub close_fails : Bool
  pub rename_fails : Bool
  pub remove_fails : Bool

-- The call that comes next, or what writeToFile has returned.
pub data Phase : Type 0 where
  opening encoding syncing closing renaming removing : Phase
  returned : Result (Unit {0}) → Phase

pub record Writing : Type 0 where
  pub phase : Phase
  pub disk : Disk

-- One call. OpenFile truncates the temporary file, Encode fills it, Rename replaces the file by it,
-- and a call that fails after OpenFile is followed by Remove, whose own error is dropped.
unfoldable pub call_of : Attempt → Phase → Disk → Writing
call_of a opening d =
    if a.open_fails
    then record { phase = returned (err backend); disk = d }
    else record { phase = encoding; disk = record d { tmp = some "" } }
call_of a encoding d = elim a.encoded [
  | none ↦ record { phase = removing; disk = d }
  | some content ↦ record { phase = syncing; disk = record d { tmp = some content } }
]
call_of a syncing d = record { phase = if a.sync_fails then removing else closing; disk = d }
call_of a closing d = record { phase = if a.close_fails then removing else renaming; disk = d }
call_of a renaming d =
    if a.rename_fails
    then record { phase = removing; disk = d }
    else record { phase = returned (ok tt); disk = record { file = d.tmp; tmp = none } }
call_of a removing d = record {
  phase = returned (err backend);
  disk = if a.remove_fails then d else record d { tmp = none };
}
call_of a (returned r) d = record { phase = returned r; disk = d }

-- The first n calls.
unfoldable pub run_calls : ℕ → Attempt → Writing → Writing
unfolding call_of
run_calls zero a s = s
run_calls (suc n) a s = run_calls n a (call_of a s.phase s.disk)

-- What a run that has not returned would answer; `write_returns` shows that there is none.
abbrev result_of : Phase → Result (Unit {0})
result_of (returned r) = r
result_of _ = err backend

abbrev pub start : Disk → Writing
start d = record { phase = opening; disk = d }

-- writeToFile makes six calls at most.
unfoldable pub write_to_file : Attempt → Disk → Result (Unit {0}) × Disk
unfolding run_calls
write_to_file a d = let s = run_calls 6 a (start d) in (result_of s.phase, s.disk)

-- How many calls are left at most.
abbrev calls_left : Phase → ℕ
calls_left opening = 6
calls_left encoding = 5
calls_left syncing = 4
calls_left closing = 3
calls_left renaming = 2
calls_left removing = 1
calls_left (returned r) = 0

call_of-calls_left :
    (a : Attempt) (p : Phase) (d : Disk) → calls_left (call_of a p d).phase ≤ calls_left p - 1
unfolding call_of
call_of-calls_left a opening d = ground arith
call_of-calls_left a p d = ground arith

run_calls-calls_left :
    (n : ℕ) (a : Attempt) (s : Writing)
    → calls_left (run_calls n a s).phase ≤ calls_left s.phase - n
unfolding run_calls
run_calls-calls_left zero a s = omega arith
run_calls-calls_left (suc n) a s = omega (
  arith,
  call_of-calls_left a s.phase s.disk,
  run_calls-calls_left n a (call_of a s.phase s.disk),
)

none_left : (p : Phase) → calls_left p ≡ 0 → p ≡ returned (result_of p)
none_left (returned r) h = refl
none_left p h = absurd (omega arith)

-- Six calls are enough: then writeToFile has returned, whatever fails.
write_returns :
    (a : Attempt) (d : Disk) → (run_calls 6 a (start d)).phase ≡ returned (write_to_file a d).0
unfolding write_to_file
write_returns a d = none_left _ (omega (arith, run_calls-calls_left 6 a (start d)))

-- Before Rename the file is as it was, and the temporary file is whole when it is synced. At the
-- end the file is whole, or as it was and the answer an error.
abbrev OnTrack : Attempt → Disk → Phase → Disk → Type 0
OnTrack a d syncing now = (now.file ≡ d.file) × (now.tmp ≡ a.encoded) × (a.encoded ≢ none)
OnTrack a d closing now = (now.file ≡ d.file) × (now.tmp ≡ a.encoded) × (a.encoded ≢ none)
OnTrack a d renaming now = (now.file ≡ d.file) × (now.tmp ≡ a.encoded) × (a.encoded ≢ none)
OnTrack a d (returned (ok u)) now = (now.file ≡ a.encoded) × (a.encoded ≢ none)
OnTrack a d (returned (err e)) now = (now.file ≡ d.file) × (e ≡ backend)
OnTrack a d p now = now.file ≡ d.file

abbrev Next : Attempt → Disk → Writing → Type 0
Next a d s = OnTrack a d s.phase s.disk

call_of-OnTrack :
    (a : Attempt) (d : Disk) (p : Phase) (now : Disk)
    → OnTrack a d p now
    → let next = call_of a p now in OnTrack a d next.phase next.disk
unfolding call_of
call_of-OnTrack a d opening now h = if_elim a.open_fails (Next a d) (h, refl) h
call_of-OnTrack a d encoding now h = elim (Option-cases a.encoded) [
  | inl e ↦ rw e h
  | inr (content, e) ↦ rw e (h, refl, ground (arith))
]
call_of-OnTrack a d syncing now h = if_elim a.sync_fails (λ p. OnTrack a d p now) h.0 h
call_of-OnTrack a d closing now h = if_elim a.close_fails (λ p. OnTrack a d p now) h.0 h
call_of-OnTrack a d renaming now h = if_elim a.rename_fails (Next a d) h.0 (h.1, h.2)
call_of-OnTrack a d removing now h = (ground arith, refl)
call_of-OnTrack a d (returned r) now h = h

run_calls-OnTrack :
    (n : ℕ) (a : Attempt) (d : Disk) (s : Writing)
    → OnTrack a d s.phase s.disk
    → let cut = run_calls n a s in OnTrack a d cut.phase cut.disk
unfolding run_calls
run_calls-OnTrack zero a d s h = h
run_calls-OnTrack (suc n) a d s h =
    run_calls-OnTrack n a d (call_of a s.phase s.disk) (call_of-OnTrack a d s.phase s.disk h)

-- Wherever a write is cut off, the file holds what it held before or the whole of what is written.
pub write_crash_safe :
    (n : ℕ) (a : Attempt) (d : Disk)
    → let cut = (run_calls n a (record { phase = opening; disk = d })).disk in
      (cut.file ≡ d.file) ⊎ ((cut.file ≡ a.encoded) × (a.encoded ≢ none))
write_crash_safe n a d = on_track _ _ (run_calls-OnTrack n a d (start d) refl)
  where
    on_track :
        (p : Phase) (now : Disk)
        → OnTrack a d p now
        → (now.file ≡ d.file) ⊎ ((now.file ≡ a.encoded) × (a.encoded ≢ none))
    on_track (returned (ok u)) now h = inr h
    on_track (returned (err e)) now h = inl h.0
    on_track opening now h = inl h
    on_track encoding now h = inl h
    on_track removing now h = inl h
    on_track syncing now h = inl h.0
    on_track closing now h = inl h.0
    on_track renaming now h = inl h.0

-- writeToFile succeeds exactly when the file holds what was to be written because of it; on an
-- error the file is as it was.
pub write_to_file_lem :
    (a : Attempt) (d : Disk)
    → let (r, d') = write_to_file a d in
      ((r ≡ ok tt) × (d'.file ≡ a.encoded) × (a.encoded ≢ none))
      ⊎ ((r ≡ err backend) × (d'.file ≡ d.file))
unfolding write_to_file
write_to_file_lem a d = written _ (
    subst (λ p. OnTrack a d p (write_to_file a d).1) (write_returns a d)
      (run_calls-OnTrack 6 a d (start d) refl))
  where
    written :
        (r : Result (Unit {0}))
        → OnTrack a d (returned r) (write_to_file a d).1
        → ((r ≡ ok tt) × ((write_to_file a d).1.file ≡ a.encoded) × (a.encoded ≢ none))
          ⊎ ((r ≡ err backend) × ((write_to_file a d).1.file ≡ d.file))
    written (ok u) h = inl (refl, h.0, h.1)
    written (err e) h = inr (ap err h.1, h.0)

-- Whether a call of a write fails.
abbrev pub some_call_fails : Attempt → Bool
some_call_fails a =
    a.open_fails || not (is_some a.encoded) || a.sync_fails || a.close_fails || a.rename_fails

-- writeToFile succeeds exactly if no call of it fails, and then the file is the one that was written
-- and the temporary file is gone. Otherwise the file is as it was, and a temporary file that was
-- opened is gone too, unless its removal fails.
pub write_to_file_outcome :
    (a : Attempt) (d : Disk)
    → let (r, d') = write_to_file a d in
      (some_call_fails a ≡ false → (r ≡ ok tt) × (d'.file ≡ a.encoded) × (d'.tmp ≡ none))
      × (some_call_fails a ≡ true
          → (r ≡ err backend)
            × (d'.file ≡ d.file)
            × (a.open_fails ≡ false → a.remove_fails ≡ false → d'.tmp ≡ none))
unfolding write_to_file run_calls call_of
write_to_file_outcome a d = (
  λ fine. (ground (arith, fine), ground (arith, fine), ground (arith, fine)),
  λ bad. (
    ground (arith, bad),
    ground (arith, bad),
    λ opened removed. ground (arith, bad, opened, removed),
  ),
)
