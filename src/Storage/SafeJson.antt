-- ===== src/Storage/SafeJson.antt =====
-- storage/safe_json.py: the atomic write of a file with its backup. A fault is what the operating system
-- does at one of the calls to come. A temporary file has a number for its name; the bytes in it are those
-- that it was made for once they are written. `validate` stands for the model that the bytes must fit.
use auto_nav_log.Common.{
  Bool, List, Option, [], eqb, false, if◌then◌else◌, none, some, true, ℕ, ◌+◌, ◌∷◌,
}
use auto_nav_log.Common.Result.{Result, err, ok}
use auto_nav_log.Storage.Effect.{Failure, io_error, json_error}

-- A read-back may also return other bytes.
pub data Fault : Type 0 where
  passes raises differs : Fault

-- The file and its backup.
pub record Files (Raw : Type 0) : Type 0 where
  pub path : Option Raw
  pub backup : Option Raw

-- The temporary files that exist; the next name that `mkstemp` draws, and the files whose removal raised.
pub record Temporaries : Type 0 where
  pub exists : ℕ → Bool
  pub next_name : ℕ
  pub refused : List ℕ

pub record Calls (Raw : Type 0) : Type 0 where
  pub files : Files Raw
  pub faults : List Fault
  pub temporaries : Temporaries

abbrev pub first_fault : List Fault → Fault
first_fault [] = passes
first_fault (fault ∷ faults) = fault

abbrev pub later_faults : List Fault → List Fault
later_faults [] = []
later_faults (fault ∷ faults) = faults

abbrev pub W : Type 0 → Type 0 → Type 0
W Raw A = Calls Raw → Result Failure A × Calls Raw

module _ {Raw : Type 0} where
  abbrev pub returns : {A : Type 0} → A → W Raw A
  returns a s = (ok a, s)

  abbrev pub raises_with : {A : Type 0} → Failure → W Raw A
  raises_with failure s = (err failure, s)

  abbrev pub next :
      {A B : Type 0} → Result Failure A × Calls Raw → (A → W Raw B) → Result Failure B × Calls Raw
  next (ok a, s) f = f a s
  next (err failure, s) f = (err failure, s)

  infixl 5 ◌>>=◌ ◌>>◌
  abbrev pub ◌>>=◌ : {A B : Type 0} → W Raw A → (A → W Raw B) → W Raw B
  ◌>>=◌ m f s = next (m s) f

  abbrev pub ◌>>◌ : {A B : Type 0} → W Raw A → W Raw B → W Raw B
  m >> k = m >>= λ _. k

  abbrev pub recovering :
      {A : Type 0}
      → Result Failure A × Calls Raw
      → (Failure → W Raw A)
      → Result Failure A × Calls Raw
  recovering (ok a, s) f = (ok a, s)
  recovering (err failure, s) f = f failure s

  -- `try: m except Exception: f`
  abbrev pub except : {A : Type 0} → W Raw A → (Failure → W Raw A) → W Raw A
  except m f s = recovering (m s) f

  abbrev pub finished :
      {A : Type 0} → Result Failure A × Calls Raw → W Raw (Unit {0}) → Result Failure A × Calls Raw
  finished (ok a, s) f = (f >> returns a) s
  finished (err failure, s) f = (f >> raises_with failure) s

  -- `try: m finally: f`
  abbrev pub finally : {A : Type 0} → W Raw A → W Raw (Unit {0}) → W Raw A
  finally m f s = finished (m s) f

  abbrev pub put_both : (Files Raw → Files Raw) → Calls Raw → Calls Raw
  put_both put s = record s { files = put s.files }

  abbrev pub set_temporary : ℕ → Bool → Calls Raw → Calls Raw
  set_temporary name there s = record s {
    temporaries = record s.temporaries {
      exists = λ other. if eqb other name then there else s.temporaries.exists other;
    };
  }

  abbrev pub add_temporary : Calls Raw → Calls Raw
  add_temporary s = record (set_temporary s.temporaries.next_name true s) {
    temporaries = record (set_temporary s.temporaries.next_name true s).temporaries {
      next_name = s.temporaries.next_name + 1;
    };
  }

  abbrev pub refuse_removal : ℕ → Calls Raw → Calls Raw
  refuse_removal name s = record s {
    temporaries = record s.temporaries { refused = name ∷ s.temporaries.refused };
  }

  abbrev pub spend : Calls Raw → Calls Raw
  spend s = record s { faults = later_faults s.faults }

  abbrev pub attempt_with :
      Fault
      → (Calls Raw → Calls Raw)
      → (Calls Raw → Calls Raw)
      → Calls Raw
      → Result Failure (Unit {0}) × Calls Raw
  attempt_with passes done failed s = (ok tt, done (spend s))
  attempt_with fault done failed s = (err io_error, failed (spend s))

  -- A call of the operating system, with what it does and what is left where it raises.
  unfoldable pub attempt : (Calls Raw → Calls Raw) → (Calls Raw → Calls Raw) → W Raw (Unit {0})
  attempt done failed s = attempt_with (first_fault s.faults) done failed s

  -- `path.unlink`
  abbrev pub call : (Files Raw → Files Raw) → W Raw (Unit {0})
  call put = attempt (put_both put) (λ s. s)

  -- `temporary.unlink(missing_ok=True)`
  unfoldable pub unlink : ℕ → W Raw (Unit {0})
  unlink name = attempt (set_temporary name false) (refuse_removal name)

  -- `os.replace(temporary, ...)`: the temporary file becomes the file, which `put` puts in its place.
  unfoldable pub replace : ℕ → (Files Raw → Files Raw) → W Raw (Unit {0})
  replace name put = attempt (λ s. set_temporary name false (put_both put s)) (λ s. s)

  -- `tempfile.mkstemp`
  unfoldable pub make_temporary : W Raw ℕ
  make_temporary s = (attempt add_temporary (λ t. t) >> returns s.temporaries.next_name) s

  -- `_write_temp`: it makes the temporary file, writes it, and removes it where the write fails.
  unfoldable pub write_temp : W Raw ℕ
  write_temp = make_temporary >>= λ name.
      except (attempt (λ s. s) (λ s. s)) (λ failure. unlink name >> raises_with failure)
      >> returns name

  -- `_replace_bytes`; `put` replaces the file.
  unfoldable pub replace_bytes : (Files Raw → Files Raw) → W Raw (Unit {0})
  replace_bytes put = write_temp >>= λ name. finally (replace name put) (unlink name)

  abbrev pub put_path : Option Raw → Files Raw → Files Raw
  put_path raw files = record files { path = raw }

  abbrev pub put_backup : Raw → Files Raw → Files Raw
  put_backup raw files = record files { backup = some raw }

  abbrev pub read_with : Fault → Option Raw → Calls Raw → Result Failure (Option Raw) × Calls Raw
  read_with raises raw s = (err io_error, record s { faults = later_faults s.faults })
  read_with fault raw s = (ok raw, record s { faults = later_faults s.faults })

  -- `previous`
  abbrev pub read_previous : Option Raw → W Raw (Option Raw)
  read_previous none s = returns none s
  read_previous (some raw) s = read_with (first_fault s.faults) (some raw) s

  abbrev pub checked : Bool → W Raw (Unit {0})
  checked true = returns tt
  checked false = raises_with json_error

  abbrev pub read_back_with : Fault → Bool → Calls Raw → Result Failure (Unit {0}) × Calls Raw
  read_back_with passes valid s = checked valid (record s { faults = later_faults s.faults })
  read_back_with raises valid s = (err io_error, record s { faults = later_faults s.faults })
  read_back_with differs valid s = (err json_error, record s { faults = later_faults s.faults })

  -- A read of what was written, which must be the same bytes, and valid.
  unfoldable pub read_back : Bool → W Raw (Unit {0})
  read_back valid s = read_back_with (first_fault s.faults) valid s

  abbrev pub back_up : Bool → Option Raw → W Raw (Unit {0})
  back_up true (some previous) = replace_bytes (put_backup previous)
  back_up _ _ = returns tt

  abbrev pub restore : Option Raw → W Raw (Unit {0})
  restore none = call (put_path none)
  restore (some previous) = replace_bytes (put_path (some previous))

  -- The part of `atomic_validated_write` under its `try`.
  unfoldable pub publish : ℕ → Raw → Bool → Bool → Option Raw → W Raw (Unit {0})
  publish name raw valid keep_backup previous =
      read_back valid
      >> back_up keep_backup previous
      >> replace name (put_path (some raw))
      >> read_back valid

  unfoldable pub write_over : Raw → Bool → Bool → Option Raw → W Raw (Unit {0})
  write_over raw valid keep_backup previous = write_temp >>= λ name.
      finally
        (except (publish name raw valid keep_backup previous)
          (λ failure. restore previous >> raises_with failure))
        (unlink name)

  -- The bytes that are validated are the same three times.
  unfoldable pub atomic_validated_write : (Raw → Bool) → Raw → Bool → W Raw (Unit {0})
  atomic_validated_write validate raw keep_backup s =
      (checked (validate raw) >> read_previous s.files.path >>= λ previous.
      write_over raw (validate raw) keep_backup previous)
        s
