-- ===== src/Gate/History.antt =====
-- scripts/static_ops/external_trigger_gate.py: `read_list`, which reads a list from the Actions API, and reads
-- it again where its count does not fit.
use auto_nav_log.Common.{
  ℕ, String, Bool, true, false, not, ◌&&◌, Option, none, some, List, [], ◌∷◌, if◌then◌else◌, any,
  length, leb, ltb, eqb, ◌==◌,
}
use auto_nav_log.Common.Int.{ℤ, pos, negsuc}
use auto_nav_log.Common.Result.{Result, ok, err}
use auto_nav_log.Gate.Model.{
  Reason, response_too_large, history_shape, history_count_type, history_count_range,
  history_rows_range, history_duplicate_id, history_count_mismatch,
}
use auto_nav_log.Gate.Rules.{is_known}

-- A row of a list. `id` is what `row["id"]` is up to Python's equality, `none` where reading or hashing
-- it raises; `positive_id` says that it is an int above zero. A field that is no text is `none`.
pub record Row : Type 0 where
  pub id : Option String
  pub positive_id : Bool
  pub created_at : Option String
  pub display_title : Option String
  pub status : Option String
  pub name : Option String

-- What `read_json` answers: it raises for an oversize body; `malformed` is no dictionary with both
-- keys; `listing` has the count, if it is an int, and the rows, if they are a list.
pub data Response : Type 0 where
  oversize malformed : Response
  listing : Option ℤ → Option (List Row) → Response

pub data Verdict : Type 0 where
  accepted : List Row → Verdict
  retry : Verdict
  rejected : Reason → Verdict

abbrev pub is_there {ℓ} : {A : Type ℓ} → Option A → Bool
is_there none = false
is_there (some a) = true

abbrev pub passes : (String → Bool) → Option String → Bool
passes test none = false
passes test (some text) = test text

-- `len({row["id"] for row in rows}) == len(rows)`, on the ids that could be read
unfoldable pub distinct : List String → Bool
distinct [] = true
distinct (id ∷ ids) = not (any (λ other. other == id) ids) && distinct ids

unfoldable pub ids_of : List Row → Option (List String)
ids_of [] = some []
ids_of (row ∷ rows) =
    let rest = ids_of rows in
    elim row.id [ none ↦ none | some id ↦ elim rest [ none ↦ none | some ids ↦ some (id ∷ ids) ] ]

-- `of_runs` says that the key is "workflow_runs". `timestamp` says of a text that `fromisoformat` reads
-- it and finds an offset.
module _ (timestamp : String → Bool) (of_runs : Bool) where
  abbrev pub well_formed_row : Row → Bool
  well_formed_row row =
      row.positive_id
      && (if of_runs
          then is_there row.created_at
            && (is_there row.display_title
                && (passes is_known row.status && passes timestamp row.created_at))
          else is_there row.name)

  unfoldable pub retry_rows_well_formed : List Row → Bool
  retry_rows_well_formed [] = true
  retry_rows_well_formed (row ∷ rows) = well_formed_row row && retry_rows_well_formed rows

  -- The checks from the count of ids on.
  unfoldable pub judge_ids : ℕ → List Row → Option (List String) → Verdict
  judge_ids total rows none = rejected history_shape
  judge_ids total rows (some ids) =
      if not (distinct ids)
      then rejected history_duplicate_id
      else if eqb (length rows) total
      then accepted rows
      else if retry_rows_well_formed rows
      then retry
      else rejected history_shape

  unfoldable pub judge_rows : ℕ → Option (List Row) → Verdict
  unfolding judge_ids
  judge_rows total none = rejected history_shape
  judge_rows total (some rows) =
      if ltb 100 (length rows)
      then rejected history_rows_range
      else judge_ids total rows (ids_of rows)

  -- The body of the loop.
  unfoldable pub judge : Response → Verdict
  unfolding judge_rows
  judge oversize = rejected response_too_large
  judge malformed = rejected history_shape
  judge (listing none rows) = rejected history_count_type
  judge (listing (some (negsuc n)) rows) = rejected history_count_range
  judge (listing (some (pos total)) rows) =
      if leb total 100 then judge_rows total rows else rejected history_count_range

  -- The loop, over the responses of the attempts that are left.
  unfoldable pub attempts : List Response → Result Reason (List Row)
  unfolding judge
  attempts [] = err history_count_mismatch
  attempts (response ∷ responses) = elim (judge response) [
    | accepted rows ↦ ok rows
    | retry ↦ attempts responses
    | rejected reason ↦ err reason
  ]

  unfoldable pub read_list : Response → Response → Response → Result Reason (List Row)
  unfolding attempts
  read_list first second third = attempts (first ∷ second ∷ third ∷ [])
