-- ===== src/Store/Types.antt =====
-- internal/store/store.go: the field sets of the reading operations, and the records of manual
-- batches.
use reading_lite_next.Prelude.{
  ℕ, ◌-◌, ◌^◌, String, Bool, false, ◌||◌, Option, none, List, [], ◌∷◌, any, ℤ, pos, ltb_ℤ, eq_ℤ,
  ◌&&◌, not,
}
use reading_lite_next.Reading.{Time, Json, SourceKind}

pub record Pending : Type 0 where
  pub id : String
  pub process_attempts : ℕ

-- A zero `now` stands for the wall clock; pointers are options.
pub record ContentFields : Type 0 where
  pub now : Time
  pub expected_started_at : Option Time
  pub title : String
  pub author : String
  pub site : String
  pub lang : String
  pub word_count : ℕ
  pub extraction_mode : String
  pub content_key : String
  pub raw_key : String
  pub summary : String
  pub summary_json : Json
  pub similar_json : Json
  pub diagnostics_json : Json

pub record ImportFields : Type 0 where
  pub now : Time
  pub source_kind : SourceKind
  pub title : String
  pub raw_key : String
  pub tags : Option (List String)

pub record ReprocessFields : Type 0 where
  pub now : Time
  pub raw_key : String
  pub title : String

pub record TagFields : Type 0 where
  pub now : Time
  pub expected_started_at : Option Time

pub record StatusFields : Type 0 where
  pub now : Time
  pub started_at : Option Time
  pub clear_started_at : Bool
  pub finished_at : Option Time
  pub clear_finished_at : Bool
  pub error : Option String
  pub clear_error : Bool
  pub process_attempts : Option ℕ

-- `StatusFields{Now: now}`
abbrev pub status_at : Time → StatusFields
status_at now = record {
  now = now;
  started_at = none;
  clear_started_at = false;
  finished_at = none;
  clear_finished_at = false;
  error = none;
  clear_error = false;
  process_attempts = none;
}

-- `unset` is the zero value "" of the string types.
pub data BatchState : Type 0 where
  unset planned submitted results_ready applied canceled failed : BatchState

pub data BatchItemState : Type 0 where
  unset planned submitted succeeded errored canceled expired applied failed : BatchItemState

pub record BatchCounts : Type 0 where
  pub processing : ℤ
  pub succeeded : ℤ
  pub errored : ℤ
  pub canceled : ℤ
  pub expired : ℤ

abbrev pub max_batch_count : ℕ
max_batch_count = 2 ^ 31 - 1

abbrev out_of_range : ℤ → Bool
out_of_range v = ltb_ℤ v (pos 0) || ltb_ℤ (pos max_batch_count) v

-- `validateBatchCounts(counts) == nil`
unfoldable pub valid_counts : BatchCounts → Bool
valid_counts c =
    not (any out_of_range (c.processing ∷ c.succeeded ∷ c.errored ∷ c.canceled ∷ c.expired ∷ []))

abbrev pub same_counts : BatchCounts → BatchCounts → Bool
same_counts a b =
    eq_ℤ a.processing b.processing
    && eq_ℤ a.succeeded b.succeeded
    && eq_ℤ a.errored b.errored
    && eq_ℤ a.canceled b.canceled
    && eq_ℤ a.expired b.expired

pub record ManualBatch : Type 0 where
  pub id : String
  pub state : BatchState
  pub remote_id : String
  pub results_url : String
  pub counts : BatchCounts
  pub created_at : Time
  pub submitted_at : Option Time
  pub finished_at : Option Time
  pub applied_at : Option Time
  pub updated_at : Time

pub record ManualBatchItem : Type 0 where
  pub batch_id : String
  pub reading_id : String
  pub custom_id : String
  pub state : BatchItemState
  pub request_json : Json
  pub result_json : Json
  pub error_type : String
  pub error_message : String
  pub created_at : Time
  pub submitted_at : Option Time
  pub finished_at : Option Time
  pub applied_at : Option Time
  pub updated_at : Time

pub record BatchItemCreateFields : Type 0 where
  pub reading_id : String
  pub custom_id : String
  pub request_json : Json

pub record BatchCreateFields : Type 0 where
  pub id : String
  pub now : Time
  pub items : List BatchItemCreateFields

pub record BatchSubmitFields : Type 0 where
  pub now : Time
  pub remote_id : String
  pub results_url : String
  pub counts : BatchCounts

pub record BatchStateFields : Type 0 where
  pub now : Time
  pub results_url : String
  pub counts : Option BatchCounts

pub record BatchItemResultFields : Type 0 where
  pub now : Time
  pub state : BatchItemState
  pub result_json : Json
  pub error_type : String
  pub error_message : String

pub record BatchItemApplyFields : Type 0 where
  pub now : Time
