-- ===== src/Tests/Pipelines.antt =====
-- Runs of the pipeline, at concrete inputs: ports that always answer, and a clock that advances by
-- a millisecond before each access.
use Prim.Native.String.{◌++◌}
use reading_lite_next.Prelude.{
  String, ◌+◌, ◌≡◌, ◌≢◌, refl, ap, str_eq, get_or, true, false, none, some, [], ◌∷◌, pos, arith,
}
use reading_lite_next.Dict
use reading_lite_next.Errors.{ok, err, plain}
use reading_lite_next.Reading.{Reading, pending}
use reading_lite_next.Store.Memory.{Memory, get_by_id as get_row}
use reading_lite_next.Store.Updates.{fenced_out}
use reading_lite_next.Store.Fence.{IsSuperseded}
use reading_lite_next.Vector.{dim}
use reading_lite_next.Vector.Similar.{query, ranked, candidates}
use reading_lite_next.Prelude.Sort.{sort_func}
use reading_lite_next.Effects.{◌>>=◌}
use reading_lite_next.Blobs
use reading_lite_next.Pipeline.{Summary, Run, Pipeline}
use reading_lite_next.Pipeline.Fields.{email_of, new_diagnostics, classify_fetch_status, top_k}
use reading_lite_next.Pipeline.Escape.{has_markup, email_of-has_markup}
use reading_lite_next.Pipeline.Process.{start, process, get_by_id, timed, acquire, index}
use reading_lite_next.Pipeline.Process.Superseded.{superseded_start_refused}
use reading_lite_next.Pipeline.Process.Resume.{process-other_sources}
use reading_lite_next.Pipeline.Process.Durable.{IsQuiet, IsAnchored}
use reading_lite_next.Pipeline.Process.Confined.{IsConfined, process-IsConfined}
use reading_lite_next.Pipeline.Process.Done.{process-IsAnchored}
use reading_lite_next.Tests.Data.{note, one_row, whole_numbers, filled}

abbrev summary : Summary
summary = record { title = "A"; summary = "<b>"; tags = some ("go" ∷ []); json = some "{}" }

abbrev pipeline : Pipeline whole_numbers
pipeline = record {
  fetch = λ w url.
      ok (record { body = "b"; content_type = "text/html"; final_url = url; status = 200 });
  extract = λ w res. ok record {
    title = "A";
    author = "";
    site = "";
    lang = "en";
    markdown = "b";
    mode = "readability";
    word_count = 1;
  };
  youtube = none;
  embed = λ w text. ok (filled 1 dim);
  summarize = λ w input. ok summary;
  notifier = some λ w email. none;
  is_youtube_video_key = λ key. false;
  marshal_similar = λ items. ok (some "[]");
  unmarshal_similar = λ raw. ok [];
  marshal_diagnostics = λ diag. some "{}";
  config = record { top_k = pos 5; notify_enabled = true; notify_from = "f"; notify_to = "t" };
  others = λ w. record w { now = w.now + 1000000 };
}

abbrev state : Memory → Run whole_numbers
state m = record {
  shared = record {
    store = m;
    blobs = record {
      entries = ("k", record { payload = "b"; content_type = "text/markdown" }) ∷ [];
    };
    vectors = Dict.empty;
    sent = [];
    ctx = none;
    now = 20;
  };
  diag = new_diagnostics "";
}

abbrev reset_row : Memory
reset_row = record one_row {
  by_id = record { entries = ("n1", record note { status = pending; started_at = none }) ∷ [] };
}

reset_row-IsSuperseded : IsSuperseded "n1" 7 reset_row
unfolding Dict.get Dict.lookup fenced_out
reset_row-IsSuperseded r at = ground (arith, at)

-- another thread resets the row while the run fetches
abbrev raced_pipeline : Pipeline whole_numbers
raced_pipeline = record pipeline { others = λ w. record w { store = reset_row } }

superseded_start_refused_example :
    ((start raced_pipeline note (state one_row)).0 ≢ ok tt)
    × IsSuperseded "n1" 7 (start raced_pipeline note (state one_row)).1.shared.store
unfolding timed acquire ◌>>=◌ classify_fetch_status Blobs.put index query top_k ranked sort_func
    candidates Dict.empty
superseded_start_refused_example =
    superseded_start_refused raced_pipeline note 7 refl (λ m v sent. IsSuperseded "n1" 7 m)
      (λ w h. reset_row-IsSuperseded) (λ w h. h) (state one_row) _ _ _ _ refl refl
      reset_row-IsSuperseded

abbrev stored_note : Reading
stored_note = record note { content_key = "k" }

abbrev stored_row : Memory
stored_row = record one_row { by_id = record { entries = ("n1", stored_note) ∷ [] } }

process-other_sources_example :
    process pipeline "n1" (state stored_row)
    ≡ process (record pipeline { fetch = λ w url. err (plain "") }) "n1" (state stored_row)
unfolding get_row Dict.get Dict.lookup
process-other_sources_example =
    process-other_sources pipeline (λ w url. err (plain "")) pipeline.extract pipeline.youtube "n1"
      (state stored_row) stored_note refl (λ e. absurd (ground (arith, ap (λ s. str_eq s "") e)))

quiet : IsQuiet pipeline "n1"
quiet = record { rows = λ w. refl; blobs = λ w key b at. at; vectors = λ w. refl }

one_row-IsAnchored : IsAnchored "n1" (state one_row).shared
unfolding Dict.get Dict.lookup
one_row-IsAnchored row at named =
    absurd (ground (arith, ap (λ o. str_eq (get_or o note).content_key "") at, named))

process-IsAnchored_example : IsAnchored "n1" (process pipeline "n1" (state one_row)).1.shared
unfolding Dict.get Dict.lookup
process-IsAnchored_example =
    process-IsAnchored pipeline note quiet (state one_row) refl one_row-IsAnchored

email_of-has_markup_example :
    (text : String) × ((email_of pipeline.config summary note).html ≡ "<p>" ++ (text ++ "</p>"))
    × (has_markup text ≡ false)
email_of-has_markup_example = email_of-has_markup pipeline.config summary note

process-IsConfined_example :
    IsConfined note one_row (process pipeline "n1" (state one_row)).1.shared.store
unfolding Dict.get
process-IsConfined_example = process-IsConfined pipeline (λ w j. refl) note (state one_row) refl
