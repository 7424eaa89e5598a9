-- ===== src/Pipeline.antt =====
-- internal/pipeline/pipeline.go: the types of the pipeline, its ports, and its access to what it
-- shares with other threads. Fetching, extraction, embedding, summaries and the notifier are
-- functions of the state in which they are called.
pub mod Fields
pub mod Escape
pub mod Process
use reading_lite_next.Prelude.{ℕ, String, Bool, Option, none, some, List, [], ◌∷◌, ℤ}
use reading_lite_next.Dict.{Dict}
use reading_lite_next.Errors.{Context, Error, Result, ok, err}
use reading_lite_next.Effects.{Act}
use reading_lite_next.Reading.{Time, Json, Reading}
use reading_lite_next.Store.Memory.{Memory}
use reading_lite_next.Blobs.{Blob}
use reading_lite_next.Vector.{Entry}
use reading_lite_next.Vector.Similar.{Floats}

pub record Resource : Type 0 where
  pub body : String
  pub content_type : String
  pub final_url : String
  pub status : ℕ

pub record Article : Type 0 where
  pub title : String
  pub author : String
  pub site : String
  pub lang : String
  pub markdown : String
  pub mode : String
  pub word_count : ℕ

pub record SummaryInput : Type 0 where
  pub title : String
  pub author : String
  pub site : String
  pub url : String
  pub markdown : String

pub record Summary : Type 0 where
  pub title : String
  pub summary : String
  pub tags : Option (List String)
  pub json : Json

-- `summarize.Summary{}`
abbrev pub no_summary : Summary
no_summary = record { title = ""; summary = ""; tags = none; json = none }

pub record Email : Type 0 where
  pub from : String
  pub to : String
  pub subject : String
  pub html : String

pub record Config : Type 0 where
  pub top_k : ℤ
  pub notify_enabled : Bool
  pub notify_from : String
  pub notify_to : String

-- A time in milliseconds is a whole number, which a float64 represents.
pub record Diagnostics : Type 0 where
  pub source : String
  pub extraction_mode : String
  pub similar_count : ℕ
  pub reused : Bool
  pub notify_error : String
  pub timings_ms : Dict ℕ

module _ (fl : Floats) where
  pub record SimilarItem : Type 0 where
    pub id : String
    pub score : fl.F64
    pub title : String
    pub url : String

  pub record Content : Type 0 where
    pub title : String
    pub author : String
    pub site : String
    pub lang : String
    pub word_count : ℕ
    pub mode : String
    pub markdown : String
    pub content_key : String
    pub raw_key : String
    pub similar_json : Json
    pub vec : List fl.F32

  -- What the run shares with other threads; `ctx` is what its context reports, `sent` are the
  -- emails that it handed to the notifier.
  pub record Shared : Type 0 where
    pub store : Memory
    pub blobs : Dict (Blob String)
    pub vectors : Dict (Entry fl.F32)
    pub sent : List Email
    pub ctx : Context
    pub now : Time

  pub record Run : Type 0 where
    pub shared : Shared
    pub diag : Diagnostics

  -- `Pipeline` with its ports. A port that is nil is `none`. `others` is what happens before an
  -- access to shared state: other threads act, and time passes.
  pub record Pipeline : Type 0 where
    pub fetch : Shared → String → Result Resource
    pub extract : Shared → Resource → Result Article
    pub youtube : Option (Shared → String → Result Article)
    pub embed : Shared → String → Result (List fl.F32)
    pub summarize : Shared → SummaryInput → Result Summary
    pub notifier : Option (Shared → Email → Option Error)
    pub is_youtube_video_key : String → Bool
    pub marshal_similar : List SimilarItem → Result Json
    pub unmarshal_similar : String → Result (List SimilarItem)
    pub marshal_diagnostics : Diagnostics → Json
    pub config : Config
    pub others : Shared → Shared

module _ {fl : Floats} where
  abbrev pub on_shared {ℓ} : {A : Type ℓ} → Result A × Shared fl → Diagnostics → Result A × Run fl
  on_shared (res, w) diag = (res, record { shared = w; diag = diag })

  -- one access to the shared state
  abbrev pub access {ℓ} : {A : Type ℓ} → Pipeline fl → Act (Shared fl) A → Act (Run fl) A
  access p op s = on_shared (op (p.others s.shared)) s.diag

  abbrev pub in_store {ℓ} :
      {A : Type ℓ} → (Shared fl → Memory → Result A × Memory) → Act (Shared fl) A
  in_store op w = let (res, m) = op w w.store in (res, record w { store = m })

  abbrev pub in_blobs {ℓ} :
      {A : Type ℓ}
      → (Shared fl → Dict (Blob String) → Result A × Dict (Blob String))
      → Act (Shared fl) A
  in_blobs op w = let (res, b) = op w w.blobs in (res, record w { blobs = b })

  abbrev pub in_vectors {ℓ} :
      {A : Type ℓ}
      → (Shared fl → Dict (Entry fl.F32) → Result A × Dict (Entry fl.F32))
      → Act (Shared fl) A
  in_vectors op w = let (res, v) = op w w.vectors in (res, record w { vectors = v })

  -- a call of a port
  abbrev pub ask {ℓ κ} :
      {A : Type ℓ} {B : Type κ} → Pipeline fl → (Shared fl → A → Result B) → A → Act (Run fl) B
  ask p port a = access p λ w. (port w a, w)

  -- `p.Clock.Now()`
  abbrev pub clock : Pipeline fl → Act (Run fl) Time
  clock p = access p λ w. (ok w.now, w)

  abbrev pub update_diag : (Diagnostics → Diagnostics) → Act (Run fl) (Unit {0})
  update_diag f s = (ok tt, record s { diag = f s.diag })

  abbrev pub read_diag : Act (Run fl) Diagnostics
  read_diag s = (ok s.diag, s)
