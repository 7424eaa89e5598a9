-- ===== src/Pipeline/Process/Keeps.antt =====
-- What the steps of the pipeline in internal/pipeline/pipeline.go leave true of the shared state,
-- whatever other threads do that leaves it true as well.
use reading_lite_next.Prelude.{
  arith, String, ◌≡◌, refl, Option, none, some, List, [], ◌∷◌, Bool-cases, Option-cases, inl, inr,
  str_eq, ◌&&◌,
}
use reading_lite_next.Dict
use reading_lite_next.Errors.{Context, Result, ok, err}
use reading_lite_next.Effects.{Act, next, ◌>>=◌, try, After, Meets}
use reading_lite_next.Reading.{Reading, same_source, markdown, youtube}
use reading_lite_next.Store.Types.{ContentFields, TagFields}
use reading_lite_next.Store.Memory.{Memory, get_by_id as get_row}
use reading_lite_next.Store.Updates.{update_content, replace_tags}
use reading_lite_next.Blobs
use reading_lite_next.Vector
use reading_lite_next.Vector.Similar.{Floats, Match}
use reading_lite_next.Pipeline.{
  Article, Summary, SimilarItem, Content, Shared, Run, Pipeline, access, ask,
}
use reading_lite_next.Pipeline.Fields.{raw_key, content_fields, summary_input}
use reading_lite_next.Pipeline.Process.{
  timed, get_by_id, put_blob, acquire, acquire_web, acquire_markdown, acquire_fetched,
  acquire_youtube, hydrate_next, hydrate, index, vector_of, upsert_vector, write_content,
  write_tags, reuse, tag_fields,
}

get_row-read : (ctx : Context) (id : String) (m : Memory) → (get_row ctx id m).1 ≡ m
unfolding get_row
get_row-read (some s) id m = refl
get_row-read none id m = elim (Option-cases (Dict.get id m.by_id)) [
  | inl absent ↦ rw (absent, get_row) refl
  | inr (r, at) ↦ rw (at, get_row) refl
]

-- the row that is read is the stored one
pub get_row-same :
    (ctx : Context) (id : String) (m : Memory) (r r' : Reading)
    → Dict.get id m.by_id ≡ some r
    → (get_row ctx id m).0 ≡ ok r'
    → r' ≡ r
unfolding get_row
get_row-same (some c) id m r r' at h = absurd (ground (arith, h))
get_row-same none id m r r' at h = ground (arith, at, h)

module _ {fl : Floats} (p : Pipeline fl) (I : Shared fl → Type 0) where
  pub record Keeps {ℓ} {A : Type ℓ} (m : Act (Run fl) A) : Type ℓ where
    pub kept : (s : Run fl) → I s.shared → I (m s).1.shared

  -- the writes that keep it
  abbrev pub IsOpen : Type 0
  IsOpen = (w : Shared fl) → I w → I (p.others w)

  abbrev pub AdmitsBlob : String → Type 0
  AdmitsBlob key =
      (w : Shared fl) (body kind : String)
      → I w
      → I (record w { blobs = (Blobs.put w.ctx key body kind w.blobs).1 })

  abbrev pub AdmitsVector : Reading → Type 0
  AdmitsVector r =
      (w : Shared fl) (vec : List fl.F32)
      → I w
      → I (record w { vectors = (Vector.upsert w.ctx r.id vec r.started_at w.vectors).1 })

  abbrev pub AdmitsContent : Reading → String → Type 0
  AdmitsContent r key =
      (w : Shared fl) (f : ContentFields)
      → f.expected_started_at ≡ r.started_at
      → f.content_key ≡ key
      → I w
      → I (record w { store = (update_content w.ctx r.id f w.now w.store).1 })

  abbrev pub AdmitsTags : Reading → Type 0
  AdmitsTags r =
      (w : Shared fl) (tags : Option (List String)) (f : TagFields)
      → f.expected_started_at ≡ r.started_at
      → I w
      → I (record w { store = (replace_tags w.ctx r.id tags f w.now w.store).1 })

  next-kept {ℓ κ} :
      {A : Type ℓ} {B : Type κ} (f : A → Act (Run fl) B) (x : Result A × Run fl)
      → ((a : A) → Keeps (f a))
      → I x.1.shared
      → I (next f x).1.shared
  next-kept f (ok a, s) hf h = (hf a).kept s h
  next-kept f (err e, s) hf h = h

  pub >>=-Keeps {ℓ κ} :
      {A : Type ℓ} {B : Type κ} {m : Act (Run fl) A} {f : A → Act (Run fl) B}
      → Keeps m
      → ((a : A) → Keeps (f a))
      → Keeps (m >>= f)
  unfolding ◌>>=◌
  >>=-Keeps {m = m} {f} hm hf = record { kept = λ s h. next-kept f (m s) hf (hm.kept s h) }

  kept-After {ℓ} :
      {A : Type ℓ} (x : Result A × Run fl)
      → I x.1.shared
      → After (λ (_ : A) (s : Run fl). I s.shared) (λ (s : Run fl). I s.shared) x
  kept-After (ok a, s) h = h
  kept-After (err e, s) h = h

  pub Keeps-Meets {ℓ} :
      {A : Type ℓ} {m : Act (Run fl) A}
      → Keeps m
      → Meets
          (λ (s : Run fl). I s.shared)
          m
          (λ _ (s : Run fl). I s.shared)
          (λ (s : Run fl). I s.shared)
  Keeps-Meets {m = m} keeps = record { met = λ s h. kept-After (m s) (keeps.kept s h) }

  -- a step that reads and writes nothing shared
  pub local-Keeps {ℓ} :
      {A : Type ℓ} {m : Act (Run fl) A} → ((s : Run fl) → (m s).1.shared ≡ s.shared) → Keeps m
  local-Keeps same = record { kept = λ s h. rw (same s) h }

  module _ (open' : IsOpen) where
    pub access-Keeps {ℓ} :
        {A : Type ℓ} (op : Act (Shared fl) A)
        → ((w : Shared fl) → I w → I (op w).1)
        → Keeps (access p op)
    access-Keeps op keeps = record { kept = λ s h. keeps _ (open' s.shared h) }

    -- a step that reads what is shared after the others
    pub reading-Keeps {ℓ} :
        {A : Type ℓ} {m : Act (Run fl) A}
        → ((s : Run fl) → (m s).1.shared ≡ p.others s.shared)
        → Keeps m
    reading-Keeps same = record { kept = λ s h. rw (same s) (open' s.shared h) }

    pub timed-Keeps {ℓ} :
        {A : Type ℓ} (key : String) {m : Act (Run fl) A} → Keeps m → Keeps (timed p key m)
    unfolding timed
    timed-Keeps key keeps = record { kept = λ s h. open' _ (keeps.kept _ (open' s.shared h)) }

    pub put_blob-Keeps :
        (key body kind : String) → AdmitsBlob key → Keeps (put_blob p key body kind)
    put_blob-Keeps key body kind safe = record { kept = λ s h. safe _ body kind (open' s.shared h) }

    acquire_fetched-Keeps : (r : Reading) → AdmitsBlob (raw_key r) → Keeps (acquire_fetched p r)
    unfolding acquire_fetched
    acquire_fetched-Keeps r safe = >>=-Keeps (reading-Keeps λ s. refl) λ res.
        >>=-Keeps (local-Keeps λ s. refl) λ _. >>=-Keeps (reading-Keeps λ s. refl) λ article.
          >>=-Keeps (local-Keeps λ s. refl) λ _.
            >>=-Keeps (put_blob-Keeps (raw_key r) res.body res.content_type safe)
              λ _. local-Keeps λ s. refl

    acquire_youtube-Keeps :
        (extract : Shared fl → String → Result Article) (r : Reading)
        → Keeps (acquire_youtube p extract r)
    unfolding acquire_youtube
    acquire_youtube-Keeps extract r =
        >>=-Keeps (reading-Keeps λ s. refl)
          λ article. >>=-Keeps (local-Keeps λ s. refl) λ _. local-Keeps λ s. refl

    acquire_web-Keeps :
        (youtube' : Option (Shared fl → String → Result Article)) (r : Reading)
        → AdmitsBlob (raw_key r)
        → Keeps (acquire_web p youtube' r)
    unfolding acquire_web
    acquire_web-Keeps none r safe = acquire_fetched-Keeps r safe
    acquire_web-Keeps (some extract) r safe =
        elim (Bool-cases (same_source r.source_kind youtube && p.is_youtube_video_key r.url_key)) [
          | inl video ↦ rw video (acquire_youtube-Keeps extract r)
          | inr page ↦ rw page (acquire_fetched-Keeps r safe)
        ]

    acquire_markdown-Keeps : (r : Reading) → Keeps (acquire_markdown p r)
    unfolding acquire_markdown
    acquire_markdown-Keeps r = elim (Bool-cases (str_eq r.raw_key "")) [
      | inl unset ↦ rw unset (local-Keeps λ s. refl)
      | inr key ↦ rw key (>>=-Keeps (reading-Keeps λ s. refl) λ blob. local-Keeps λ s. refl)
    ]

    pub acquire-Keeps : (r : Reading) → AdmitsBlob (raw_key r) → Keeps (acquire p r)
    unfolding acquire
    acquire-Keeps r safe = elim (Bool-cases (same_source r.source_kind markdown)) [
      | inl body ↦ rw body (acquire_markdown-Keeps r)
      | inr page ↦ rw page (acquire_web-Keeps p.youtube r safe)
    ]

    pub get_by_id-Keeps : (id : String) → Keeps (get_by_id p id)
    get_by_id-Keeps id = record {
      kept =
          λ s h. let w = p.others s.shared in rw (get_row-read w.ctx id w.store) (open' s.shared h);
    }

    tried-Keeps {ℓ} : {A : Type ℓ} {m : Act (Run fl) A} → Keeps m → Keeps (try m)
    tried-Keeps keeps = record { kept = keeps.kept }

    hydrate_next-Keeps :
        (m : Match fl) (later : Act (Run fl) (List (SimilarItem fl)))
        → Keeps later
        → Keeps (hydrate_next p m later)
    unfolding hydrate_next
    hydrate_next-Keeps m later keeps =
        >>=-Keeps {m = try (get_by_id p m.id)} (tried-Keeps (get_by_id-Keeps m.id))
          λ res. >>=-Keeps keeps λ items. local-Keeps λ s. refl

    pub hydrate-Keeps : (ms : List (Match fl)) → Keeps (hydrate p ms)
    unfolding hydrate
    hydrate-Keeps [] = local-Keeps λ s. refl
    hydrate-Keeps (m ∷ ms) = hydrate_next-Keeps m (hydrate p ms) (hydrate-Keeps ms)

    pub index-Keeps :
        (r : Reading) (c : Content fl) → AdmitsBlob c.content_key → Keeps (index p r c)
    unfolding index
    index-Keeps r c safe = >>=-Keeps (reading-Keeps λ s. refl) λ vec.
        >>=-Keeps (reading-Keeps λ s. refl) λ matches. >>=-Keeps (hydrate-Keeps matches) λ similar.
          >>=-Keeps (local-Keeps λ s. refl) λ _. >>=-Keeps (local-Keeps λ s. refl) λ json.
            >>=-Keeps (put_blob-Keeps c.content_key c.markdown "text/markdown" safe)
              λ _. local-Keeps λ s. refl

    pub vector_of-Keeps : (c : Content fl) (vec : List fl.F32) → Keeps (vector_of p c vec)
    unfolding vector_of
    vector_of-Keeps c [] = reading-Keeps λ s. refl
    vector_of-Keeps c (x ∷ xs) = local-Keeps λ s. refl

    pub upsert_vector-Keeps :
        (r : Reading) (c : Content fl) → AdmitsVector r → Keeps (upsert_vector p r c)
    unfolding upsert_vector
    upsert_vector-Keeps r c safe =
        >>=-Keeps (vector_of-Keeps c c.vec)
          λ vec. record { kept = λ s h. safe _ vec (open' s.shared h) }

    pub write_content-Keeps :
        (r : Reading) (c : Content fl) (sum : Summary)
        → AdmitsContent r c.content_key
        → Keeps (write_content p r c sum)
    unfolding write_content content_fields
    write_content-Keeps r c sum safe = >>=-Keeps (reading-Keeps λ s. refl) λ now.
        >>=-Keeps (local-Keeps λ s. refl) λ diag. record {
          kept = λ s h. safe _ (content_fields p r c diag sum now) refl refl (open' s.shared h);
        }

    pub write_tags-Keeps : (r : Reading) (sum : Summary) → AdmitsTags r → Keeps (write_tags p r sum)
    unfolding write_tags
    write_tags-Keeps r sum safe =
        >>=-Keeps (reading-Keeps λ s. refl) λ now. record {
          kept = λ s h. safe _ sum.tags (tag_fields p r now) refl (open' s.shared h);
        }

    pub reuse-Keeps : (r : Reading) → Keeps (reuse p r)
    unfolding reuse
    reuse-Keeps r =
        >>=-Keeps (reading-Keeps λ s. refl)
          λ blob. >>=-Keeps (local-Keeps λ s. refl) λ _. local-Keeps λ s. refl

    pub summarize-Keeps :
        (r : Reading) (c : Content fl)
        → Keeps (timed p "summarize" (ask p p.summarize (summary_input r c)))
    summarize-Keeps r c =
        timed-Keeps "summarize" {m = ask p p.summarize (summary_input r c)}
          (reading-Keeps λ s. refl)
