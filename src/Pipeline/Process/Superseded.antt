-- ===== src/Pipeline/Process/Superseded.antt =====
-- A run in internal/pipeline/pipeline.go whose reading was taken from it.
use mathlib.Core.Path.{subst}
use reading_lite_next.Prelude.{
  ap, ◌∙◌, sym, String, ◌≡◌, ◌≢◌, refl, true, false, none, some, List, arith, Option-cases, inl,
  inr,
}
use reading_lite_next.Dict
use reading_lite_next.Dict.{Dict}
use reading_lite_next.Errors.{Context, sentinel, not_found, conflict, Error, Result, ok, err}
use reading_lite_next.Effects.{◌>>=◌, ◌>>◌, next, Act, After, Meets, >>=-Meets}
use reading_lite_next.Reading.{Time, Reading}
use reading_lite_next.Store.Types.{ContentFields}
use reading_lite_next.Store.Memory.{Memory, update_reading}
use reading_lite_next.Store.Updates.{update_content, content_change}
use reading_lite_next.Store.Fence.{IsSuperseded}
use reading_lite_next.Vector.{Entry}
use reading_lite_next.Vector.Similar.{Floats}
use reading_lite_next.Pipeline.{Content, Summary, no_summary, Email, Shared, Run, Pipeline}
use reading_lite_next.Pipeline.Fields.{content_fields}
use reading_lite_next.Pipeline.Process.{
  timed, write_content, start, acquire, index, upsert_vector, summarize_and_finish,
}
use reading_lite_next.Pipeline.Process.Keeps.{Keeps-Meets, reading-Keeps, local-Keeps}

-- refused, with the store as it was
refused_content :
    (ctx : Context) (id : String) (t wall : Time) (f : ContentFields) (m : Memory)
    → f.expected_started_at ≡ some t
    → IsSuperseded id t m
    → (e : Error) × (update_content ctx id f wall m ≡ (err e, m))
unfolding update_content update_reading content_change
refused_content (some s) id t wall f m ef gone = (sentinel s, refl)
refused_content none id t wall f m ef gone = elim (Option-cases (Dict.get id m.by_id)) [
  | inl absent ↦ (sentinel not_found, ground arith)
  | inr (r, at) ↦ let out = gone r at in (sentinel conflict, ground arith)
]

module _ {fl : Floats} (p : Pipeline fl) (r : Reading) (t : Time) (own : r.started_at ≡ some t)
    (J : Memory → Dict (Entry fl.F32) → List Email → Type 0) where
  abbrev pub Kept : Shared fl → Type 0
  Kept w = J w.store w.vectors w.sent

  -- after an error only
  abbrev Refused : Run fl → Type 0
  Refused s = Kept s.shared

  abbrev Never {ℓ} : {A : Type ℓ} → A → Run fl → Type 0
  Never _ _ = true ≡ false

  module _ (open' : (w : Shared fl) → Kept w → Kept (p.others w))
      (gone : (w : Shared fl) → Kept w → IsSuperseded r.id t w.store) where
    write_content-Refused :
        (c : Content fl) (sum : Summary) → Meets Refused (write_content p r c sum) Never Refused
    unfolding write_content content_fields
    write_content-Refused c sum =
        >>=-Meets (λ _. Refused) (Keeps-Meets p Kept (reading-Keeps p Kept open' λ s. refl))
          λ now.
            >>=-Meets (λ _. Refused) (Keeps-Meets p Kept (local-Keeps p Kept λ s. refl))
              λ diag. record {
                met = λ s h.
                    let w = p.others s.shared in
                    let k = open' s.shared h in
                    let f = content_fields p r c diag sum now in
                    let (e, refusal) =
                      refused_content w.ctx r.id t w.now f w.store own (gone w k) in
                    rw refusal k;
              }

    timed-Refused :
        (key : String) (m : Act (Run fl) (Unit {0}))
        → Meets Refused m Never Refused
        → Meets Refused (timed p key m) Never Refused
    unfolding timed
    timed-Refused key m h = record { met = λ s k. stopped (m _) _ (h.met _ (open' s.shared k)) }
      where
        stopped :
            (x : Result (Unit {0}) × Run fl) (d : _)
            → After Never Refused x
            → After Never Refused (x.0, record { shared = p.others x.1.shared; diag = d })
        stopped (ok a, s) d k = k
        stopped (err e, s) d k = open' _ k

    -- what is left of a fresh run when it has its content
    checkpoint_on : Content fl → Act (Run fl) (Unit {0})
    checkpoint_on c = do
      timed p "checkpoint" (write_content p r c no_summary)
      timed p "vector_upsert" (upsert_vector p r c)
      summarize_and_finish p r c

    checkpoint-Refused : (c : Content fl) → Meets Refused (checkpoint_on c) Never Refused
    unfolding checkpoint_on
    checkpoint-Refused c =
        >>=-Meets Never
          (timed-Refused "checkpoint" (write_content p r c no_summary)
            (write_content-Refused c no_summary))
          λ _. record { met = λ s h. absurd (ground (arith, h)) }

    ended :
        (x : Result (Unit {0}) × Run fl) → After Never Refused x → (x.0 ≢ ok tt) × Kept x.1.shared
    ended (ok tt, s) h = absurd (ground (arith, h))
    ended (err e, s) h = (λ same. absurd (ground (arith, same)), h)

    -- A fresh run whose reading is taken from it while it fetches, extracts or embeds, by whatever
    -- other threads do, and is not given back, does not end well, and of its own it changes nothing
    -- more in the store and the index and sends nothing: what is true of these when it has its
    -- content, and other threads keep true, stays true.
    pub superseded_start_refused :
        (s s1 s2 : Run fl) (acquired c : Content fl)
        → timed p "acquire" (acquire p r) s ≡ (ok acquired, s1)
        → timed p "index" (index p r acquired) s1 ≡ (ok c, s2)
        → Kept s2.shared
        → ((start p r s).0 ≢ ok tt) × Kept (start p r s).1.shared
    unfolding start checkpoint_on ◌>>=◌
    superseded_start_refused s s1 s2 acquired c e1 e2 k =
        let same : start p r s ≡ checkpoint_on c s2 = ap (next _) e1 ∙ ap (next _) e2 in
        subst (λ x. (x.0 ≢ ok tt) × Kept x.1.shared) (sym same)
          (ended (checkpoint_on c s2) ((checkpoint-Refused c).met s2 k))
