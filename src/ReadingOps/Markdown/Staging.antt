-- ===== src/ReadingOps/Markdown/Staging.antt =====
-- The staged blob writes of the markdown import in internal/readingops/service.go.
use Prim.Native.String.{◌++◌}
use text.Mathlib.TextLemmas.{append_assoc, append_cancel_left}
use reading_lite_next.Prelude.{
  String, ◌≡◌, ◌≢◌, refl, sym, ap, ◌∙◌, true, false, Option, none, some, arith, eq_iff, str_eq,
}
use reading_lite_next.Dict
use reading_lite_next.Dict.{Dict, get-put, get-remove}
use reading_lite_next.Errors.{Error, Context, Result, ok, err}
use reading_lite_next.Reading.{Time, Reading}
use reading_lite_next.ReadingOps.Markdown.{
  MarkdownImport, raw_key_of, unused, first_unused, replacement_raw_key, replaced, replace_put,
  discard, replace_failed_with_markdown,
}
use reading_lite_next.ReadingOps.{Service, Ops}
use reading_lite_next.Blobs
use reading_lite_next.Blobs.{Blob}
use reading_lite_next.Store.Memory.{Memory, update_reading, update_found, write_back}
use reading_lite_next.Store.Updates.{update_import, import_change}
use reading_lite_next.Store.Types.{ImportFields}

-- a key by its suffix and extension
key_tail :
    (r : Reading) (base s t : String)
    → raw_key_of r (base ++ s) ≡ raw_key_of r (base ++ t)
    → s ++ ".md" ≡ t ++ ".md"
key_tail r base s t h =
    let a = append_cancel_left "readings/" _ _ h in
    let b = append_cancel_left r.id _ _ a in
    let c = append_cancel_left "/raw-" _ _ b in
    append_cancel_left base _ _ (sym (append_assoc base s ".md") ∙ c ∙ append_assoc base t ".md")

plain_tail :
    (r : Reading) (base t : String)
    → raw_key_of r base ≡ raw_key_of r (base ++ t)
    → ".md" ≡ t ++ ".md"
plain_tail r base t h =
    let a = append_cancel_left "readings/" _ _ h in
    let b = append_cancel_left r.id _ _ a in
    let c = append_cancel_left "/raw-" _ _ b in
    append_cancel_left base _ _ (c ∙ append_assoc base t ".md")

-- Two of a reading's own keys cannot take three different keys.
pub replacement_raw_key-unused :
    (r : Reading) (base : String) (now : Time) → unused r (replacement_raw_key r base now) ≡ true
unfolding replacement_raw_key first_unused unused
replacement_raw_key-unused r base now =
    let k0 = raw_key_of r base in
    let k1 = raw_key_of r (base ++ "-1") in
    let k2 = raw_key_of r (base ++ "-2") in
    let d01 : k0 ≢ k1 =
      λ h. absurd (true_false (ap (λ s. str_eq s ".md") (plain_tail r base "-1" h))) in
    let d02 : k0 ≢ k2 =
      λ h. absurd (true_false (ap (λ s. str_eq s ".md") (plain_tail r base "-2" h))) in
    let d12 : k1 ≢ k2 =
      λ h. absurd (true_false (ap (λ s. str_eq s "-1.md") (key_tail r base "-1" "-2" h))) in
    ground (
      arith,
      d01,
      d02,
      d12,
      eq_iff k0 r.raw_key,
      eq_iff k0 r.content_key,
      eq_iff k1 r.raw_key,
      eq_iff k1 r.content_key,
      eq_iff k2 r.raw_key,
      eq_iff k2 r.content_key,
    )
  where
    true_false : true ≢ false
    true_false h = ground (arith, h)

replaced-err :
    (svc : Service) (r : Reading) (key : String) (upd : Result (Unit {0}) × Memory) (s : Ops)
    (e : Error)
    → ((f : Error) → upd.0 ≡ err f → upd.1 ≡ s.world.store)
    → (replaced svc r key upd s).0 ≡ err e
    → (replaced svc r key upd s).1 ≡ discard key s
unfolding replaced
replaced-err svc r key (ok _, m) s e kept h = absurd (ground (arith, h))
replaced-err svc r key (err f, m) s e kept h =
    ap (λ m'. discard key (record s { world = record s.world { store = m' } })) (kept f refl)

write_back-refused :
    (id : String) (r : Result Reading) (m : Memory) (f : Error)
    → (write_back id r m).0 ≡ err f
    → (write_back id r m).1 ≡ m
write_back-refused id (ok r) m f h = absurd (ground (arith, h))
write_back-refused id (err e) m f h = refl

update_found-refused :
    (id : String) (change : Reading → Result Reading) (r : Option Reading) (m : Memory) (f : Error)
    → (update_found id change r m).0 ≡ err f
    → (update_found id change r m).1 ≡ m
update_found-refused id change none m f h = refl
update_found-refused id change (some r) m f h = write_back-refused id (change r) m f h

update_import-refused :
    (ctx : Context) (id : String) (fields : ImportFields) (wall : Time) (m : Memory) (f : Error)
    → (update_import ctx id fields wall m).0 ≡ err f
    → (update_import ctx id fields wall m).1 ≡ m
unfolding update_import update_reading
update_import-refused (some s) id fields wall m f h = refl
update_import-refused none id fields wall m f h =
    update_found-refused id (import_change fields wall) (Dict.get id m.by_id) m f h

-- a blob under another key, after a put and a delete
staged :
    (key k : String) (b : Blob String) (d : Dict (Blob String))
    → str_eq key k ≡ false
    → Dict.get k (Dict.remove key (Dict.put key b d)) ≡ Dict.get k d
staged key k b d h = ground (arith, h, get-remove key k (Dict.put key b d), get-put key k b d)

replace-kept :
    (svc : Service) (ctx : Context) (r : Reading) (req : MarkdownImport) (s : Ops) (e : Error)
    (k : String)
    → str_eq (replacement_raw_key r (svc.new_id s.issued) s.world.now) k ≡ false
    → (replace_failed_with_markdown svc ctx r req s).0 ≡ err e
    → ((replace_failed_with_markdown svc ctx r req s).1.world ≡ s.world)
      × (Dict.get k (replace_failed_with_markdown svc ctx r req s).1.blobs ≡ Dict.get k s.blobs)
unfolding replace_failed_with_markdown replace_put Blobs.put Blobs.delete
replace-kept svc (some c) r req s e k other h = (refl, refl)
replace-kept svc none r req s e k other h =
    let key = replacement_raw_key r (svc.new_id s.issued) s.world.now in
    let b : Blob String = record { payload = req.markdown; content_type = "text/markdown" } in
    let kept =
      replaced-err svc r key _ _ e (update_import-refused none r.id _ s.world.now s.world.store)
        h in
    (ap (λ t. t.world) kept, ap (λ t. Dict.get k t.blobs) kept ∙ staged key k b s.blobs other)

-- A failed replacement of a failed reading by a markdown source changes neither the store nor the
-- dispatcher, and the blobs that the old row owns are as before.
pub replace_failed_with_markdown-kept :
    (svc : Service) (ctx : Context) (r : Reading) (req : MarkdownImport) (s : Ops) (e : Error)
    → (replace_failed_with_markdown svc ctx r req s).0 ≡ err e
    → ((replace_failed_with_markdown svc ctx r req s).1.world ≡ s.world)
      × (Dict.get r.raw_key (replace_failed_with_markdown svc ctx r req s).1.blobs
          ≡ Dict.get r.raw_key s.blobs)
      × (Dict.get r.content_key (replace_failed_with_markdown svc ctx r req s).1.blobs
          ≡ Dict.get r.content_key s.blobs)
unfolding unused
replace_failed_with_markdown-kept svc ctx r req s e h =
    let key = replacement_raw_key r (svc.new_id s.issued) s.world.now in
    let free = replacement_raw_key-unused r (svc.new_id s.issued) s.world.now in
    let raw = replace-kept svc ctx r req s e r.raw_key (ground (arith, free)) h in
    let content = replace-kept svc ctx r req s e r.content_key (ground (arith, free)) h in
    (raw.0, raw.1, content.1)
