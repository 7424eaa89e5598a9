-- ===== src/Reading/Url/Keys.antt =====
-- internal/reading/url.go: submissions of one page that share a key.
use Prim.Native.String.{String, ◌++◌ as append}
use reading_lite_next.Prelude.{
  Bool, true, false, ◌&&◌, ◌≡◌, ◌≢◌, refl, ap, sym, ◌∙◌, List, [], ◌∷◌, str_eq, arith, eq_iff,
  contains, if◌then◌else◌, none, some,
}
use text.Mathlib.TextLemmas.{
  nil-append, cons-append, append_cancel_right, append-ne-nil_of_right_ne-nil,
}
use reading_lite_next.Prelude.Text.{trim_space}
use reading_lite_next.Prelude.Parse.{contains_text}
use reading_lite_next.Errors.{ok, err, sentinel, invalid_url}
use reading_lite_next.Reading.Url.{
  Url, UrlLibrary, Values, is_tracking, filtered_query, canonical_host, canonical_path, host_key,
  is_refused, parsed_key, url_key, youtube_hosts, trim_dot, trim_brackets, host_of, bracket_ipv6,
  default_port, trim_right, is_slash, canonical_http_key,
}

module _ (lib : UrlLibrary) where
  -- Further parameters, which only track, wherever they stand among the others.
  pub data Tracked : Values → Values → Type 0 where
    same : Tracked [] []
    keep :
        (key : String) (values : List String) {v w : Values}
        → Tracked v w
        → Tracked ((key, values) ∷ v) ((key, values) ∷ w)
    adds :
        (key : String) (values : List String) {v w : Values}
        → is_tracking lib key ≡ true
        → Tracked v w
        → Tracked v ((key, values) ∷ w)

  Tracked-filtered_query :
      {v w : Values} → Tracked v w → filtered_query lib w ≡ filtered_query lib v
  unfolding filtered_query
  Tracked-filtered_query same = refl
  Tracked-filtered_query (keep key values t) = rw (Tracked-filtered_query t) refl
  Tracked-filtered_query (adds key values h t) = rw (h) (Tracked-filtered_query t)

-- The paths differ by a slash at the end at most.
pub data SamePath : String → String → Type 0 where
  equal : (path : String) → SamePath path path
  root : SamePath "" "/"
  slash : (path : String) → path ≢ "" → path ≢ "/" → SamePath path (append path "/")

trim_right-slash :
    (path : String) → trim_right is_slash (append path "/") ≡ trim_right is_slash path
unfolding trim_right
trim_right-slash String.[] = ap (trim_right is_slash) (nil-append "/")
trim_right-slash (String.◌∷◌ c s) =
    ap (trim_right is_slash) (cons-append c s "/")
    ∙ ap (λ rest. if str_eq rest "" && is_slash c then "" else String.◌∷◌ c rest)
        (trim_right-slash s)

SamePath-canonical_path :
    {path longer : String} → SamePath path longer → canonical_path longer ≡ canonical_path path
unfolding canonical_path
SamePath-canonical_path (equal path) = refl
SamePath-canonical_path root = refl
SamePath-canonical_path (slash path some_path not_root) =
    let nonempty : append path "/" ≢ "" =
      append-ne-nil_of_right_ne-nil path (λ e. ground (arith, e, eq_iff "/" "")) in
    let longer : append path "/" ≢ "/" =
      λ e. some_path (append_cancel_right path "" "/" (e ∙ sym (nil-append "/"))) in
    let a : str_eq (append path "/") "" ≡ false =
      ground (arith, nonempty, eq_iff (append path "/") "") in
    let b : str_eq (append path "/") "/" ≡ false =
      ground (arith, longer, eq_iff (append path "/") "/") in
    let c : str_eq path "" ≡ false = ground (arith, some_path, eq_iff path "") in
    let d : str_eq path "/" ≡ false = ground (arith, not_root, eq_iff path "/") in
    rw (a, b, c, d) (trim_right-slash path)

trim_dot-append : (s : String) → trim_dot (append s ".") ≡ s
unfolding trim_dot
trim_dot-append String.[] = ap trim_dot (nil-append ".")
trim_dot-append (String.◌∷◌ c String.[]) =
    ap trim_dot (cons-append c "" "." ∙ ap (String.◌∷◌ c) (nil-append "."))
trim_dot-append (String.◌∷◌ c (String.◌∷◌ d s)) =
    ap trim_dot (cons-append c (String.◌∷◌ d s) "." ∙ ap (String.◌∷◌ c) (cons-append d s "."))
    ∙ ap (String.◌∷◌ c) (ap trim_dot (sym (cons-append d s ".")) ∙ trim_dot-append (String.◌∷◌ d s))

-- A host in its canonical form: it is not empty, and has no colon, no brackets around it and no final
-- dot.
pub record IsPlain (host : String) : Type 0 where
  pub nonempty : host ≢ ""
  pub colon_free : contains_text ":" host ≡ false
  pub bracket_free : trim_brackets host ≡ host
  pub dot_free : trim_dot host ≡ host

module _ (lib : UrlLibrary) where
  -- The ways to write a host: in any case, with a final dot, with the default port of the scheme, or
  -- with both.
  pub data Names (host : String) (u : Url) : Type 0 where
    bare : lib.to_lower u.host ≡ host → lib.split_host_port host ≡ none → Names host u
    dotted :
        lib.to_lower u.host ≡ append host "."
        → lib.split_host_port (append host ".") ≡ none
        → Names host u
    ported :
        lib.split_host_port (lib.to_lower u.host)
          ≡ some (host, default_port (lib.to_lower u.scheme))
        → Names host u
    dotted_ported :
        lib.split_host_port (lib.to_lower u.host)
          ≡ some (append host ".", default_port (lib.to_lower u.scheme))
        → Names host u

  default_host :
      (host name scheme lower : String)
      → IsPlain host
      → trim_dot name ≡ host
      → host_of lib scheme (some (name, default_port scheme)) lower ≡ host
  unfolding host_of bracket_ipv6
  default_host host name scheme lower plain trimmed =
      let some_name : str_eq host "" ≡ false = ground (arith, plain.nonempty, eq_iff host "") in
      let same : str_eq (default_port scheme) (default_port scheme) ≡ true =
        ground (arith, eq_iff (default_port scheme) (default_port scheme)) in
      rw (trimmed, same, some_name, plain.bracket_free, plain.colon_free) refl

  Names-canonical_host :
      (host : String) (u : Url)
      → IsPlain host
      → Names host u
      → canonical_host lib (lib.to_lower u.scheme) u.host ≡ host
  unfolding canonical_host host_of
  Names-canonical_host host u plain (bare lower unsplit) = rw (lower, unsplit) plain.dot_free
  Names-canonical_host host u plain (dotted lower unsplit) =
      rw (lower, unsplit) (trim_dot-append host)
  Names-canonical_host host u plain (ported split) =
      ap (λ o. host_of lib (lib.to_lower u.scheme) o (lib.to_lower u.host)) split
      ∙ default_host host host (lib.to_lower u.scheme) (lib.to_lower u.host) plain plain.dot_free
  Names-canonical_host host u plain (dotted_ported split) =
      ap (λ o. host_of lib (lib.to_lower u.scheme) o (lib.to_lower u.host)) split
      ∙ default_host host (append host ".") (lib.to_lower u.scheme) (lib.to_lower u.host) plain
          (trim_dot-append host)

module _ (lib : UrlLibrary) where
  -- the canonical host of a URL
  abbrev host_name : Url → String
  host_name u = canonical_host lib (lib.to_lower u.scheme) u.host

  page_key :
      (host : String) (u : Url)
      → contains host youtube_hosts ≡ false
      → host_key lib host u ≡ (
          if str_eq host ""
          then err (sentinel invalid_url)
          else ok (
              canonical_http_key host
                (canonical_path u.escaped_path)
                (lib.encode (filtered_query lib u.query))))
  unfolding host_key
  page_key host u other =
      let short : str_eq host "youtu.be" ≡ false =
        ground (arith, other, eq_iff host "youtu.be", eq_iff "youtu.be" host) in
      rw (short, other) refl

  parsed-if :
      (u : Url) (b : Bool)
      → b ≡ false
      → (if b then err (sentinel invalid_url) else host_key lib (host_name u) u)
        ≡ host_key lib (host_name u) u
  parsed-if u true h = absurd (ground (arith, h))
  parsed-if u false h = refl

  same_page :
      (u v : Url) (host : String)
      → SamePath u.escaped_path v.escaped_path
      → Tracked lib u.query v.query
      → (if str_eq host ""
          then err (sentinel invalid_url)
          else ok (
              canonical_http_key host
                (canonical_path v.escaped_path)
                (lib.encode (filtered_query lib v.query))))
        ≡ (if str_eq host ""
            then err (sentinel invalid_url)
            else ok (
                canonical_http_key host
                  (canonical_path u.escaped_path)
                  (lib.encode (filtered_query lib u.query))))
  same_page u v host path query =
      ap
        (λ p.
          if str_eq host ""
          then err (sentinel invalid_url)
          else ok (canonical_http_key host p (lib.encode (filtered_query lib v.query))))
        (SamePath-canonical_path path)
      ∙ ap
          (λ q.
            if str_eq host ""
            then err (sentinel invalid_url)
            else ok (canonical_http_key host (canonical_path u.escaped_path) (lib.encode q)))
          (Tracked-filtered_query lib query)

  parsed_key-host_key :
      (raw : String) (u : Url)
      → lib.parse (trim_space raw) ≡ ok u
      → is_refused lib u ≡ false
      → url_key lib raw ≡ host_key lib (host_name u) u
  unfolding url_key parsed_key
  parsed_key-host_key raw u parsed sound =
      ap (parsed_key lib) parsed ∙ parsed-if u (is_refused lib u) sound

  -- Two submissions of one page share a key, even if one uses the other of http and https, writes the
  -- host in another case, with a final dot or with the default port of its scheme, and if the second
  -- ends its path with one more slash and has further tracking parameters anywhere in its query. The
  -- host has no colon and no brackets, and is not one of YouTube's.
  pub url_key-same :
      (raw again host : String) (u v : Url)
      → lib.parse (trim_space raw) ≡ ok u
      → lib.parse (trim_space again) ≡ ok v
      → is_refused lib u ≡ false
      → is_refused lib v ≡ false
      → IsPlain host
      → Names lib host u
      → Names lib host v
      → contains host youtube_hosts ≡ false
      → SamePath u.escaped_path v.escaped_path
      → Tracked lib u.query v.query
      → url_key lib again ≡ url_key lib raw
  url_key-same raw again host u v parsed parsed' sound sound' plain at at' other path query =
      parsed_key-host_key again v parsed' sound'
      ∙ (ap (λ h. host_key lib h v) (Names-canonical_host lib host v plain at')
          ∙ (page_key host v other
              ∙ (same_page u v host path query
                  ∙ (sym (page_key host u other)
                      ∙ (ap (λ h. host_key lib h u) (sym (Names-canonical_host lib host u plain at))
                          ∙ sym (parsed_key-host_key raw u parsed sound))))))
