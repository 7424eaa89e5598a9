-- ===== src/Reading/Url.antt =====
-- internal/reading/url.go: the idempotency key of a URL, and its source kind. `net/url` and the
-- splitting of host and port are the operations of `UrlLibrary`; the values of a query are in the
-- order of their keys.
pub mod Keys
use Prim.Native.String.{String, ◌++◌}
use Prim.Native.Char.{Char, code}
use reading_lite_next.Prelude.{
  ℕ, Bool, true, false, not, ◌&&◌, ◌||◌, Option, none, some, List, [], ◌∷◌, ◌==◌, leb, str_eq,
  is_some, contains, if◌then◌else◌,
}
use reading_lite_next.Prelude.Text.{trim_space}
use reading_lite_next.Prelude.Parse.{cut_prefix, contains_text}
use reading_lite_next.Errors.{Error, sentinel, invalid_url, Result, ok, err}
use reading_lite_next.Reading.{SourceKind, web, youtube, reddit, markdown}

abbrev pub Values : Type 0
Values = List (String × List String)

-- `url.URL`: `host_name` and `port` are its methods, `escaped_path` and `query` too
pub record Url : Type 0 where
  pub scheme : String
  pub host : String
  pub host_name : String
  pub port : String
  pub has_user : Bool
  pub path : String
  pub escaped_path : String
  pub query : Values

pub record UrlLibrary : Type 0 where
  pub parse : String → Result Url
  pub to_lower : String → String
  pub split_host_port : String → Option (String × String)
  pub join_host_port : String → String → String
  pub encode : Values → String
  pub extension : String → String  -- `path.Ext`

abbrev pub tracking_params : List String
tracking_params = "fbclid" ∷ "gclid" ∷ "ref" ∷ []

abbrev pub youtube_hosts : List String
youtube_hosts =
    "m.youtube.com" ∷ "music.youtube.com" ∷ "youtube.com" ∷ "www.youtube.com" ∷ "youtu.be" ∷ []

abbrev pub reddit_hosts : List String
reddit_hosts = "old.reddit.com" ∷ "reddit.com" ∷ "www.reddit.com" ∷ []

-- `strings.TrimRight` and `strings.TrimLeft`, of the characters of a set
unfoldable pub trim_right : (Char → Bool) → String → String
trim_right p String.[] = ""
trim_right p (String.◌∷◌ c s) =
    let rest = trim_right p s in if str_eq rest "" && p c then "" else String.◌∷◌ c rest

unfoldable pub trim_left : (Char → Bool) → String → String
trim_left p String.[] = ""
trim_left p (String.◌∷◌ c s) = let rest = trim_left p s in if p c then rest else String.◌∷◌ c s

abbrev is_bracket : Char → Bool
is_bracket c = code c == 91 || code c == 93

abbrev pub is_slash : Char → Bool
is_slash c = code c == 47

-- `strings.Trim(s, "[]")`
unfoldable pub trim_brackets : String → String
unfolding trim_right trim_left
trim_brackets s = trim_right is_bracket (trim_left is_bracket s)

-- `strings.TrimSuffix(s, ".")`
unfoldable pub trim_dot : String → String
trim_dot String.[] = ""
trim_dot (String.◌∷◌ c String.[]) = if code c == 46 then "" else String.◌∷◌ c ""
trim_dot (String.◌∷◌ c (String.◌∷◌ d s)) = String.◌∷◌ c (trim_dot (String.◌∷◌ d s))

abbrev pub default_port : String → String
default_port scheme =
    if str_eq scheme "http" then "80" else if str_eq scheme "https" then "443" else ""

unfoldable pub bracket_ipv6 : String → String
unfolding trim_brackets
bracket_ipv6 host =
    let name = trim_brackets host in if contains_text ":" name then "[" ++ (name ++ "]") else name

unfoldable pub canonical_path : String → String
unfolding trim_right
canonical_path escaped =
    if str_eq escaped "" || str_eq escaped "/" then "/" else trim_right is_slash escaped

unfoldable pub canonical_http_key : String → String → String → String
canonical_http_key host escaped_path raw_query =
    let key = "https://" ++ (host ++ escaped_path) in
    if str_eq raw_query "" then key else key ++ ("?" ++ raw_query)

is_id_char : Char → Bool
is_id_char c =
    let n = code c in
    leb 97 n && leb n 122
    || (leb 65 n && leb n 90 || (leb 48 n && leb n 57 || (n == 45 || n == 95)))

id_chars : String → Bool
unfolding is_id_char
id_chars String.[] = true
id_chars (String.◌∷◌ c s) = is_id_char c && id_chars s

unfoldable pub is_youtube_id : String → Bool
unfolding id_chars
is_youtube_id id = not (str_eq id "") && id_chars id

-- `Values.Get`
unfoldable pub get_value : String → Values → String
get_value key [] = ""
get_value key ((k, []) ∷ rest) = if str_eq k key then "" else get_value key rest
get_value key ((k, v ∷ vs) ∷ rest) = if str_eq k key then v else get_value key rest

-- what follows the last such character
after_last : Char → String → Option String
after_last c String.[] = none
after_last c (String.◌∷◌ d s) =
    let later = after_last c s in
    if is_some later then later else if code d == code c then some s else none

abbrev starts_with_colon : Option String → Bool
starts_with_colon none = false
starts_with_colon (some rest) = is_some (cut_prefix ":" rest)

unfoldable pub has_invalid_port : Url → Bool
unfolding after_last
has_invalid_port u =
    if not (str_eq u.port "")
    then false
    else if is_some (cut_prefix "[" u.host)
    then starts_with_colon (after_last "]" u.host)
    else contains_text ":" u.host

module _ (lib : UrlLibrary) where
  unfoldable pub is_tracking : String → Bool
  is_tracking key =
      let lower = lib.to_lower key in
      contains lower tracking_params || is_some (cut_prefix "utm_" lower)

  unfoldable pub filtered_query : Values → Values
  unfolding is_tracking
  filtered_query [] = []
  filtered_query ((key, values) ∷ rest) =
      let kept = filtered_query rest in if is_tracking key then kept else (key, values) ∷ kept

  host_of : String → Option (String × String) → String → String
  unfolding bracket_ipv6
  host_of scheme none lower = trim_dot lower
  host_of scheme (some (name, port)) lower =
      let normalized = trim_dot name in
      if str_eq port (default_port scheme) && not (str_eq normalized "")
      then bracket_ipv6 normalized
      else lib.join_host_port (trim_brackets normalized) port

  unfoldable pub canonical_host : String → String → String
  unfolding host_of
  canonical_host scheme host =
      let lower = lib.to_lower host in host_of scheme (lib.split_host_port lower) lower

  unfoldable pub watch_key : String → Result String
  watch_key id =
      if is_youtube_id id
      then ok ("https://www.youtube.com/watch?" ++ lib.encode (("v", id ∷ []) ∷ []))
      else err (sentinel invalid_url)

  unfoldable pub youtube_short_key : Url → Result String
  unfolding watch_key
  youtube_short_key u =
      let id = trim_right is_slash (trim_left is_slash u.escaped_path) in
      if contains_text "%" id || contains_text "/" id
      then err (sentinel invalid_url)
      else watch_key id

  unfoldable pub youtube_watch_key : Url → Result String
  unfolding watch_key
  youtube_watch_key u = watch_key (get_value "v" u.query)

  unfoldable pub host_key : String → Url → Result String
  unfolding youtube_short_key youtube_watch_key canonical_http_key
  host_key host u =
      if str_eq host ""
      then err (sentinel invalid_url)
      else if str_eq host "youtu.be"
      then youtube_short_key u
      else if contains host youtube_hosts && str_eq u.path "/watch"
      then youtube_watch_key u
      else ok (
          canonical_http_key host (canonical_path u.escaped_path)
            (lib.encode (filtered_query u.query)))

  abbrev pub is_http : String → Bool
  is_http scheme = str_eq scheme "http" || str_eq scheme "https"

  unfoldable pub is_refused : Url → Bool
  is_refused u =
      str_eq u.scheme ""
      || str_eq u.host ""
      || (str_eq u.host_name ""
          || has_invalid_port u
          || (u.has_user || not (is_http (lib.to_lower u.scheme))))

  unfoldable pub parsed_key : Result Url → Result String
  unfolding host_key canonical_host is_refused
  parsed_key (err e) = err e
  parsed_key (ok u) =
      if is_refused u
      then err (sentinel invalid_url)
      else host_key (canonical_host (lib.to_lower u.scheme) u.host) u

  -- `URLKey`
  unfoldable pub url_key : String → Result String
  unfolding parsed_key
  url_key raw = parsed_key (lib.parse (trim_space raw))

  unfoldable pub is_youtube_video_url : String → Url → Bool
  is_youtube_video_url host u =
      str_eq host "www.youtube.com"
      && (str_eq u.path "/watch" && is_youtube_id (get_value "v" u.query))

  abbrev is_markdown_path : String → Bool
  is_markdown_path path =
      let ext = lib.to_lower (lib.extension path) in str_eq ext ".md" || str_eq ext ".markdown"

  classified : Result Url → SourceKind
  unfolding is_youtube_video_url
  classified (err e) = web
  classified (ok u) =
      let scheme = lib.to_lower u.scheme in
      let host = canonical_host scheme u.host in
      if str_eq scheme "https" && is_youtube_video_url host u
      then youtube
      else if contains host reddit_hosts
      then reddit
      else if is_markdown_path u.path
      then markdown
      else web

  unfoldable pub classify_source : String → SourceKind
  unfolding classified
  classify_source key = classified (lib.parse key)

  video_key : Result Url → Bool
  unfolding is_youtube_video_url
  video_key (err e) = false
  video_key (ok u) =
      let scheme = lib.to_lower u.scheme in
      str_eq scheme "https" && is_youtube_video_url (canonical_host scheme u.host) u

  unfoldable pub is_youtube_video_key : String → Bool
  unfolding video_key
  is_youtube_video_key key = video_key (lib.parse key)
