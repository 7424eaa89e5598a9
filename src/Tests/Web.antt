-- ===== src/Tests/Web.antt =====
-- URL keys, the guard of the fetcher and the rate limit delay, at concrete inputs.
use Prim.Native.String.{String}
use reading_lite_next.Prelude.{
  ℕ, ◌^◌, ◌≤◌, ◌≡◌, refl, false, none, some, List, [], ◌∷◌, pos, arith, str_eq, eq_iff,
  if◌then◌else◌,
}
use reading_lite_next.Prelude.Parse.{cut_prefix, contains_text}
use reading_lite_next.Prelude.Text.{trim_space}
use reading_lite_next.Errors.{Result, ok, err, plain}
use reading_lite_next.Reading.Url.{
  Url, UrlLibrary, url_key, is_refused, is_tracking, canonical_host, has_invalid_port, trim_dot,
  trim_brackets,
}
use reading_lite_next.Reading.Url.Keys.{same, keep, adds, slash, bare, dotted_ported, url_key-same}
use reading_lite_next.Fetch.{Addr, v4, Net, octets}
use reading_lite_next.Httpx.{rate_limit_delay}
use reading_lite_next.Httpx.Delay.{rate_limit_delay-min}

abbrev page : Url
page = record {
  scheme = "http";
  host = "example.com";
  host_name = "example.com";
  port = "";
  has_user = false;
  path = "/a";
  escaped_path = "/a";
  query = ("p", "1" ∷ []) ∷ [];
}

abbrev shared_page : Url
shared_page = record page {
  scheme = "https";
  host = "example.com.:443";
  host_name = "example.com.";
  port = "443";
  path = "/a/";
  escaped_path = "/a/";
  query = ("fbclid", "x" ∷ []) ∷ ("p", "1" ∷ []) ∷ [];
}

abbrev urls : UrlLibrary
urls = record {
  parse = λ raw. ok (if str_eq raw "http://example.com/a?p=1" then page else shared_page);
  to_lower = λ s. s;
  split_host_port = λ s. if str_eq s "example.com.:443" then some ("example.com.", "443") else none;
  join_host_port = λ name port. name;
  encode = λ q. "p=1";
  extension = λ s. "";
}

url_key-same_example :
    url_key urls "https://example.com.:443/a/?fbclid=x&p=1"
    ≡ url_key urls "http://example.com/a?p=1"
unfolding trim_space trim_brackets is_refused has_invalid_port contains_text cut_prefix
    canonical_host trim_dot is_tracking
url_key-same_example =
    url_key-same urls "http://example.com/a?p=1" "https://example.com.:443/a/?fbclid=x&p=1"
      "example.com" page shared_page refl refl refl refl
      (record {
        nonempty = λ e. ground (arith, e, eq_iff "example.com" "");
        colon_free = refl;
        bracket_free = refl;
        dot_free = refl;
      })
      (bare refl refl) (dotted_ported refl) refl
      (slash "/a" (λ e. ground (arith, e, eq_iff "/a" ""))
        (λ e. ground (arith, e, eq_iff "/a" "/")))
      (adds "fbclid" ("x" ∷ []) refl (keep "p" ("1" ∷ []) same))

abbrev public_answer : List Addr
public_answer = v4 (octets 8 8 8 8) ∷ []

abbrev net : Net String
net = record {
  parse_addr = λ s. none;
  trim_brackets = λ s. s;
  addr_text = λ a. "8.8.8.8";
  split_host_port = λ s. ok ("example.com", "443");
  join_host_port = λ host port. host;
  lookup = λ ctx host. ok public_answer;
  parse_url = λ s. ok ("https", "example.com");
  client = λ s. err (plain "offline");
  until = λ s. none;
  size = λ s. 0;
  read = λ n s. s;
}

abbrev answer_of : Result (List Addr) → List Addr
answer_of (ok addrs) = addrs
answer_of (err e) = []

rate_limit_delay-min_example : (n : ℕ) × (rate_limit_delay (λ s. none) "0" ≡ pos n) × (10 ^ 9 ≤ n)
rate_limit_delay-min_example = rate_limit_delay-min (λ s. none) "0"
