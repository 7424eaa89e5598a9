-- ===== src/Http/Public.antt =====
-- internal/httpapi/server.go: what an error response says.
use Prim.Native.String.{String, ◌++◌ as append}
use reading_lite_next.Prelude.{
  ℕ, ◌≡◌, refl, Bool, true, false, List, [], ◌∷◌, ◌||◌, ◌&&◌, ◌==◌, any, arith, str_eq,
  if◌then◌else◌, ltb, contains,
}
use reading_lite_next.Errors.{Error, Result, ok, err, message}
use reading_lite_next.ReadingOps.{Ops, StatusResult}
use reading_lite_next.ReadingOps.Commands.{BookmarkResult}
use reading_lite_next.Http.{
  Request, Response, Headers, Library, App, Payload, error_document, health_document,
}
use reading_lite_next.Http.Query.{first}
use reading_lite_next.Http.Handlers.{write_error, status_answer, accepted_answer, bookmarks_answer}

abbrev pub error_table : List (ℕ × String × String)
error_table =
    (400, "invalid_url", "invalid reading url")
    ∷ (400, "invalid_json", "invalid JSON request body")
    ∷ (400, "invalid_json", "request body must contain one JSON value")
    ∷ (400, "invalid_request", "markdown is required")
    ∷ (400, "invalid_request", "request body is too large")
    ∷ (400, "invalid_request", "bookmarks are required")
    ∷ (400, "invalid_query", "invalid cursor")
    ∷ (401, "unauthorized", "missing or invalid bearer token")
    ∷ (403, "forbidden", "origin is not allowed")
    ∷ (403, "forbidden", "cors preflight is not allowed")
    ∷ (404, "not_found", "not found")
    ∷ (405, "method_not_allowed", "method not allowed")
    ∷ (500, "internal", "internal server error")
    ∷ []

abbrev pub is_listed : ℕ → String → String → Bool
is_listed status code text =
    any (λ e. (e.0 == status) && (str_eq e.1 code && str_eq e.2 text)) error_table

unfoldable pub is_coarse : String → Bool
is_coarse text = contains text ("" ∷ "canceled" ∷ "timeout" ∷ "unavailable" ∷ [])

module _ (lib : Library) where
  -- the refusal of a query quotes the request's own parameter
  abbrev pub quotes : Request → String → Bool
  quotes rq text =
      str_eq text (append "unsupported sort " (lib.quote (first (rq.params "sort"))))
      || str_eq text (append "unsupported status " (lib.quote (first (rq.params "status"))))

  -- the error of a refused query is such a text
  abbrev pub Explained : {A : Type 0} → Request → Result A → Type 0
  Explained rq (ok q) = Unit
  Explained rq (err e) = is_listed 400 "invalid_query" (message e) || quotes rq (message e) ≡ true

  unfoldable pub is_public : Request → ℕ → Payload → Bool
  is_public rq status (error_document code text) =
      is_listed status code text
      || (status == 400) && (str_eq code "invalid_query" && quotes rq text)
  is_public rq status (health_document d) = is_coarse d.postgres.error && is_coarse d.r2.error
  is_public rq status _ = ltb status 400

  pub record IsPublic (rq : Request) (r : Response) : Type 0 where
    pub public : is_public rq r.status r.body ≡ true

  -- before `jsonMuxErrors`
  pub record IsAnswer (rq : Request) (r : Response) : Type 0 where
    pub answer : (r.status == 404) || ((r.status == 405) || is_public rq r.status r.body) ≡ true

  module _ (rq : Request) (hs : Headers) where
    pub write_error-IsAnswer : (e : Error) → IsAnswer rq (write_error hs e)
    unfolding write_error is_public
    write_error-IsAnswer e = record { answer = ground arith }

    pub status_answer-IsAnswer :
        (x : Result StatusResult × Ops) → IsAnswer rq (status_answer hs x).0
    unfolding status_answer is_public
    status_answer-IsAnswer (err e, ops) = write_error-IsAnswer e
    status_answer-IsAnswer (ok r, ops) = record { answer = ground arith }

    pub accepted_answer-IsAnswer :
        (x : Result StatusResult × Ops) → IsAnswer rq (accepted_answer hs x).0
    unfolding accepted_answer is_public
    accepted_answer-IsAnswer (err e, ops) = write_error-IsAnswer e
    accepted_answer-IsAnswer (ok r, ops) = record { answer = refl }

    pub bookmarks_answer-IsAnswer :
        (x : Result (List BookmarkResult) × Ops) → IsAnswer rq (bookmarks_answer hs x).0
    unfolding bookmarks_answer is_public
    bookmarks_answer-IsAnswer (err e, ops) = write_error-IsAnswer e
    bookmarks_answer-IsAnswer (ok r, ops) = record { answer = refl }

    pub one_of :
        (b : Bool) (r v : Response)
        → IsAnswer rq r
        → IsAnswer rq v
        → IsAnswer rq (if b then r else v)
    one_of true r v h k = h
    one_of false r v h k = k

    pub one_pair :
        (b : Bool) (x y : Response × App)
        → IsAnswer rq x.0
        → IsAnswer rq y.0
        → IsAnswer rq (if b then x else y).0
    one_pair true x y h k = h
    one_pair false x y h k = k
