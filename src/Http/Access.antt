-- ===== src/Http/Access.antt =====
-- internal/httpapi/server.go: what a request without a valid bearer token gets.
use Prim.Native.String.{String}
use reading_lite_next.Prelude.{
  ℕ, ◌≡◌, ◌≢◌, refl, Bool, true, false, some, [], not, contains, ◌⊎◌, inl, inr, arith, eq_iff,
  Option-cases, if◌then◌else◌,
}
use reading_lite_next.Prelude.Parse.{cut_prefix}
use reading_lite_next.Http.{
  Request, Response, Headers, Library, Server, Env, App, Payload, empty, error_document,
}
use reading_lite_next.Http.Middleware.{
  Handler, health_path, authorized, auth, cors, cors_free, preflight, is_cors_preflight,
}
use reading_lite_next.Http.Routes.{serve}

module _ (lib : Library) (srv : Server) (env : Env) where
  -- No token in the `Authorization` header of the request has the digest of the server's token.
  abbrev pub HasNoToken : Request → Type 0
  HasNoToken rq =
      (t : String)
      → cut_prefix "Bearer " (rq.header "Authorization") ≡ some t
      → lib.sha256 t ≢ lib.sha256 srv.token

  unauthorized_request :
      (rq : Request) → rq.path ≢ health_path → HasNoToken rq → authorized lib srv rq ≡ false
  unfolding authorized
  unauthorized_request rq api bad =
      elim (Option-cases (cut_prefix "Bearer " (rq.header "Authorization"))) [
        | inl e ↦ ground (arith, e, api, eq_iff rq.path health_path)
        | inr (t, e) ↦ ground (
          arith,
          e,
          api,
          eq_iff rq.path health_path,
          bad t e,
          eq_iff (lib.sha256 t) (lib.sha256 srv.token),
        )
      ]

  abbrev Answers : Response → ℕ → Payload → Type 0
  Answers r status body = (r.status ≡ status) × (r.body ≡ body)

  -- 401 or 403, with a fixed document; for an allowed preflight 204, with nothing
  abbrev pub IsRefusal : Request → Response → Type 0
  IsRefusal rq r =
      ((is_cors_preflight lib srv rq ≡ true) × Answers r 204 empty)
      ⊎ (Answers r 401 (error_document "unauthorized" "missing or invalid bearer token")
          ⊎ (Answers r 403 (error_document "forbidden" "origin is not allowed")
              ⊎ Answers r 403 (error_document "forbidden" "cors preflight is not allowed")))

  -- two runs of one request, from two states: nothing changes, and the answers are the same refusal
  record Refuses (rq : Request) (s : App) (x y : Response × App) : Type 0 where
    kept : x.1 ≡ s
    same : x.0 ≡ y.0
    refusal : IsRefusal rq x.0

  unchanged :
      (rq : Request) (s s' : App) (r : Response) → IsRefusal rq r → Refuses rq s (r, s) (r, s')
  unchanged rq s s' r h = record { kept = refl; same = refl; refusal = h }

  either :
      (rq : Request) (s : App) (b : Bool) (x y z v : Response × App)
      → (b ≡ true → Refuses rq s x y)
      → Refuses rq s z v
      → Refuses rq s (if b then x else z) (if b then y else v)
  either rq s true x y z v h k = h refl
  either rq s false x y z v h k = k

  auth-Refuses :
      (inner : Handler) (hs : Headers) (rq : Request) (s s' : App)
      → authorized lib srv rq ≡ false
      → Refuses rq s (auth lib srv inner hs rq s) (auth lib srv inner hs rq s')
  unfolding auth
  auth-Refuses inner hs rq s s' bad = rw (bad) (unchanged rq s s' _ (inr (inl (refl, refl))))

  one_of :
      (rq : Request) (b : Bool) (x y : Response)
      → IsRefusal rq x
      → IsRefusal rq y
      → IsRefusal rq (if b then x else y)
  one_of rq true x y h k = h
  one_of rq false x y h k = k

  preflight-Refuses :
      (hs : Headers) (origin : String) (rq : Request) (s s' : App)
      → is_cors_preflight lib srv rq ≡ true
      → Refuses rq s (preflight lib srv hs origin rq, s) (preflight lib srv hs origin rq, s')
  unfolding preflight
  preflight-Refuses hs origin rq s s' asks =
      unchanged rq s s' _
        (one_of rq _ _ _ (inr (inr (inr (refl, refl)))) (inl (asks, (refl, refl))))

  cors-Refuses :
      (inner : Handler) (hs : Headers) (rq : Request) (s s' : App)
      → ((h : Headers) → Refuses rq s (inner h rq s) (inner h rq s'))
      → Refuses rq s (cors lib srv inner hs rq s) (cors lib srv inner hs rq s')
  unfolding cors
  cors-Refuses inner hs rq s s' h =
      either rq s (cors_free lib srv rq) _ _ _ _ (λ e. h _)
        (either rq s (not (contains (rq.header "Origin") srv.cors_allowed_origins)) _ _ _ _
          (λ e. unchanged rq s s' _ (inr (inr (inl (refl, refl)))))
          (either rq s (is_cors_preflight lib srv rq) _ _ _ _ (preflight-Refuses _ _ rq s s')
            (h _)))

  -- A request that is not for the health check, and whose `Authorization` header has no token with
  -- the digest of the server's, changes nothing, whatever the middleware makes of its origin. Its
  -- answer is the same in every state of the server: status 401 or 403 with one of three fixed
  -- documents or, for a CORS preflight only, status 204 with no body.
  pub serve-refused :
      (rq : Request) (s s' : App)
      → rq.path ≢ health_path
      → HasNoToken rq
      → ((serve lib srv env rq s).1 ≡ s)
        × ((serve lib srv env rq s).0 ≡ (serve lib srv env rq s').0)
        × IsRefusal rq (serve lib srv env rq s).0
  unfolding serve
  serve-refused rq s s' api bad =
      let r =
        cors-Refuses _ [] rq s s'
          (λ h. auth-Refuses _ h rq s s' (unauthorized_request rq api bad)) in
      (r.kept, r.same, r.refusal)
