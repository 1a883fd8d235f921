-- ===== src/Middleware/Http/Origins.antt =====
-- Which origins a browser may read the answers from.
use inwheel_api.Common.{
  String, ◌==◌, eq_iff, ◌≡◌, ◌∙◌, refl, inl, inr, none, some, if◌then◌else◌, Bool-cases,
}
use inwheel_api.Common.Dict.{Dict, insert, lookup, lookup-insert}
use inwheel_api.Middleware.Http.{Request, Handler, cors}

abbrev pub allow_origin : String
allow_origin = "Access-Control-Allow-Origin"

-- the headers that CORS sets beside
lookup-vary :
    (headers : Dict String)
    → lookup allow_origin (insert "Vary" "Origin" headers) ≡ lookup allow_origin headers
lookup-vary headers = lookup-insert "Vary" allow_origin "Origin" headers

lookup-named :
    (o : String) (headers : Dict String)
    → lookup allow_origin (insert allow_origin o headers) ≡ some o
lookup-named o headers = lookup-insert allow_origin allow_origin o headers

lookup-preflight :
    (headers : Dict String)
    → lookup allow_origin (
        insert "Access-Control-Allow-Headers" "X-API-Key, Content-Type"
          (insert "Access-Control-Allow-Methods" "GET, POST, PATCH, DELETE" headers))
      ≡ lookup allow_origin headers
lookup-preflight headers =
    lookup-insert "Access-Control-Allow-Headers" allow_origin _ _
    ∙ lookup-insert "Access-Control-Allow-Methods" allow_origin _ headers

-- Before handlers that leave the header alone, the header Access-Control-Allow-Origin is in an answer
-- exactly where an origin is allowed and the request comes from it, and names that origin.
pub cors-allow_origin :
    {S : Type 0}
    → (next : Handler S)
    → ((r : Request) (headers : Dict String) (s : S)
        → lookup allow_origin (next r headers s).0.headers ≡ lookup allow_origin headers)
    → (allowed : String) (r : Request) (headers : Dict String) (s : S)
    → lookup allow_origin headers ≡ none
    → lookup allow_origin (cors allowed next r headers s).0.headers
      ≡ (if allowed == "" then none else (if r.origin == allowed then some allowed else none))
unfolding cors
cors-allow_origin next keeps allowed r headers s h = elim (Bool-cases (allowed == "")) [
  | inl e ↦ rw (e, keeps r headers s) h
  | inr e ↦ elim (Bool-cases (r.origin == allowed)) [
    | inr f ↦ rw (e, f, keeps r (insert "Vary" "Origin" headers) s, lookup-vary headers) h
    | inl f ↦ elim (Bool-cases (r.method == "OPTIONS")) [
      | inl g ↦
          rw (e, f, g, lookup-preflight _, lookup-named r.origin _, (eq_iff r.origin allowed).0 f)
            refl
      | inr g ↦
          rw (e, f, g, keeps r _ s, lookup-named r.origin _, (eq_iff r.origin allowed).0 f) refl
    ]
  ]
]
