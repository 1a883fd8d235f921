-- ===== src/Api/Keys.antt =====
-- The API keys: Register (cmd/api/handle_register.go), RevokeKey (handle_revoke.go) and authenticate
-- (auth.go), over the table api_keys of pkg/models/api_key.go and its unique indexes
-- (internal/db/migrations, 000003). SHA-256, the random source, the database's failures and the
-- generated ids are the parameter `Outside`.
pub mod Table
pub mod Lifecycle
use Prim.Native.String
use inwheel_api.Common.{
  ℕ, suc, ◌+◌, String, ◌==◌, Bool, true, false, not, ◌&&◌, ◌||◌, Option, none, some, List, [], ◌∷◌,
  any, keep, map, length, eqb, is_some, if◌then◌else◌,
}
use inwheel_api.Common.Result.{
  Error, message, unique_violation, is_unique_violation, Result, ok, err,
}
use inwheel_api.Models.{Time}
use inwheel_api.Profiles.{Lookup, row, missing, failed}
use inwheel_api.Validation.{FieldError, email}
use inwheel_api.Middleware.RateLimiter.{Rate, RateLimiter, allow}

pub record ApiKey : Type 0 where
  pub id : String
  pub email : String
  pub key_hash : String
  pub created_at : Time
  pub revoked_at : Option Time

-- The table, the limiters of the server, and how many statements ran and keys were generated.
pub record KeyState (Limiter : Type 0) : Type 0 where
  pub api_keys : List ApiKey
  pub statements : ℕ
  pub generated : ℕ
  pub reg_limiter : RateLimiter Limiter
  pub key_limiter : RateLimiter Limiter

pub record Outside : Type 0 where
  -- hex.EncodeToString of sha256.Sum256
  pub sha256_hex : String → String
  -- hex.EncodeToString of the 32 bytes of the n-th rand.Read, or its error
  pub random_hex : ℕ → Result String
  -- whether the n-th statement ends in an error of the connection
  pub fails : ℕ → Bool
  -- gen_random_uuid() in the n-th statement
  pub gen_random_uuid : ℕ → String
  -- fmt's %q
  pub quote : String → String

pub data RegisterResponse : Type 0 where
  -- 201
  created : String → Time → String → RegisterResponse
  -- 400
  invalid_email : List FieldError → RegisterResponse
  -- 409
  conflict : RegisterResponse
  -- 429
  too_many : RegisterResponse

pub data RevokeResponse : Type 0 where
  -- 204
  revoked : RevokeResponse
  -- 401
  not_authorized : RevokeResponse

-- What authenticate returns; beside nil, the id of the key is put into the request's context.
pub data Auth : Type 0 where
  authenticated : String → Auth
  unauthorized : Auth
  rate_limited : Auth
  auth_failed : Error → Auth

unfoldable pub is_active : ApiKey → Bool
is_active k = not (is_some k.revoked_at)

-- First; the unique indexes leave it one row at most.
unfoldable pub first_key : (ApiKey → Bool) → List ApiKey → Lookup ApiKey
first_key p [] = missing
first_key p (k ∷ ks) = let rest = first_key p ks in if p k then row k else rest

-- the unique indexes: key_hash, and email WHERE revoked_at IS NULL
unfoldable pub clashes : ApiKey → ApiKey → Bool
unfolding is_active
clashes k k' = k'.key_hash == k.key_hash || (k'.email == k.email && (is_active k && is_active k'))

unfoldable pub insert_key : ApiKey → List ApiKey → Result (List ApiKey)
unfolding clashes
insert_key k ks = if any (clashes k) ks then err unique_violation else ok (k ∷ ks)

-- key_hash = ? AND revoked_at IS NULL
unfoldable pub has_hash : String → ApiKey → Bool
unfolding is_active
has_hash hash k = k.key_hash == hash && is_active k

-- email = ? AND revoked_at IS NULL
unfoldable pub has_email : String → ApiKey → Bool
unfolding is_active
has_email e k = k.email == e && is_active k

unfoldable pub revoke_row : String → Time → ApiKey → ApiKey
unfolding has_hash
revoke_row hash now k = if has_hash hash k then record k { revoked_at = some now } else k

module _ {Limiter : Type 0} (rate : Rate Limiter) (outside : Outside) where
  open outside use {sha256_hex, random_hex, fails, gen_random_uuid, quote}

  abbrev tick : KeyState Limiter → KeyState Limiter
  tick s = record s { statements = s.statements + 1 }

  -- Where(...).First(&row)
  unfoldable pub lookup_key : (ApiKey → Bool) → KeyState Limiter → Lookup ApiKey × KeyState Limiter
  unfolding first_key
  lookup_key p s =
      (if fails s.statements then failed (message "database") else first_key p s.api_keys, tick s)

  generated_key : Result String → Result String
  generated_key (err e) = err e
  generated_key (ok b) = ok (String.◌++◌ "iwk_" b)

  created_row :
      String
      → ApiKey
      → Result (List ApiKey)
      → KeyState Limiter
      → Result RegisterResponse × KeyState Limiter
  created_row raw k (ok ks) s = (ok (created raw k.created_at k.email), record s { api_keys = ks })
  created_row raw k (err e) s = (if is_unique_violation e then ok conflict else err e, s)

  -- Create(&record)
  create_key :
      Time → String → String → KeyState Limiter → Result RegisterResponse × KeyState Limiter
  unfolding created_row insert_key
  create_key now e raw s =
      let k : ApiKey = record {
        id = gen_random_uuid s.statements;
        email = e;
        key_hash = sha256_hex raw;
        created_at = now;
        revoked_at = none;
      } in
      created_row raw k
        (if fails s.statements then err (message "database") else insert_key k s.api_keys) (tick s)

  after_key :
      Time → String → Result String → KeyState Limiter → Result RegisterResponse × KeyState Limiter
  unfolding create_key
  after_key now e (err x) s = (err x, s)
  after_key now e (ok raw) s = create_key now e raw s

  after_lookup :
      Time → String → Lookup ApiKey × KeyState Limiter → Result RegisterResponse × KeyState Limiter
  unfolding after_key generated_key
  after_lookup now e (row k, s) = (ok conflict, s)
  after_lookup now e (failed x, s) = (err x, s)
  after_lookup now e (missing, s) =
      after_key now e (generated_key (random_hex s.generated))
        (record s { generated = s.generated + 1 })

  after_email :
      Time
      → String
      → List FieldError
      → KeyState Limiter
      → Result RegisterResponse × KeyState Limiter
  unfolding after_lookup lookup_key has_email
  after_email now e (x ∷ xs) s = (ok (invalid_email (x ∷ xs)), s)
  after_email now e [] s = after_lookup now e (lookup_key (has_email e) s)

  -- Register; the request, where the context has one, by its client's address
  unfoldable pub register :
      Time → Option String → String → KeyState Limiter → Result RegisterResponse × KeyState Limiter
  unfolding after_email
  register now none e s = after_email now e (email e) s
  register now (some ip) e s =
      let (allowed, limiter) = allow rate now ip s.reg_limiter in
      let s' = record s { reg_limiter = limiter } in
      let rest = after_email now e (email e) s' in if allowed then rest else (ok too_many, s')

  -- RevokeKey; the header X-API-Key of the request, where the context has one
  unfoldable pub revoke_key :
      Time → Option String → KeyState Limiter → Result RevokeResponse × KeyState Limiter
  unfolding has_hash revoke_row
  revoke_key now none s = (ok not_authorized, s)
  revoke_key now (some raw) s = if fails s.statements then (err (message "database"), tick s) else (
    ok (
        if eqb (length (keep (has_hash (sha256_hex raw)) s.api_keys)) 0
        then not_authorized
        else revoked),
    record (tick s) { api_keys = map (revoke_row (sha256_hex raw) now) s.api_keys },
  )

  found_key : Lookup ApiKey × KeyState Limiter → Auth × KeyState Limiter
  found_key (row k, s) = (authenticated k.id, s)
  found_key (missing, s) = (unauthorized, s)
  found_key (failed e, s) = (auth_failed e, s)

  limited_key : Time → String → KeyState Limiter → Auth × KeyState Limiter
  unfolding found_key lookup_key has_hash
  limited_key now hash s =
      let (allowed, limiter) = allow rate now hash s.key_limiter in
      let s' = record s { key_limiter = limiter } in
      if allowed then found_key (lookup_key (has_hash hash) s') else (rate_limited, s')

  -- authenticate, for a security scheme and the header X-API-Key
  unfoldable pub authenticate : Time → String → String → KeyState Limiter → Auth × KeyState Limiter
  unfolding limited_key
  authenticate now scheme raw s =
      if scheme == "ApiKeyAuth"
      then (if raw == "" then (unauthorized, s) else limited_key now (sha256_hex raw) s)
      else (auth_failed (message (String.◌++◌ "unsupported security scheme " (quote scheme))), s)
