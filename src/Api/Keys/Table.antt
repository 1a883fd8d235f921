-- ===== src/Api/Keys/Table.antt =====
-- What the statements of the handlers do to the table of keys, one by one, so that the handlers of
-- other requests may run between them.
use inwheel_api.Common.{
  ◌+◌, ◌≤◌, String, ◌==◌, eq_iff, ◌≡◌, refl, sym, ◌∙◌, inl, inr, true, false, Option, none, some,
  List, [], ◌∷◌, any, keep, map, length, arith, Bool-cases,
}
use inwheel_api.Common.Result.{Result, ok, err}
use inwheel_api.Models.{Time}
use inwheel_api.Profiles.{Lookup, row, missing, failed}
use inwheel_api.Validation.{FieldError, email}
use inwheel_api.Middleware.RateLimiter.{Rate, allow}
use inwheel_api.Api.Keys.{
  ApiKey, KeyState, Outside, is_active, clashes, insert_key, has_hash, has_email, revoke_row,
  lookup_key, created_row, create_key, after_key, after_lookup, after_email, register, revoke_key,
  found_key, limited_key, authenticate,
}

-- One statement that changes the table.
pub data Step : List ApiKey → List ApiKey → Type 0 where
  inserts : (k : ApiKey) (ks : List ApiKey) → any (clashes k) ks ≡ false → Step ks (k ∷ ks)
  revokes : (hash : String) (now : Time) (ks : List ApiKey) → Step ks (map (revoke_row hash now) ks)

-- Any number of them.
pub data Steps : List ApiKey → List ApiKey → Type 0 where
  stay : (ks : List ApiKey) → Steps ks ks
  after : {ks ks' ks'' : List ApiKey} → Step ks ks' → Steps ks' ks'' → Steps ks ks''

-- Hashes are different, and so are the addresses of active keys.
abbrev pub IsKeyTable : List ApiKey → Type 0
IsKeyTable [] = Unit
IsKeyTable (k ∷ ks) = (any (clashes k) ks ≡ false) × IsKeyTable ks

clashes-revoke_row :
    (hash : String) (now : Time) (k k' : ApiKey)
    → clashes k k' ≡ false
    → clashes (revoke_row hash now k) (revoke_row hash now k') ≡ false
unfolding clashes revoke_row is_active
clashes-revoke_row hash now k k' h = elim (Bool-cases (has_hash hash k)) [
  | inl e ↦ elim (Bool-cases (has_hash hash k')) [
    | inl e' ↦ rw (e, e') (ground arith)
    | inr e' ↦ rw (e, e') (ground arith)
  ]
  | inr e ↦ elim (Bool-cases (has_hash hash k')) [
    | inl e' ↦ rw (e, e') (ground arith)
    | inr e' ↦ rw (e, e') (ground arith)
  ]
]

any-map :
    (hash : String) (now : Time) (k : ApiKey) (ks : List ApiKey)
    → any (clashes k) ks ≡ false
    → any (clashes (revoke_row hash now k)) (map (revoke_row hash now) ks) ≡ false
any-map hash now k [] h = refl
any-map hash now k (k' ∷ ks) h =
    let first : clashes k k' ≡ false = ground arith in
    let rest : any (clashes k) ks ≡ false = ground arith in
    rw (clashes-revoke_row hash now k k' first, any-map hash now k ks rest) refl

map-IsKeyTable :
    (hash : String) (now : Time) (ks : List ApiKey)
    → IsKeyTable ks
    → IsKeyTable (map (revoke_row hash now) ks)
map-IsKeyTable hash now [] h = tt
map-IsKeyTable hash now (k ∷ ks) h = (any-map hash now k ks h.0, map-IsKeyTable hash now ks h.1)

Step-IsKeyTable : {ks ks' : List ApiKey} → Step ks ks' → IsKeyTable ks → IsKeyTable ks'
Step-IsKeyTable (inserts k ks e) h = (e, h)
Step-IsKeyTable (revokes hash now ks) h = map-IsKeyTable hash now ks h

pub Steps-IsKeyTable : {ks ks' : List ApiKey} → Steps ks ks' → IsKeyTable ks → IsKeyTable ks'
Steps-IsKeyTable (stay ks) h = h
Steps-IsKeyTable (after step steps) h = Steps-IsKeyTable steps (Step-IsKeyTable step h)

pub same_text : (a b c : String) → (a == c) ≡ true → (b == c) ≡ true → (b == a) ≡ true
same_text a b c h k = (eq_iff b a).1 ((eq_iff b c).0 k ∙ sym ((eq_iff a c).0 h))

clashes-has_email :
    (e : String) (k k' : ApiKey)
    → has_email e k ≡ true
    → clashes k k' ≡ false
    → has_email e k' ≡ false
unfolding clashes has_email
clashes-has_email e k k' h n = ground (arith, same_text k.email k'.email e)

clashes-has_hash :
    (hash : String) (k k' : ApiKey)
    → has_hash hash k ≡ true
    → clashes k k' ≡ false
    → has_hash hash k' ≡ false
unfolding clashes has_hash
clashes-has_hash hash k k' h n = ground (arith, same_text k.key_hash k'.key_hash hash)

none_has_email :
    (e : String) (k : ApiKey) (ks : List ApiKey)
    → has_email e k ≡ true
    → any (clashes k) ks ≡ false
    → length (keep (has_email e) ks) ≡ 0
none_has_email e k [] h n = refl
none_has_email e k (k' ∷ ks) h n =
    let first : clashes k k' ≡ false = ground arith in
    let rest : any (clashes k) ks ≡ false = ground arith in
    rw (keep, clashes-has_email e k k' h first) (none_has_email e k ks h rest)

none_has_hash :
    (hash : String) (k : ApiKey) (ks : List ApiKey)
    → has_hash hash k ≡ true
    → any (clashes k) ks ≡ false
    → length (keep (has_hash hash) ks) ≡ 0
none_has_hash hash k [] h n = refl
none_has_hash hash k (k' ∷ ks) h n =
    let first : clashes k k' ≡ false = ground arith in
    let rest : any (clashes k) ks ≡ false = ground arith in
    rw (keep, clashes-has_hash hash k k' h first) (none_has_hash hash k ks h rest)

-- At most one active key per address, and per hash.
IsKeyTable-one :
    (ks : List ApiKey)
    → IsKeyTable ks
    → (x : String) → (length (keep (has_email x) ks) ≤ 1) × (length (keep (has_hash x) ks) ≤ 1)
IsKeyTable-one [] h x = (omega arith, omega arith)
IsKeyTable-one (k ∷ ks) h x =
    let ih = IsKeyTable-one ks h.1 x in
    (
      elim (Bool-cases (has_email x k)) [
        | inl e ↦ rw (keep, e) (omega (arith, none_has_email x k ks e h.0))
        | inr e ↦ rw (keep, e) ih.0
      ],
      elim (Bool-cases (has_hash x k)) [
        | inl e ↦ rw (keep, e) (omega (arith, none_has_hash x k ks e h.0))
        | inr e ↦ rw (keep, e) ih.1
      ],
    )

module _ {Limiter : Type 0} (rate : Rate Limiter) (outside : Outside) where
  create_key-Steps :
      (now : Time) (e raw : String) (s : KeyState Limiter)
      → Steps s.api_keys (create_key rate outside now e raw s).1.api_keys
  unfolding create_key created_row insert_key
  create_key-Steps now e raw s =
      let k : ApiKey = record {
        id = outside.gen_random_uuid s.statements;
        email = e;
        key_hash = outside.sha256_hex raw;
        created_at = now;
        revoked_at = none;
      } in
      elim (Bool-cases (outside.fails s.statements)) [
        | inl f ↦ rw f (stay s.api_keys)
        | inr f ↦ elim (Bool-cases (any (clashes k) s.api_keys)) [
          | inl c ↦ rw (f, c) (stay s.api_keys)
          | inr c ↦ rw (f, c) (after (inserts k s.api_keys c) (stay _))
        ]
      ]

  after_key-Steps :
      (now : Time) (e : String) (r : Result String) (s : KeyState Limiter)
      → Steps s.api_keys (after_key rate outside now e r s).1.api_keys
  unfolding after_key
  after_key-Steps now e (err x) s = stay s.api_keys
  after_key-Steps now e (ok raw) s = create_key-Steps now e raw s

  after_lookup-Steps :
      (now : Time) (e : String) (l : Lookup ApiKey) (s : KeyState Limiter)
      → Steps s.api_keys (after_lookup rate outside now e (l, s)).1.api_keys
  unfolding after_lookup
  after_lookup-Steps now e (row k) s = stay s.api_keys
  after_lookup-Steps now e (failed x) s = stay s.api_keys
  after_lookup-Steps now e missing s =
      after_key-Steps now e _ (record s { generated = s.generated + 1 })

  after_email-Steps :
      (now : Time) (e : String) (xs : List FieldError) (s : KeyState Limiter)
      → Steps s.api_keys (after_email rate outside now e xs s).1.api_keys
  unfolding after_email lookup_key
  after_email-Steps now e (x ∷ xs) s = stay s.api_keys
  after_email-Steps now e [] s = after_lookup-Steps now e _ _

  pub register-Steps :
      (now : Time) (ip : Option String) (e : String) (s : KeyState Limiter)
      → Steps s.api_keys (register rate outside now ip e s).1.api_keys
  unfolding register
  register-Steps now none e s = after_email-Steps now e (email e) s
  register-Steps now (some ip) e s = elim (Bool-cases (allow rate now ip s.reg_limiter).0) [
    | inl a ↦ rw a (
        after_email-Steps now e (email e)
          (record s { reg_limiter = (allow rate now ip s.reg_limiter).1 }))
    | inr a ↦ rw a (stay s.api_keys)
  ]

  pub revoke_key-Steps :
      (now : Time) (raw : Option String) (s : KeyState Limiter)
      → Steps s.api_keys (revoke_key rate outside now raw s).1.api_keys
  unfolding revoke_key
  revoke_key-Steps now none s = stay s.api_keys
  revoke_key-Steps now (some raw) s = elim (Bool-cases (outside.fails s.statements)) [
    | inl f ↦ rw f (stay s.api_keys)
    | inr f ↦ rw f (after (revokes (outside.sha256_hex raw) now s.api_keys) (stay _))
  ]

  found_key-table :
      (l : Lookup ApiKey) (s : KeyState Limiter)
      → (found_key rate outside (l, s)).1.api_keys ≡ s.api_keys
  unfolding found_key
  found_key-table (row k) s = refl
  found_key-table missing s = refl
  found_key-table (failed e) s = refl

  limited_key-table :
      (now : Time) (hash : String) (s : KeyState Limiter)
      → (limited_key rate outside now hash s).1.api_keys ≡ s.api_keys
  unfolding limited_key lookup_key
  limited_key-table now hash s = elim (Bool-cases (allow rate now hash s.key_limiter).0) [
    | inl a ↦ rw a (found_key-table _ _)
    | inr a ↦ rw a refl
  ]

  pub authenticate-table :
      (now : Time) (scheme raw : String) (s : KeyState Limiter)
      → (authenticate rate outside now scheme raw s).1.api_keys ≡ s.api_keys
  unfolding authenticate
  authenticate-table now scheme raw s = elim (Bool-cases (scheme == "ApiKeyAuth")) [
    | inl e ↦ elim (Bool-cases (raw == "")) [
      | inl f ↦ rw (e, f) refl
      | inr f ↦ rw (e, f) (limited_key-table now (outside.sha256_hex raw) s)
    ]
    | inr e ↦ rw e refl
  ]

  -- Whatever the requests, the limits, the random source and the failures of the database: where
  -- hashes are different and so are the addresses of the active keys, they still are after Register,
  -- RevokeKey and authenticate, and so no address and no hash has two active keys.
  pub handlers-IsKeyTable :
      (now : Time) (ip : Option String) (e scheme raw : String) (s : KeyState Limiter)
      → IsKeyTable s.api_keys
      → IsKeyTable (register rate outside now ip e s).1.api_keys
        × IsKeyTable (revoke_key rate outside now (some raw) s).1.api_keys
        × IsKeyTable (authenticate rate outside now scheme raw s).1.api_keys
        × ((x : String)
            → (length (keep (has_email x) s.api_keys) ≤ 1)
              × (length (keep (has_hash x) s.api_keys) ≤ 1))
  handlers-IsKeyTable now ip e scheme raw s h = (
    Steps-IsKeyTable (register-Steps now ip e s) h,
    Steps-IsKeyTable (revoke_key-Steps now (some raw) s) h,
    rw (authenticate-table now scheme raw s) h,
    IsKeyTable-one s.api_keys h,
  )
