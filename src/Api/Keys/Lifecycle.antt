-- ===== src/Api/Keys/Lifecycle.antt =====
-- A key from its registration to its revocation.
use Prim.Native.String
use Prim.Native.String.append
use inwheel_api.Common.{
  String, ◌==◌, eq_iff, ◌≡◌, ◌≢◌, refl, sym, ap, ◌∙◌, inl, inr, Bool, true, false, Option, none,
  some, List, [], ◌∷◌, All, any, keep, map, length, eqb, arith, Bool-cases,
}
use inwheel_api.Common.Result.{Result, ok, err, is_unique_violation}
use inwheel_api.Models.{Time}
use inwheel_api.Profiles.{Lookup, row, missing, failed}
use inwheel_api.Validation.{FieldError}
use inwheel_api.Middleware.RateLimiter.{Rate, allow}
use inwheel_api.Api.Keys.{
  ApiKey, KeyState, Outside, created, revoked, authenticated, is_active, first_key, clashes,
  insert_key, has_hash, revoke_row, lookup_key, generated_key, created_row, create_key, after_key,
  after_lookup, after_email, register, revoke_key, found_key, limited_key, authenticate,
}
use inwheel_api.Api.Keys.Table.{Step, inserts, revokes, Steps, stay, after, same_text}

-- A hash that is in the table, and not of an active key.
abbrev IsGone : String → List ApiKey → Type 0
IsGone hash ks = (any (λ k. k.key_hash == hash) ks ≡ true) × All (λ k. has_hash hash k ≡ false) ks

fresh_hash :
    (hash : String) (k : ApiKey) (ks : List ApiKey)
    → any (λ k. k.key_hash == hash) ks ≡ true
    → any (clashes k) ks ≡ false
    → (k.key_hash == hash) ≡ false
unfolding clashes
fresh_hash hash k [] h n = cc
fresh_hash hash k (k' ∷ ks) h n =
    ground (arith, same_text k.key_hash k'.key_hash hash, fresh_hash hash k ks)

any-revoke_row :
    (hash hash' : String) (now : Time) (ks : List ApiKey)
    → any (λ k. k.key_hash == hash) (map (revoke_row hash' now) ks)
      ≡ any (λ k. k.key_hash == hash) ks
unfolding revoke_row
any-revoke_row hash hash' now [] = refl
any-revoke_row hash hash' now (k ∷ ks) = elim (Bool-cases (has_hash hash' k)) [
  | inl e ↦ rw (e, any-revoke_row hash hash' now ks) refl
  | inr e ↦ rw (e, any-revoke_row hash hash' now ks) refl
]

has_hash-revoke_row :
    (hash hash' : String) (now : Time) (k : ApiKey)
    → has_hash hash k ≡ false
    → has_hash hash (revoke_row hash' now k) ≡ false
unfolding revoke_row has_hash is_active
has_hash-revoke_row hash hash' now k h = elim (Bool-cases (has_hash hash' k)) [
  | inl e ↦ rw e (ground arith)
  | inr e ↦ rw e h
]

All-revoke_row :
    (hash hash' : String) (now : Time) (ks : List ApiKey)
    → All (λ k. has_hash hash k ≡ false) ks
    → All (λ k. has_hash hash k ≡ false) (map (revoke_row hash' now) ks)
All-revoke_row hash hash' now [] h = tt
All-revoke_row hash hash' now (k ∷ ks) h =
    (has_hash-revoke_row hash hash' now k h.0, All-revoke_row hash hash' now ks h.1)

Step-IsGone :
    (hash : String) {ks ks' : List ApiKey} → Step ks ks' → IsGone hash ks → IsGone hash ks'
unfolding has_hash
Step-IsGone hash (inserts k ks e) (h, all) =
    let new = fresh_hash hash k ks h e in (rw (new, h) refl, (rw new refl, all))
Step-IsGone hash (revokes hash' now ks) (h, all) =
    (any-revoke_row hash hash' now ks ∙ h, All-revoke_row hash hash' now ks all)

Steps-IsGone :
    (hash : String) {ks ks' : List ApiKey} → Steps ks ks' → IsGone hash ks → IsGone hash ks'
Steps-IsGone hash (stay ks) h = h
Steps-IsGone hash (after step steps) h = Steps-IsGone hash steps (Step-IsGone hash step h)

first_key_none :
    (p : ApiKey → Bool) (ks : List ApiKey) → All (λ k. p k ≡ false) ks → first_key p ks ≡ missing
unfolding first_key
first_key_none p [] h = refl
first_key_none p (k ∷ ks) h = rw (h.0, first_key_none p ks h.1) refl

-- after the update, no row of the hash is active
All-revoke_row_own :
    (hash : String) (now : Time) (ks : List ApiKey)
    → All (λ k. has_hash hash k ≡ false) (map (revoke_row hash now) ks)
unfolding revoke_row is_active has_hash
All-revoke_row_own hash now [] = tt
All-revoke_row_own hash now (k ∷ ks) = elim (Bool-cases (has_hash hash k)) [
  | inl e ↦ (rw e (ground arith), All-revoke_row_own hash now ks)
  | inr e ↦ (rw e e, All-revoke_row_own hash now ks)
]

some_row :
    (hash : String) (ks : List ApiKey)
    → eqb (length (keep (has_hash hash) ks)) 0 ≡ false
    → any (λ k. k.key_hash == hash) ks ≡ true
unfolding has_hash
some_row hash [] h = cc
some_row hash (k ∷ ks) h = elim (Bool-cases (has_hash hash k)) [
  | inl e ↦ ground arith
  | inr e ↦
      let rest : any (λ k'. k'.key_hash == hash) ks ≡ true = some_row hash ks (rw (keep, e) at h) in
      ground arith
]

module _ {Limiter : Type 0} (rate : Rate Limiter) (outside : Outside) where
  revoke_key-IsGone :
      (now : Time) (raw : String) (s : KeyState Limiter)
      → (revoke_key rate outside now (some raw) s).0 ≡ ok revoked
      → IsGone (outside.sha256_hex raw) (revoke_key rate outside now (some raw) s).1.api_keys
  unfolding revoke_key
  revoke_key-IsGone now raw s h =
      let hash = outside.sha256_hex raw in
      elim (Bool-cases (outside.fails s.statements)) [
        | inl f ↦ let k = rw f at h in absurd cc
        | inr f ↦ elim (Bool-cases (eqb (length (keep (has_hash hash) s.api_keys)) 0)) [
          | inl n ↦ let k = rw (f, n) at h in absurd cc
          | inr n ↦ rw f (
            any-revoke_row hash hash now s.api_keys ∙ some_row hash s.api_keys n,
            All-revoke_row_own hash now s.api_keys,
          )
        ]
      ]

  gone_unauthorized :
      (now : Time) (scheme raw : String) (s : KeyState Limiter) (id : String)
      → IsGone (outside.sha256_hex raw) s.api_keys
      → (authenticate rate outside now scheme raw s).0 ≢ authenticated id
  unfolding authenticate limited_key lookup_key found_key
  gone_unauthorized now scheme raw s id g h =
      let hash = outside.sha256_hex raw in
      elim (Bool-cases (scheme == "ApiKeyAuth")) [
        | inr e ↦ let k = rw e at h in cc
        | inl e ↦ elim (Bool-cases (raw == "")) [
          | inl f ↦ let k = rw (e, f) at h in cc
          | inr f ↦ elim (Bool-cases (allow rate now hash s.key_limiter).0) [
            | inr a ↦ let k = rw (e, f, a) at h in cc
            | inl a ↦ elim (Bool-cases (outside.fails s.statements)) [
              | inl x ↦ let k = rw (e, f, a, x) at h in cc
              | inr x ↦
                  let k = rw (e, f, a, x, first_key_none (has_hash hash) s.api_keys g.1) at h in cc
            ]
          ]
        ]
      ]

  -- A key that RevokeKey has revoked is never accepted again, whatever the statements that run on
  -- the table after it.
  pub revoke_key-authenticate :
      (now now' : Time) (scheme raw : String) (s t : KeyState Limiter)
      → (revoke_key rate outside now (some raw) s).0 ≡ ok revoked
      → Steps (revoke_key rate outside now (some raw) s).1.api_keys t.api_keys
      → (id : String) → (authenticate rate outside now' scheme raw t).0 ≢ authenticated id
  revoke_key-authenticate now now' scheme raw s t h steps id =
      gone_unauthorized now' scheme raw t id
        (Steps-IsGone (outside.sha256_hex raw) steps (revoke_key-IsGone now raw s h))

  -- What a registered key leaves behind.
  record IsRegistered (raw : String) (now stamp : Time) (e e' : String) (s : KeyState Limiter)
      : Type 0 where
    answers_email : e' ≡ e
    answers_time : stamp ≡ now
    k : ApiKey
    found : first_key (has_hash (outside.sha256_hex raw)) s.api_keys ≡ row k
    same_email : k.email ≡ e
    same_time : k.created_at ≡ now
    text : String
    is_raw : raw ≡ String.◌++◌ "iwk_" text

  created_inj :
      (a b : String) (t u : Time) (e f : String)
      → ok (created a t e) ≡ ok (created b u f)
      → (a ≡ b) × (t ≡ u) × (e ≡ f)
  created_inj a b t u e f h = (cc, cc, cc)

  new_first :
      (new raw : String) (k : ApiKey) (ks : List ApiKey)
      → new ≡ raw
      → k.key_hash ≡ outside.sha256_hex new
      → k.revoked_at ≡ none
      → first_key (has_hash (outside.sha256_hex raw)) (k ∷ ks) ≡ row k
  unfolding first_key has_hash is_active
  new_first new raw k ks same h n =
      let found : (k.key_hash == outside.sha256_hex raw) ≡ true =
        (eq_iff _ _).1 (h ∙ ap outside.sha256_hex same) in
      rw (found, n) refl

  create_key-IsRegistered :
      (now : Time) (e text raw : String) (stamp : Time) (e' : String) (s : KeyState Limiter)
      → (create_key rate outside now e (String.◌++◌ "iwk_" text) s).0 ≡ ok (created raw stamp e')
      → IsRegistered raw now stamp e e'
          (create_key rate outside now e (String.◌++◌ "iwk_" text) s).1
  unfolding create_key created_row insert_key is_unique_violation
  create_key-IsRegistered now e text raw stamp e' s h =
      let new = String.◌++◌ "iwk_" text in
      let k : ApiKey = record {
        id = outside.gen_random_uuid s.statements;
        email = e;
        key_hash = outside.sha256_hex new;
        created_at = now;
        revoked_at = none;
      } in
      elim (Bool-cases (outside.fails s.statements)) [
        | inl f ↦ let x = rw f at h in absurd cc
        | inr f ↦ elim (Bool-cases (any (clashes k) s.api_keys)) [
          | inl c ↦ let x = rw (f, c) at h in absurd cc
          | inr c ↦
              let (same, t, m) = created_inj new raw now stamp e e' (rw (f, c) at h) in
              rw (f, c)
                record {
                  answers_email = sym m;
                  answers_time = sym t;
                  k = k;
                  found = new_first new raw k s.api_keys same refl refl;
                  same_email = refl;
                  same_time = refl;
                  text = text;
                  is_raw = sym same;
                }
        ]
      ]

  after_key-IsRegistered :
      (now : Time) (e : String) (r : Result String) (raw : String) (stamp : Time) (e' : String)
      (s : KeyState Limiter)
      → (after_key rate outside now e (generated_key rate outside r) s).0
        ≡ ok (created raw stamp e')
      → IsRegistered raw now stamp e e'
          (after_key rate outside now e (generated_key rate outside r) s).1
  unfolding after_key generated_key
  after_key-IsRegistered now e (err x) raw stamp e' s h = absurd cc
  after_key-IsRegistered now e (ok b) raw stamp e' s h =
      create_key-IsRegistered now e b raw stamp e' s h

  after_lookup-IsRegistered :
      (now : Time) (e : String) (l : Lookup ApiKey) (raw : String) (stamp : Time) (e' : String)
      (s : KeyState Limiter)
      → (after_lookup rate outside now e (l, s)).0 ≡ ok (created raw stamp e')
      → IsRegistered raw now stamp e e' (after_lookup rate outside now e (l, s)).1
  unfolding after_lookup
  after_lookup-IsRegistered now e (row k) raw stamp e' s h = absurd cc
  after_lookup-IsRegistered now e (failed x) raw stamp e' s h = absurd cc
  after_lookup-IsRegistered now e missing raw stamp e' s h =
      after_key-IsRegistered now e _ raw stamp e' _ h

  after_email-IsRegistered :
      (now : Time) (e : String) (xs : List FieldError) (raw : String) (stamp : Time) (e' : String)
      (s : KeyState Limiter)
      → (after_email rate outside now e xs s).0 ≡ ok (created raw stamp e')
      → IsRegistered raw now stamp e e' (after_email rate outside now e xs s).1
  unfolding after_email lookup_key
  after_email-IsRegistered now e (x ∷ xs) raw stamp e' s h = absurd cc
  after_email-IsRegistered now e [] raw stamp e' s h =
      after_lookup-IsRegistered now e _ raw stamp e' _ h

  register-IsRegistered :
      (now : Time) (ip : Option String) (e raw : String) (stamp : Time) (e' : String)
      (s : KeyState Limiter)
      → (register rate outside now ip e s).0 ≡ ok (created raw stamp e')
      → IsRegistered raw now stamp e e' (register rate outside now ip e s).1
  unfolding register
  register-IsRegistered now none e raw stamp e' s h =
      after_email-IsRegistered now e _ raw stamp e' s h
  register-IsRegistered now (some ip) e raw stamp e' s h =
      elim (Bool-cases (allow rate now ip s.reg_limiter).0) [
        | inl a ↦ rw a (after_email-IsRegistered now e _ raw stamp e' _ (rw a at h))
        | inr a ↦ let x = rw a at h in absurd cc
      ]

  not_blank : (raw text : String) → raw ≡ String.◌++◌ "iwk_" text → (raw == "") ≡ false
  not_blank raw text h = elim (Bool-cases (raw == "")) [
    | inl e ↦
        let blank : String.◌∷◌ "i" (String.◌++◌ "wk_" text) ≡ "" =
          rw append.cons at (sym h ∙ (eq_iff raw "").0 e) in
        absurd cc
    | inr e ↦ e
  ]

  -- A Register that answers with a key answers with the address of the request and the time of the
  -- call, too; and authenticate accepts that key, in the state that Register leaves, as the one of a
  -- row with this address and this time, where its limiter admits the request and the statement does
  -- not fail.
  pub register-authenticate :
      (now now' : Time) (ip : Option String) (e raw : String) (stamp : Time) (e' : String)
      (s : KeyState Limiter)
      → (register rate outside now ip e s).0 ≡ ok (created raw stamp e')
      → (allow rate now'
          (outside.sha256_hex raw)
          (register rate outside now ip e s).1.key_limiter).0
        ≡ true
      → outside.fails (register rate outside now ip e s).1.statements ≡ false
      → (e' ≡ e)
        × (stamp ≡ now)
        × (k : ApiKey) × (first_key
              (has_hash (outside.sha256_hex raw))
              (register rate outside now ip e s).1.api_keys
            ≡ row k)
        × (k.email ≡ e)
        × (k.created_at ≡ now)
        × ((authenticate rate outside now' "ApiKeyAuth" raw (register rate outside now ip e s).1).0
            ≡ authenticated k.id)
  unfolding authenticate limited_key lookup_key found_key
  register-authenticate now now' ip e raw stamp e' s h a f =
      let r = register-IsRegistered now ip e raw stamp e' s h in
      (
        r.answers_email,
        r.answers_time,
        r.k,
        r.found,
        r.same_email,
        r.same_time,
        rw (not_blank raw r.text r.is_raw, a, f, r.found) refl,
      )
