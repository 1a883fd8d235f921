-- ===== src/Places/Refs.antt =====
-- The query for candidates changes nothing; attaching a reference changes one place.
use inwheel_api.Common.{
  ◌≤◌, String, ◌==◌, eq_iff, ◌≡◌, refl, ◌∙◌, ◌⊎◌, inl, inr, true, false, Option, none, some, List,
  [], ◌∷◌, arith, any, length, length-take, if◌then◌else◌, Bool-cases,
}
use mathlib.Core.Option
use text.Mathlib.TextPositions.{eq_refl}
use mathlib.Core.Path.{subst}
use inwheel_api.Common.Dict.{lookup, insert, lookup-insert}
use inwheel_api.Common.Result.{Error, message, wrap, ok, err, ok_inj}
use inwheel_api.Float64.{Float64}
use inwheel_api.Models.{Time, Category, ExternalRef, Place}
use inwheel_api.Database.{Database, Postgres, statement}
use inwheel_api.Places.{find_candidates, is_finite, attach_rows, attach_external_ref}

pub find_place : String → List Place → Option Place
find_place id [] = none
find_place id (p ∷ ps) = if p.id == id then some p else find_place id ps

abbrev pub with_ref : String → ExternalRef → Time → Place → Place
with_ref source ref now p = record p {
  external_ids = insert source ref p.external_ids;
  updated_at = now;
}

find_place-attach :
    (id j source : String) (ref : ExternalRef) (now : Time) (ps : List Place)
    → find_place j (attach_rows id source ref now ps) ≡ (
        if id == j then Option.map (with_ref source ref now) (find_place j ps) else find_place j ps)
unfolding find_place attach_rows
find_place-attach id j source ref now [] = ground arith
find_place-attach id j source ref now (p ∷ ps) =
    ground
      (arith, find_place-attach id j source ref now ps, eq_iff p.id id, eq_iff p.id j, eq_iff id j)

find_place_of_any :
    (id : String) (ps : List Place)
    → any (λ p. p.id == id) ps ≡ true
    → (p : Place) × (find_place id ps ≡ some p)
unfolding find_place
find_place_of_any id [] h = cc
find_place_of_any id (p ∷ ps) h = elim (Bool-cases (p.id == id)) [
  | inl e ↦ (p, rw e)
  | inr e ↦ let (q, f) = find_place_of_any id ps (ground arith) in (q, rw e f)
]

-- The query for candidates leaves the tables as they are, and gives 32 places at most.
pub find_candidates_reads :
    (pg : Postgres) (lat lng radius_m : Float64) (cs : List Category) (db : Database)
    → ((find_candidates pg lat lng radius_m cs db).1.queue ≡ db.queue)
      × ((find_candidates pg lat lng radius_m cs db).1.places ≡ db.places)
      × ((out : List Place)
          → (find_candidates pg lat lng radius_m cs db).0 ≡ ok out
          → length out ≤ 32)
unfolding find_candidates statement
find_candidates_reads pg lat lng radius_m [] db = (refl, refl, λ out e. ground arith)
find_candidates_reads pg lat lng radius_m (c ∷ cs) db = elim (Bool-cases (pg.fails db.statements)) [
  | inl f ↦ (rw f, rw f, rw f (λ out e. cc))
  | inr f ↦
      (rw f, rw f, rw f (λ out e. subst (λ o. length o ≤ 32) (ok_inj _ out e) (length-take 32 _)))
]

-- The place has the reference under its source.
pub record HasRef (id source : String) (ref : ExternalRef) (ps : List Place) : Type 0 where
  pub place : Place
  pub found : find_place id ps ≡ some place
  pub recorded : lookup source place.external_ids ≡ some ref

-- The place of an id before and after a reference is attached: the reference is under its source, the
-- references of the other sources and all columns but updated_at are as they were.
pub record IsAttached (id source : String) (ref : ExternalRef) (now : Time) (ps ps' : List Place)
    : Type 0 where
  pub before : Place
  pub after : Place
  pub found_before : find_place id ps ≡ some before
  pub found : find_place id ps' ≡ some after
  pub refs :
      (k : String)
      → lookup k after.external_ids
        ≡ (if source == k then some ref else lookup k before.external_ids)
  pub rest : after ≡ record before { external_ids = after.external_ids; updated_at = now }

pub IsAttached-HasRef :
    {id source : String} {ref : ExternalRef} {now : Time} {ps ps' : List Place}
    → IsAttached id source ref now ps ps'
    → HasRef id source ref ps'
IsAttached-HasRef {source = source} a = record {
  place = a.after;
  found = a.found;
  recorded = a.refs source ∙ rw (eq_refl source);
}

attached :
    (id source : String) (ref : ExternalRef) (now : Time) (ps : List Place)
    → any (λ p. p.id == id) ps ≡ true
    → IsAttached id source ref now ps (attach_rows id source ref now ps)
attached id source ref now ps h =
    let (p, e) = find_place_of_any id ps h in
    record {
      before = p;
      after = with_ref source ref now p;
      found_before = e;
      found = find_place-attach id id source ref now ps ∙ rw (eq_refl id, e);
      refs = λ k. lookup-insert source k ref p.external_ids;
      rest = refl;
    }

-- Attaching leaves the queue as it is. It fails, with every place as it was; or it succeeds: the
-- place of that id has the reference under that source, its references of other sources and its
-- other columns are as they were but for the time of the update, and so is every other place.
pub attach_external_ref_outcome :
    (pg : Postgres) (id source : String) (ref : ExternalRef) (db : Database)
    → ((attach_external_ref pg id source ref db).1.queue ≡ db.queue)
      × (((e : Error) × ((attach_external_ref pg id source ref db).0 ≡ err e)
            × ((attach_external_ref pg id source ref db).1.places ≡ db.places))
          ⊎ (((attach_external_ref pg id source ref db).0 ≡ ok tt)
              × IsAttached id source ref
                  (pg.now db.statements)
                  db.places
                  (attach_external_ref pg id source ref db).1.places
              × ((j : String)
                  → (id == j) ≡ false
                  → find_place j (attach_external_ref pg id source ref db).1.places
                    ≡ find_place j db.places)))
unfolding attach_external_ref statement
attach_external_ref_outcome pg id source ref db = elim (Bool-cases (is_finite ref.confidence)) [
  | inr n ↦ (rw n, inl (wrap "marshal external ref" (message "unsupported value"), rw n, rw n))
  | inl n ↦ elim (Bool-cases (pg.fails db.statements)) [
    | inl f ↦
        (rw (n, f), inl (wrap "attach external ref" (message "database"), rw (n, f), rw (n, f)))
    | inr f ↦ elim (Bool-cases (any (λ p. p.id == id) db.places)) [
      | inr m ↦ (
        rw (n, f, m),
        inl (message "attach external ref: place not found", rw (n, f, m), rw (n, f, m)),
      )
      | inl m ↦ (
        rw (n, f, m),
        inr (
          rw (n, f, m),
          rw (n, f, m) (attached id source ref (pg.now db.statements) db.places m),
          λ j e.
              rw (n, f, m)
                (find_place-attach id j source ref (pg.now db.statements) db.places ∙ rw e),
        ),
      )
    ]
  ]
]
