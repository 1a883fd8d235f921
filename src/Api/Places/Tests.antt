-- ===== src/Api/Places/Tests.antt =====
-- A shop in a mall, shown, and a patch of its profile.
use inwheel_api.Common.{none, ℕ, suc, ◌==◌, refl, true, false, some}
use inwheel_api.Common.Result.{ok}
use inwheel_api.Models.{Place}
use inwheel_api.A11y.{empty_profile}
use inwheel_api.Profiles.{row, missing, Tx, Json}
use inwheel_api.Profiles.Prepared.{OnOk, KeepsColumns}
use inwheel_api.Api.Places.{Store, get_place, patch_place_accessibility}
use inwheel_api.Api.Places.Shown.{IsShown, get_place-IsShown}
use inwheel_api.Api.Places.Verified.{IsSubmitted, OnPatched, patch_place_accessibility-IsSubmitted}
use inwheel_api.Api.Places.{create_place}
use inwheel_api.Api.Places.Created.{
  OnShown, with_ids, KeepsPlace, IsSubmittedPlace, create_place-IsSubmittedPlace,
}
use inwheel_api.Samples.{cafe, mall}

abbrev shop : Place
shop = record cafe { parent_id = some "m1" }

-- the state counts the rows that are written
abbrev store : Store ℕ
store = record {
  first_place = λ id n. (elim (id == "p1") [ true ↦ row shop | false ↦ row mall ], n);
  create_row = λ p n. (ok p, suc n);
  create_log = λ entry n. (ok tt, suc n);
}

get_place-IsShown_example : IsShown store "p1" 0 (get_place store "p1" 0)
get_place-IsShown_example = get_place-IsShown store "p1" 0

-- The place has no profile yet.
abbrev tx : Tx ℕ
tx = record {
  first_place = λ id n. (row tt, n);
  lock_profile = λ id n. (missing, n);
  load_profile = λ id n. (missing, n);
  create_profile = λ p n. (ok (record p { id = "a1" }), suc n);
  update_profile = λ p q n. (ok 1, suc n);
  commit = λ n. (none, n);
  rollback = λ n n'. n;
}

abbrev json : Json
json = record {
  marshal = λ p. ok "{}";
  merge_patch = λ existing patch. ok patch;
  unmarshal = λ s. ok empty_profile;
}

tx-KeepsColumns : KeepsColumns tx
tx-KeepsColumns p s = refl

patch_place_accessibility-IsSubmitted_example :
    OnOk
      (OnPatched (IsSubmitted "k1" 9))
      (patch_place_accessibility store
        (λ e. "")
        tx
        json
        9
        (λ n. n)
        "p1"
        "k1"
        "{}"
        (some empty_profile)
        0).0
patch_place_accessibility-IsSubmitted_example =
    patch_place_accessibility-IsSubmitted store (λ e. "") "k1" 9 tx json tx-KeepsColumns refl
      (λ n. n) "p1" "{}" (some empty_profile) 0

-- a place with a profile that is not marked
abbrev posted : Place
posted = record cafe { accessibility = some empty_profile }

-- Create fills in the ids of the place and of its profile.
abbrev post_store : Store ℕ
post_store = record store {
  create_row = λ p n.
      (ok (record p { id = "p2"; accessibility = with_ids "a2" "p2" p.accessibility }), suc n);
}

post_store-KeepsPlace : KeepsPlace post_store
post_store-KeepsPlace p s = (refl, refl, ("a2", "p2", refl))

create_place-IsSubmittedPlace_example :
    OnOk (OnShown (IsSubmittedPlace "k1" 9)) (create_place post_store (λ s. s) 9 "k1" posted 0).0
create_place-IsSubmittedPlace_example =
    create_place-IsSubmittedPlace post_store "k1" 9 post_store-KeepsPlace refl (λ s. s) posted 0
