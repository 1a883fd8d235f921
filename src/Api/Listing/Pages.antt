-- ===== src/Api/Listing/Pages.antt =====
-- A client that asks for the next page by the cursor of the last one until there is none.
use Prim.Native.Nat.{◌+◌, ◌<◌, ◌%◌}
use inwheel_api.Common.{
  ℕ, zero, suc, ◌≤◌, String, ◌≡◌, refl, sym, ap, ◌∙◌, inl, inr, Bool, true, false, Option, none,
  some, List, [], ◌∷◌, ◌++◌, All, keep, take, length, length-append, ltb, is_some, arith,
  Bool-cases, Option-cases,
}
use inwheel_api.Common.Result.{Result, ok, err}
use inwheel_api.Float64.{Float64}
use inwheel_api.Models.{Place, Time}
use inwheel_api.Pagination.{Codec, truncate, encode, decode}
use inwheel_api.Pagination.Cursor.{IsLawful, year_10000, decode-encode}
use inwheel_api.Validation.{PlacesQueryParams}
use inwheel_api.Validation.Accepts.{IsListable, places_query_accepts}
use inwheel_api.Api.Listing.{
  Predicates, ListParams, ListResponse, page, invalid, after_cursor, order_rows, after, cursor_test,
  around, boxed, area_test, cursor_of, paged, cut, limit_of, selected, listed, answered, trimmed,
  list_places,
}
use inwheel_api.Api.Listing.Order.{
  IsSorted, IsDistinct, keep_same, length-keep, length-order_rows, All-keep, All-append,
  All-order_rows, keep-order_rows, keep-after_cursor, listed-IsSorted,
}

-- The first m and one more: a list that is longer than m has a last one among them.
split_at :
    (m : ℕ) (xs : List Place)
    → m < length xs
    → (front : List Place) × (p : Place) × (back : List Place) × (xs ≡ front ++ p ∷ back)
      × (take (suc m) xs ≡ front ++ p ∷ [])
      × (length front ≡ m)
split_at m [] h = absurd (omega arith)
split_at zero (x ∷ xs) h = ([], x, xs, refl, refl, refl)
split_at (suc m) (x ∷ xs) h =
    let (front, p, back, e, t, l) = split_at m xs (omega arith) in
    (x ∷ front, p, back, ap (λ ys. x ∷ ys) e, ap (λ ys. x ∷ ys) t, omega arith)

take_all : (n : ℕ) (xs : List Place) → length xs ≤ n → take n xs ≡ xs
take_all zero [] h = refl
take_all zero (x ∷ xs) h = absurd (omega arith)
take_all (suc n) [] h = refl
take_all (suc n) (x ∷ xs) h = ap (λ ys. x ∷ ys) (take_all n xs (omega arith))

take-take : (m n : ℕ) (xs : List Place) → m ≤ n → take m (take n xs) ≡ take m xs
take-take zero n xs h = refl
take-take (suc m) zero xs h = absurd (omega arith)
take-take (suc m) (suc n) [] h = refl
take-take (suc m) (suc n) (x ∷ xs) h = ap (λ ys. x ∷ ys) (take-take m n xs (omega arith))

length-take_all : (n : ℕ) (xs : List Place) → n ≤ length xs → length (take n xs) ≡ n
length-take_all zero xs h = refl
length-take_all (suc n) [] h = absurd (omega arith)
length-take_all (suc n) (x ∷ xs) h = omega (arith, length-take_all n xs)

append_assoc : (xs ys zs : List Place) → (xs ++ ys) ++ zs ≡ xs ++ (ys ++ zs)
append_assoc [] ys zs = refl
append_assoc (x ∷ xs) ys zs = ap (λ ws. x ∷ ws) (append_assoc xs ys zs)

some_inj : (a b : String) → some a ≡ some b → a ≡ b
some_inj a b h = cc

-- What the rows of the table are like: times that the database stores, of whole microseconds, up to
-- the year 9999, and ids that are UUIDs.
abbrev pub IsRow : Codec → Place → Type 0
IsRow codec p =
    (p.updated_at % 1000 ≡ 0) × (p.updated_at < year_10000) × (codec.is_uuid p.id ≡ true)

module _ (codec : Codec) (predicates : Predicates) where
  cursor_of-append :
      (front : List Place) (p : Place)
      → cursor_of codec predicates (front ++ p ∷ []) ≡ ok (some (encode codec p.updated_at p.id))
  unfolding cursor_of
  cursor_of-append [] p = refl
  cursor_of-append (q ∷ []) p = refl
  cursor_of-append (q ∷ r ∷ front) p = cursor_of-append (r ∷ front) p

  cut_all :
      (n : ℕ) (rows : List Place)
      → length rows ≤ n
      → cut codec predicates n (take (n + 1) rows) ≡ ok (page rows none)
  unfolding cut
  cut_all n rows h =
      let all = take_all (n + 1) rows (omega arith) in
      let test : ltb n (length rows) ≡ false = ground arith in rw (all, test) refl

  cut_more :
      (m : ℕ) (rows front : List Place) (p : Place)
      → suc m < length rows
      → take (suc m) rows ≡ front ++ p ∷ []
      → cut codec predicates (suc m) (take (suc m + 1) rows)
        ≡ ok (page (front ++ p ∷ []) (some (encode codec p.updated_at p.id)))
  unfolding cut paged
  cut_more m rows front p h t =
      let test : ltb (suc m) (length (take (suc m + 1) rows)) ≡ true =
        ground (arith, length-take_all (suc m + 1) rows) in
      let first = take-take (suc m) (suc m + 1) rows (omega arith) ∙ t in
      rw (test, first, cursor_of-append front p) refl

  -- The client: it asks with the cursor of the last answer, `n` times at most.
  with_cursor : String → ListParams → ListParams
  with_cursor c params = record params { query = record params.query { cursor = some c } }

  after_answer : (String → Option (List Place)) → Result ListResponse → Option (List Place)
  after_answer next (err e) = none
  after_answer next (ok (invalid errors)) = none
  after_answer next (ok (page places none)) = some places
  after_answer next (ok (page places (some c))) = elim (next c) [
    | none ↦ none
    | some rest ↦ some (places ++ rest)
  ]

  unfoldable pub collect : ℕ → List Place → ListParams → Option (List Place)
  unfolding after_answer with_cursor
  collect zero rows params = none
  collect (suc n) rows params =
      after_answer (λ c. collect n rows (with_cursor c params))
        (list_places codec predicates params (ok rows))

  -- an answer, for parameters that pass
  list_places_answers :
      (params : ListParams) (area : Place → Bool) (rows : List Place)
      → IsListable codec (trimmed codec predicates params.query)
      → area_test codec predicates (trimmed codec predicates params.query) ≡ some area
      → IsDistinct rows
      → list_places codec predicates params (ok rows)
        ≡ cut codec predicates (limit_of codec predicates params.limit) (
            take (limit_of codec predicates params.limit + 1) (
              keep (cursor_test codec predicates params.query.cursor) (
                order_rows (
                  keep
                    (selected codec predicates (trimmed codec predicates params.query) area)
                    rows))))
  unfolding list_places answered listed
  list_places_answers params area rows h a d =
      let q = trimmed codec predicates params.query in
      let valid = (places_query_accepts codec q).1 h in
      let order =
        keep-order_rows (cursor_test codec predicates params.query.cursor)
          (selected codec predicates q area) rows d in
      rw (valid, a, order) refl

  around-some :
      (lng : Float64) (lat radius : Option Float64)
      → is_some lat ≡ true
      → is_some radius ≡ true
      → (area : Place → Bool) × (around codec predicates lng lat radius ≡ some area)
  unfolding around
  around-some lng none radius h k = cc
  around-some lng (some lat) none h k = cc
  around-some lng (some lat) (some radius) h k = (_, refl)

  boxed-some :
      (min_lng : Float64) (min_lat max_lng max_lat : Option Float64)
      → is_some min_lat ≡ true
      → is_some max_lng ≡ true
      → is_some max_lat ≡ true
      → (area : Place → Bool) × (boxed codec predicates min_lng min_lat max_lng max_lat ≡ some area)
  unfolding boxed
  boxed-some min_lng none max_lng max_lat h k l = cc
  boxed-some min_lng (some min_lat) none max_lat h k l = cc
  boxed-some min_lng (some min_lat) (some max_lng) none h k l = cc
  boxed-some min_lng (some min_lat) (some max_lng) (some max_lat) h k l = (_, refl)

  -- The area that is asked for is complete, where the parameters pass.
  area_test-some :
      (q : PlacesQueryParams)
      → IsListable codec q
      → (area : Place → Bool) × (area_test codec predicates q ≡ some area)
  unfolding area_test
  area_test-some q h = elim (Option-cases q.lng) [
    | inr (lng, e) ↦
        let whole : (is_some q.lat ≡ true) × (is_some q.radius ≡ true) = ground (arith, h.circle) in
        let (area, k) = around-some lng q.lat q.radius whole.0 whole.1 in (area, rw e k)
    | inl e ↦ elim (Option-cases q.min_lng) [
      | inl k ↦ ((λ p. true), rw (e, k) refl)
      | inr (min_lng, k) ↦
          let whole : (is_some q.min_lat ≡ true)
              × (is_some q.max_lng ≡ true)
              × (is_some q.max_lat ≡ true) =
            ground (arith, h.box) in
          let (area, l) =
            boxed-some min_lng q.min_lat q.max_lng q.max_lat whole.0 whole.1 whole.2 in
          (area, rw (e, k) l)
    ]
  ]

  next-IsListable :
      (params : ListParams) (c : String) (t : Time) (id : String)
      → IsListable codec (trimmed codec predicates params.query)
      → decode codec c ≡ ok (t, id)
      → IsListable codec (trimmed codec predicates (with_cursor c params).query)
  unfolding with_cursor
  next-IsListable params c t id h e = record {
    circle = h.circle;
    box = h.box;
    one_area = h.one_area;
    ordered_lng = h.ordered_lng;
    ordered_lat = h.ordered_lat;
    cursor = λ d k. (t, id, rw (← some_inj c d k) e);
    q = h.q;
  }

  -- The cursor of a row selects what is behind it.
  behind :
      (p : Place) (front back : List Place)
      → IsLawful codec
      → IsRow codec p
      → IsSorted (front ++ p ∷ back)
      → keep
          (cursor_test codec predicates (some (encode codec p.updated_at p.id)))
          (front ++ p ∷ back)
        ≡ back
  unfolding cursor_test after
  behind p front back lawful row s =
      let decodes = decode-encode codec lawful p.updated_at p.id row.1 row.2 in
      let whole : truncate p.updated_at ≡ p.updated_at = omega (arith, row.0) in
      let test = cursor_test codec predicates (some (encode codec p.updated_at p.id)) in
      keep_same test (after_cursor (p.updated_at, p.id)) (front ++ p ∷ back)
        (λ q. rw (decodes, whole) refl)
      ∙ keep-after_cursor front p back s

  pages_from :
      (lawful : IsLawful codec) (rows all : List Place) (area : Place → Bool) (m n : ℕ)
      → IsDistinct rows
      → All (IsRow codec) all
      → IsSorted all
      → (params : ListParams) (front rest : List Place)
      → IsListable codec (trimmed codec predicates params.query)
      → area_test codec predicates (trimmed codec predicates params.query) ≡ some area
      → limit_of codec predicates params.limit ≡ suc m
      → order_rows
          (keep (selected codec predicates (trimmed codec predicates params.query) area) rows)
        ≡ all
      → front ++ rest ≡ all
      → keep (cursor_test codec predicates params.query.cursor) all ≡ rest
      → length rest < n
      → collect n rows params ≡ some rest
  unfolding collect after_answer with_cursor selected area_test
  pages_from lawful rows all area m zero d r s params front rest h a l o f k n =
      absurd (omega arith)
  pages_from lawful rows all area m (suc n) d r s params front rest h a l o f k n_lt =
      let answer = list_places_answers params area rows h a d in
      elim (Bool-cases (ltb (suc m) (length rest))) [
        | inr short ↦ rw (answer, l, o, k, cut_all (suc m) rest (ground arith)) refl
        | inl long ↦
            let (first, p, back, e, t, len) = split_at m rest (ground arith) in
            let c = encode codec p.updated_at p.id in
            let shorter : length rest ≡ length first + suc (length back) =
              ap length e ∙ length-append first (p ∷ back) in
            let whole : (front ++ first) ++ p ∷ back ≡ all =
              append_assoc front first (p ∷ back) ∙ rw (← e) f in
            let row = (All-append (IsRow codec) (front ++ first) (p ∷ back) (rw whole r)).1.0 in
            let next = with_cursor c params in
            let ih =
              pages_from lawful rows all area m n d r s next ((front ++ first) ++ p ∷ []) back
                (next-IsListable params c _ _ h
                  (decode-encode codec lawful p.updated_at p.id row.1 row.2))
                a l o (append_assoc (front ++ first) (p ∷ []) back ∙ whole)
                (rw (← whole) (behind p (front ++ first) back lawful row (rw whole s)))
                (omega (arith, shorter)) in
            rw
              (
                answer,
                l,
                o,
                k,
                cut_more m rest first p (ground arith) t,
                ih,
                append_assoc first (p ∷ []) back,
              )
              (ap some (sym e))
      ]

  keep-none : (ps : List Place) → keep (cursor_test codec predicates none) ps ≡ ps
  unfolding cursor_test
  keep-none [] = refl
  keep-none (p ∷ ps) = rw (keep, keep-none ps) refl

  keep_no_cursor :
      (o : Option String) (ps : List Place)
      → o ≡ none
      → keep (cursor_test codec predicates o) ps ≡ ps
  keep_no_cursor o ps h = rw h (keep-none ps)

  -- For parameters that pass, a limit of one or more and no cursor at first, over rows of different
  -- ids whose cursors are faithful, the client that follows the cursors ends after at most one
  -- request per row and one more, and its pages are together every selected place, once, in the
  -- order of the query.
  pub list_places-collect :
      IsLawful codec
      → (params : ListParams) (rows : List Place) (m : ℕ)
      → IsListable codec (trimmed codec predicates params.query)
      → params.query.cursor ≡ none
      → limit_of codec predicates params.limit ≡ suc m
      → IsDistinct rows
      → All (IsRow codec) rows
      → (area : Place → Bool) × (area_test codec predicates (trimmed codec predicates params.query)
          ≡ some area)
        × (collect (suc (length rows)) rows params
            ≡ some (
                order_rows (
                  keep
                    (selected codec predicates (trimmed codec predicates params.query) area)
                    rows)))
  list_places-collect lawful params rows m h c l d r =
      let q = trimmed codec predicates params.query in
      let (area, a) = area_test-some q h in
      let test = selected codec predicates q area in
      let all = order_rows (keep test rows) in
      (
        area,
        a,
        pages_from lawful rows all area m (suc (length rows)) d
            (All-order_rows (IsRow codec) (keep test rows) (All-keep (IsRow codec) test rows r))
            (listed-IsSorted test rows d) params [] all h a l refl refl
            (keep_no_cursor params.query.cursor all c)
            (omega (arith, length-order_rows (keep test rows), length-keep test rows)),
      )
