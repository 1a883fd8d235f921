-- ===== src/Api/Listing/Order.antt =====
-- The order of the rows: updated_at DESC, id ASC is a strict order, total on places of different
-- ids, and filtering commutes with it.
use inwheel_api.Common.{
  ◌≡◌, ◌≢◌, refl, sym, ap, ◌∙◌, inl, inr, Bool, true, false, ◌&&◌, List, [], ◌∷◌, ◌++◌, All, keep,
  length, ◌≤◌, suc, arith, Bool-cases,
}
use inwheel_api.Common.Text.Order.{str_lt_irrefl, str_lt_trans, str_lt_total}
use inwheel_api.Models.{Place}
use inwheel_api.Api.Listing.{comes_before, insert_row, order_rows, after_cursor}

comes_before_irrefl : (p : Place) → comes_before p p ≡ false
comes_before_irrefl p = ground (arith, str_lt_irrefl p.id)

comes_before_trans :
    (p q r : Place) → comes_before p q ≡ true → comes_before q r ≡ true → comes_before p r ≡ true
comes_before_trans p q r h k = ground (arith, str_lt_trans p.id q.id r.id)

pub comes_before_asym : (p q : Place) → comes_before p q ≡ true → comes_before q p ≡ false
comes_before_asym p q h = ground (arith, comes_before_trans p q p, comes_before_irrefl p)

comes_before_total :
    (p q : Place) → p.id ≢ q.id → comes_before p q ≡ false → comes_before q p ≡ true
comes_before_total p q n h = ground (arith, str_lt_total p.id q.id)

-- Every place comes before those behind it.
abbrev pub IsSorted : List Place → Type 0
IsSorted [] = Unit
IsSorted (p ∷ ps) = All (λ q. comes_before p q ≡ true) ps × IsSorted ps

-- The ids are different, as of a primary key.
abbrev pub IsDistinct : List Place → Type 0
IsDistinct [] = Unit
IsDistinct (p ∷ ps) = All (λ q. p.id ≢ q.id) ps × IsDistinct ps

module _ {ℓ} {A : Type ℓ} where
  keep_yes : (t : A → Bool) (x : A) (xs : List A) → t x ≡ true → keep t (x ∷ xs) ≡ x ∷ keep t xs
  keep_yes t x xs h = rw (keep, h) refl

  keep_no : (t : A → Bool) (x : A) (xs : List A) → t x ≡ false → keep t (x ∷ xs) ≡ keep t xs
  keep_no t x xs h = rw (keep, h) refl

  pub keep_same : (t u : A → Bool) (xs : List A) → ((x : A) → t x ≡ u x) → keep t xs ≡ keep u xs
  keep_same t u [] h = refl
  keep_same t u (x ∷ xs) h = elim (Bool-cases (u x)) [
    | inl e ↦ rw (keep_yes t x xs (h x ∙ e), keep_yes u x xs e, keep_same t u xs h) refl
    | inr e ↦ rw (keep_no t x xs (h x ∙ e), keep_no u x xs e) (keep_same t u xs h)
  ]

  All-map : (P Q : A → Type 0) (xs : List A) → ((x : A) → P x → Q x) → All P xs → All Q xs
  All-map P Q [] f h = tt
  All-map P Q (x ∷ xs) f h = (f x h.0, All-map P Q xs f h.1)

  pub All-keep : (P : A → Type 0) (t : A → Bool) (xs : List A) → All P xs → All P (keep t xs)
  All-keep P t [] h = tt
  All-keep P t (x ∷ xs) h = elim (Bool-cases (t x)) [
    | inl e ↦ rw (keep_yes t x xs e) (h.0, All-keep P t xs h.1)
    | inr e ↦ rw (keep_no t x xs e) (All-keep P t xs h.1)
  ]

  pub All-append : (P : A → Type 0) (xs ys : List A) → All P (xs ++ ys) → All P xs × All P ys
  All-append P [] ys h = (tt, h)
  All-append P (x ∷ xs) ys h = let (a, b) = All-append P xs ys h.1 in ((h.0, a), b)

pub All-insert_row :
    (P : Place → Type 0) (p : Place) (qs : List Place) → P p → All P qs → All P (insert_row p qs)
unfolding insert_row
All-insert_row P p [] h k = (h, tt)
All-insert_row P p (q ∷ qs) h k = elim (Bool-cases (comes_before q p)) [
  | inl e ↦ rw e (k.0, All-insert_row P p qs h k.1)
  | inr e ↦ rw e (h, k)
]

pub All-order_rows : (P : Place → Type 0) (ps : List Place) → All P ps → All P (order_rows ps)
unfolding order_rows
All-order_rows P [] h = tt
All-order_rows P (p ∷ ps) h = All-insert_row P p (order_rows ps) h.0 (All-order_rows P ps h.1)

insert_row-IsSorted :
    (p : Place) (qs : List Place)
    → All (λ q. p.id ≢ q.id) qs
    → IsSorted qs
    → IsSorted (insert_row p qs)
unfolding insert_row
insert_row-IsSorted p [] n h = (tt, tt)
insert_row-IsSorted p (q ∷ qs) n h = elim (Bool-cases (comes_before q p)) [
  | inl e ↦
      rw e
        (All-insert_row (λ r. comes_before q r ≡ true) p qs e h.0, insert_row-IsSorted p qs n.1 h.1)
  | inr e ↦
      let pq = comes_before_total q p (λ i. n.0 (sym i)) e in
      rw e (
        (
          pq,
          All-map (λ r. comes_before q r ≡ true) (λ r. comes_before p r ≡ true) qs
              (λ r k. comes_before_trans p q r pq k) h.0,
        ),
        h,
      )
]

-- The rows of a query are in order.
pub order_rows-IsSorted : (ps : List Place) → IsDistinct ps → IsSorted (order_rows ps)
unfolding order_rows
order_rows-IsSorted [] h = tt
order_rows-IsSorted (p ∷ ps) h =
    insert_row-IsSorted p (order_rows ps) (All-order_rows (λ q. p.id ≢ q.id) ps h.0)
      (order_rows-IsSorted ps h.1)

keep-IsDistinct : (t : Place → Bool) (ps : List Place) → IsDistinct ps → IsDistinct (keep t ps)
keep-IsDistinct t [] h = tt
keep-IsDistinct t (p ∷ ps) h = elim (Bool-cases (t p)) [
  | inl e ↦ rw (keep_yes t p ps e) (All-keep (λ q. p.id ≢ q.id) t ps h.0, keep-IsDistinct t ps h.1)
  | inr e ↦ rw (keep_no t p ps e) (keep-IsDistinct t ps h.1)
]

insert_row_first :
    (p : Place) (qs : List Place)
    → All (λ q. comes_before q p ≡ false) qs
    → insert_row p qs ≡ p ∷ qs
unfolding insert_row
insert_row_first p [] h = refl
insert_row_first p (q ∷ qs) h = rw h.0 refl

keep-insert_row_drops :
    (t : Place → Bool) (p : Place) (qs : List Place)
    → t p ≡ false
    → keep t (insert_row p qs) ≡ keep t qs
unfolding insert_row
keep-insert_row_drops t p [] h = rw h refl
keep-insert_row_drops t p (q ∷ qs) h = elim (Bool-cases (comes_before q p)) [
  | inl e ↦ elim (Bool-cases (t q)) [
    | inl k ↦
        rw (e, keep_yes t q (insert_row p qs) k, keep_yes t q qs k, keep-insert_row_drops t p qs h)
          refl
    | inr k ↦
        rw (e, keep_no t q (insert_row p qs) k, keep_no t q qs k, keep-insert_row_drops t p qs h)
          refl
  ]
  | inr e ↦ rw (e, keep_no t p (q ∷ qs) h) refl
]

-- what is not before p, when q is not and the rest is behind q
none_before :
    (p q : Place) (qs : List Place)
    → comes_before q p ≡ false
    → All (λ r. comes_before q r ≡ true) qs
    → All (λ r. comes_before r p ≡ false) (q ∷ qs)
none_before p q qs e h = (
  e,
  All-map (λ r. comes_before q r ≡ true) (λ r. comes_before r p ≡ false) qs
      (λ r k. ground (arith, comes_before_trans q r p)) h,
)

keep-insert_row :
    (t : Place → Bool) (p : Place) (qs : List Place)
    → IsSorted qs
    → t p ≡ true
    → keep t (insert_row p qs) ≡ insert_row p (keep t qs)
unfolding insert_row
keep-insert_row t p [] s h = rw h refl
keep-insert_row t p (q ∷ qs) s h = elim (Bool-cases (comes_before q p)) [
  | inl e ↦ elim (Bool-cases (t q)) [
    | inl k ↦
        rw (e, keep_yes t q (insert_row p qs) k, keep_yes t q qs k, keep-insert_row t p qs s.1 h, e)
          refl
    | inr k ↦
        rw (e, keep_no t q (insert_row p qs) k, keep_no t q qs k, keep-insert_row t p qs s.1 h) refl
  ]
  | inr e ↦
      let first =
        insert_row_first p (keep t (q ∷ qs))
          (All-keep (λ r. comes_before r p ≡ false) t (q ∷ qs) (none_before p q qs e s.0)) in
      rw (e, keep_yes t p (q ∷ qs) h, first) refl
]

-- Filtering the ordered rows is ordering the filtered ones.
pub keep-order_rows :
    (t u : Place → Bool) (ps : List Place)
    → IsDistinct ps
    → order_rows (keep (λ p. t p && u p) ps) ≡ keep t (order_rows (keep u ps))
unfolding order_rows
keep-order_rows t u [] d = refl
keep-order_rows t u (p ∷ ps) d =
    let ih = keep-order_rows t u ps d.1 in
    let sorted = order_rows-IsSorted (keep u ps) (keep-IsDistinct u ps d.1) in
    let tu : Place → Bool = λ q. t q && u q in
    let rows = order_rows (keep u ps) in
    elim (Bool-cases (u p)) [
      | inl k ↦ elim (Bool-cases (t p)) [
        | inl e ↦
            rw
              (
                keep_yes tu p ps (ground arith),
                keep_yes u p ps k,
                keep-insert_row t p rows sorted e,
                ← ih,
              )
              refl
        | inr e ↦
            rw (keep_no tu p ps (ground arith), keep_yes u p ps k, keep-insert_row_drops t p rows e)
              ih
      ]
      | inr k ↦ rw (keep_no tu p ps (ground arith), keep_no u p ps k) ih
    ]

pub keep-All : (t : Place → Bool) (ps : List Place) → All (λ p. t p ≡ true) ps → keep t ps ≡ ps
keep-All t [] h = refl
keep-All t (p ∷ ps) h = rw (keep_yes t p ps h.0, keep-All t ps h.1) refl

after_cursor_iff : (p q : Place) → after_cursor (p.updated_at, p.id) q ≡ comes_before p q
after_cursor_iff p q = ground arith

-- What comes behind a row of the ordered ones are those behind it in the list.
pub keep-after_cursor :
    (front : List Place) (p : Place) (back : List Place)
    → IsSorted (front ++ p ∷ back)
    → keep (after_cursor (p.updated_at, p.id)) (front ++ p ∷ back) ≡ back
keep-after_cursor [] p back s =
    let all =
      All-map (λ q. comes_before p q ≡ true) (λ q. after_cursor (p.updated_at, p.id) q ≡ true) back
        (λ q k. rw (after_cursor_iff p q) k) s.0 in
    let drops : after_cursor (p.updated_at, p.id) p ≡ false =
      rw (after_cursor_iff p p) (comes_before_irrefl p) in
    rw (keep_no (after_cursor (p.updated_at, p.id)) p back drops)
      (keep-All (after_cursor (p.updated_at, p.id)) back all)
keep-after_cursor (q ∷ front) p back s =
    let qp = (All-append (λ r. comes_before q r ≡ true) front (p ∷ back) s.0).1.0 in
    let drops : after_cursor (p.updated_at, p.id) q ≡ false =
      rw (after_cursor_iff p q) (comes_before_asym q p qp) in
    rw (keep_no (after_cursor (p.updated_at, p.id)) q (front ++ p ∷ back) drops)
      (keep-after_cursor front p back s.1)

pub listed-IsSorted :
    (t : Place → Bool) (ps : List Place) → IsDistinct ps → IsSorted (order_rows (keep t ps))
listed-IsSorted t ps d = order_rows-IsSorted (keep t ps) (keep-IsDistinct t ps d)

pub length-keep {ℓ} : {A : Type ℓ} (t : A → Bool) (xs : List A) → length (keep t xs) ≤ length xs
length-keep t [] = omega arith
length-keep t (x ∷ xs) = elim (Bool-cases (t x)) [
  | inl e ↦ rw (keep_yes t x xs e) (omega (arith, length-keep t xs))
  | inr e ↦ rw (keep_no t x xs e) (omega (arith, length-keep t xs))
]

length-insert_row : (p : Place) (qs : List Place) → length (insert_row p qs) ≡ suc (length qs)
unfolding insert_row
length-insert_row p [] = refl
length-insert_row p (q ∷ qs) = elim (Bool-cases (comes_before q p)) [
  | inl e ↦ rw e (ap suc (length-insert_row p qs))
  | inr e ↦ rw e refl
]

pub length-order_rows : (ps : List Place) → length (order_rows ps) ≡ length ps
unfolding order_rows
length-order_rows [] = refl
length-order_rows (p ∷ ps) = length-insert_row p (order_rows ps) ∙ ap suc (length-order_rows ps)
