-- ===== src/Marketplace/Reviews/Recorded.antt =====
-- governance/review_service.py: what a review tells after any submissions and decisions.
use kitematic.Base.{
  eq_refl, Bool-cases, ◌⊎◌, Option-cases, ◌<>◌, String, str_eq, str_eq_cases, eq_refl, ◌≡◌, refl,
  sym, ◌∙◌, inl, inr, Option, none, some, List, [], ◌∷◌, ◌++◌, if◌then◌else◌,
}
use kitematic.Base.Dict.{Dict, lookup, lookup-insert}
use kitematic.Marketplace.Reviews.{
  Review, ReviewDecisionRecord, submit_for_review, decision_added, record_decision, get_review,
  review_status, get_status,
}

pub data ReviewCall : Type 0 where
  submitting : (listing_id submitter_id now : String) → ReviewCall
  deciding : String → ReviewDecisionRecord → ReviewCall

unfoldable pub run_calls : List ReviewCall → Dict Review → Dict Review
run_calls [] reviews = reviews
run_calls (submitting id who now ∷ calls) reviews =
    run_calls calls (submit_for_review id who now reviews).1
run_calls (deciding id d ∷ calls) reviews = run_calls calls (record_decision id d reviews).1

-- The review that a reader of the calls expects: that of the last submission of the listing, still
-- pending, with the decisions since then in order.
unfoldable pub expected_from : String → Option Review → List ReviewCall → Option Review
expected_from listing_id o [] = o
expected_from listing_id o (submitting id who now ∷ calls) =
    expected_from listing_id
      (if str_eq id listing_id
        then some (record {
          review_id = "rev-" <> listing_id;
          listing_id = listing_id;
          status = "PENDING";
          submitted_by = who;
          submitted_at = now;
          decisions = [];
        })
        else o)
      calls
expected_from listing_id none (deciding id d ∷ calls) = expected_from listing_id none calls
expected_from listing_id (some r) (deciding id d ∷ calls) =
    expected_from listing_id
      (some (if str_eq id listing_id then record r { decisions = r.decisions ++ d ∷ [] } else r))
      calls

decision_added-expected :
    (x id : String) (d : ReviewDecisionRecord) (calls : List ReviewCall) (reviews : Dict Review)
    (o : Option Review)
    → lookup id reviews ≡ o
    → expected_from x (lookup x (decision_added id d o reviews).1) calls
      ≡ expected_from x (lookup x reviews) (deciding id d ∷ calls)
unfolding expected_from decision_added
decision_added-expected x id d calls reviews none e = elim (str_eq_cases id x) [
  | inl (b, same) ↦ rw (sym same, e) refl
  | inr (b, n) ↦ elim (Option-cases (lookup x reviews)) [
    | inl none_ ↦ rw none_ refl
    | inr (r, there) ↦ rw (there, b) refl
  ]
]
decision_added-expected x id d calls reviews (some r) e = elim (str_eq_cases id x) [
  | inl (b, same) ↦ rw (lookup-insert, b, sym same, e, eq_refl) refl
  | inr (b, n) ↦ elim (Option-cases (lookup x reviews)) [
    | inl none_ ↦ rw (lookup-insert, b, none_) refl
    | inr (s, there) ↦ rw (lookup-insert, b, there, b) refl
  ]
]

run_calls-expected :
    (listing_id : String) (calls : List ReviewCall) (reviews : Dict Review)
    → get_review listing_id (run_calls calls reviews)
      ≡ expected_from listing_id (get_review listing_id reviews) calls
unfolding run_calls expected_from get_review submit_for_review record_decision decision_added
run_calls-expected x [] reviews = refl
run_calls-expected x (submitting id who now ∷ calls) reviews =
    run_calls-expected x calls _ ∙ submitted
  where
    submitted :
        expected_from x (lookup x (submit_for_review id who now reviews).1) calls
        ≡ expected_from x (lookup x reviews) (submitting id who now ∷ calls)
    submitted = elim (str_eq_cases id x) [
      | inl (e, same) ↦ rw (lookup-insert, e, same) refl
      | inr (e, n) ↦ rw (lookup-insert, e) refl
    ]
run_calls-expected x (deciding id d ∷ calls) reviews =
    run_calls-expected x calls _
    ∙ decision_added-expected x id d calls reviews (lookup id reviews) refl

expected-pending :
    (listing_id : String) (o : Option Review) (calls : List ReviewCall)
    → (review_status o ≡ none) ⊎ (review_status o ≡ some "PENDING")
    → (review_status (expected_from listing_id o calls) ≡ none)
      ⊎ (review_status (expected_from listing_id o calls) ≡ some "PENDING")
unfolding expected_from review_status
expected-pending x o [] h = h
expected-pending x o (submitting id who now ∷ calls) h = elim (Bool-cases (str_eq id x)) [
  | inl e ↦ rw e (expected-pending x (some _) calls (inr refl))
  | inr e ↦ rw e (expected-pending x o calls h)
]
expected-pending x none (deciding id d ∷ calls) h = expected-pending x none calls h
expected-pending x (some r) (deciding id d ∷ calls) h = elim (Bool-cases (str_eq id x)) [
  | inl e ↦ rw e (expected-pending x (some _) calls h)
  | inr e ↦ rw e (expected-pending x (some r) calls h)
]

-- After any submissions and decisions, the review of a listing is that of its last submission with
-- exactly the decisions recorded since, in order; and its status, where there is a review, is still
-- PENDING, whatever was decided.
pub run_calls-Recorded :
    (listing_id : String) (calls : List ReviewCall)
    → (get_review listing_id (run_calls calls []) ≡ expected_from listing_id none calls)
      × ((get_status listing_id (run_calls calls []) ≡ none)
          ⊎ (get_status listing_id (run_calls calls []) ≡ some "PENDING"))
unfolding get_status get_review lookup
run_calls-Recorded x calls =
    let e : get_review x (run_calls calls []) ≡ expected_from x none calls =
      run_calls-expected x calls [] in
    (e, rw e (expected-pending x none calls (inl (unfold review_status in refl))))
