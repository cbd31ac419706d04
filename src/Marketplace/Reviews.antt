-- ===== src/Marketplace/Reviews.antt =====
-- control_plane/governance/marketplace/governance/review_service.py: reviews by listing. Times are
-- arguments.
pub mod Recorded
use kitematic.Base.{◌<>◌, String, Bool, true, false, Option, none, some, List, [], ◌∷◌, ◌++◌}
use kitematic.Base.Dict.{Dict, lookup, insert}

pub record ReviewDecisionRecord : Type 0 where
  pub decision : String
  pub reviewer_id : String
  pub reason : String
  pub timestamp : String

pub record Review : Type 0 where
  pub review_id : String
  pub listing_id : String
  pub status : String
  pub submitted_by : String
  pub submitted_at : String
  pub decisions : List ReviewDecisionRecord

unfoldable pub submit_for_review :
    (listing_id submitter_id now : String) → Dict Review → String × Dict Review
submit_for_review listing_id submitter_id now reviews = (
  "rev-" <> listing_id,
  insert listing_id
      (record {
        review_id = "rev-" <> listing_id;
        listing_id = listing_id;
        status = "PENDING";
        submitted_by = submitter_id;
        submitted_at = now;
        decisions = [];
      })
      reviews,
)

unfoldable pub decision_added :
    String → ReviewDecisionRecord → Option Review → Dict Review → Bool × Dict Review
decision_added listing_id d none reviews = (false, reviews)
decision_added listing_id d (some review) reviews =
    (true, insert listing_id (record review { decisions = review.decisions ++ d ∷ [] }) reviews)

unfoldable pub record_decision : String → ReviewDecisionRecord → Dict Review → Bool × Dict Review
unfolding decision_added
record_decision listing_id d reviews =
    decision_added listing_id d (lookup listing_id reviews) reviews

unfoldable pub get_review : String → Dict Review → Option Review
get_review listing_id reviews = lookup listing_id reviews

unfoldable pub review_status : Option Review → Option String
review_status none = none
review_status (some review) = some review.status

unfoldable pub get_status : String → Dict Review → Option String
unfolding review_status
get_status listing_id reviews = review_status (lookup listing_id reviews)
