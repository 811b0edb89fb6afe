-- ===== src/Recommend.antt =====
-- Ranking and diversity of recommendations (internal/recommend/service.go, internal/recommend/sort.go),
-- from the candidates with their scores. Scores and ratings are floating point there and only
-- compared here, so they are numbers.
pub mod Diverse
use stora_ecommerce.Prelude.{
  ℕ, zero, suc, ◌+◌, Bool, true, false, not, ◌&&◌, Option, none, some, List, [], ◌∷◌, ◌==◌, ltb,
  leb, if◌then◌else◌,
}

pub record Scored : Type 0 where
  pub product : ℕ
  pub category : Option ℕ
  pub avg_rating : ℕ
  pub score : ℕ

-- The order of `sortScored`.
abbrev pub outranks : Scored → Scored → Bool
outranks a b =
    if not (a.score == b.score) then ltb b.score a.score else ltb b.avg_rating a.avg_rating

abbrev pub insert_scored : Scored → List Scored → List Scored
insert_scored a [] = a ∷ []
insert_scored a (b ∷ rest) = if outranks b a then b ∷ insert_scored a rest else a ∷ b ∷ rest

-- `sort.SliceStable`
unfoldable pub sort_scored : List Scored → List Scored
sort_scored [] = []
sort_scored (a ∷ items) = insert_scored a (sort_scored items)

abbrev pub max_per_category : ℕ
max_per_category = 2

abbrev pub bump : ℕ → (ℕ → ℕ) → ℕ → ℕ
bump c per_category k = if k == c then per_category k + 1 else per_category k

-- Whether the category of an item is full, and the counts once it is taken.
abbrev pub is_full : (ℕ → ℕ) → Option ℕ → Bool
is_full per_category none = false
is_full per_category (some c) = leb max_per_category (per_category c)

abbrev pub taken : (ℕ → ℕ) → Option ℕ → ℕ → ℕ
taken per_category none = per_category
taken per_category (some c) = bump c per_category

-- The loop of the diversity cap, with the room that is left in `out`.
unfoldable pub pick : ℕ → (ℕ → ℕ) → List Scored → List Scored
pick zero per_category items = []
pick (suc room) per_category [] = []
pick (suc room) per_category (r ∷ items) =
    let skip = pick (suc room) per_category items in
    let take = r ∷ pick room (taken per_category r.category) items in
    if is_full per_category r.category then skip else take

-- The end of `Recommend`; a limit below one gives nothing.
unfoldable pub select : ℕ → List Scored → List Scored
select limit candidates = pick limit (λ c. 0) (sort_scored candidates)
