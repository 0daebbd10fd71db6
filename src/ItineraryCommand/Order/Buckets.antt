-- ===== src/ItineraryCommand/Order/Buckets.antt =====
-- `optimize_day` pairs the names of the optimised plan with the ids of the day's entries.
use travel_assistant.Base.{
  ℕ, ◌+◌, ◌≡◌, refl, ap, String, Option, none, some, List, [], ◌∷◌, arith, string_eq, nat_eq,
}
use travel_assistant.Count.{count, count-append, count_one, count_none}
use travel_assistant.Dict.{lookup, insert}
use travel_assistant.ItineraryCommand.{Row}
use travel_assistant.ItineraryCommand.Order.{
  ids_of, add_to, by_name, pop_bucket, pair_names, all_buckets, ordered_ids,
}

abbrev bucket_of : Option (List ℕ) → List ℕ
bucket_of none = []
bucket_of (some bucket) = bucket

count-insert :
    (x : ℕ) (name : String) (new : List ℕ) (buckets : List (String × List ℕ))
    → count x (all_buckets (insert name new buckets)) + count x (bucket_of (lookup name buckets))
      ≡ count x (all_buckets buckets) + count x new
unfolding insert lookup all_buckets
count-insert x name new [] = ground (arith, count-append x new [], count_none x)
count-insert x name new ((other, bucket) ∷ buckets) = ground (
  arith,
  count-insert x name new buckets,
  count-append x bucket (all_buckets buckets),
  count-append x new (all_buckets buckets),
  count-append x bucket (all_buckets (insert name new buckets)),
)

count-add_to :
    (x id : ℕ) (found : Option (List ℕ))
    → count x (add_to found id) ≡ count x (bucket_of found) + count x (id ∷ [])
count-add_to x id none = ground (arith, count_none x)
count-add_to x id (some bucket) = count-append x bucket (id ∷ [])

count-by_name :
    {C : Type 0} (x : ℕ) (rows : List (Row C)) (buckets : List (String × List ℕ))
    → count x (all_buckets (by_name rows buckets))
      ≡ count x (ids_of rows) + count x (all_buckets buckets)
unfolding by_name
count-by_name x [] buckets = ground (arith, count_none x)
count-by_name x (row ∷ rows) buckets = ground (
  arith,
  count-by_name x rows (insert row.poi_name (add_to (lookup row.poi_name buckets) row.id) buckets),
  count-insert x row.poi_name (add_to (lookup row.poi_name buckets) row.id) buckets,
  count-add_to x row.id (lookup row.poi_name buckets),
  count_one x row.id (ids_of rows),
  count_one x row.id [],
  count_none x,
)

abbrev in_both : ℕ → List ℕ × List (String × List ℕ) → ℕ
in_both x paired = count x paired.0 + count x (all_buckets paired.1)

count-pop_bucket :
    (x : ℕ) (name : String) (found : Option (List ℕ)) (buckets : List (String × List ℕ))
    → lookup name buckets ≡ found
    → in_both x (pop_bucket name found buckets) ≡ count x (all_buckets buckets)
count-pop_bucket x name none buckets e = ground (arith, count_none x)
count-pop_bucket x name (some []) buckets e = ground (arith, count_none x)
count-pop_bucket x name (some (id ∷ bucket)) buckets e = ground (
  arith,
  count-insert x name bucket buckets,
  count_one x id bucket,
  count_one x id [],
  count_none x,
  ap (λ (b : Option (List ℕ)). count x (bucket_of b)) e,
)

count-pair_names :
    (x : ℕ) (names : List String) (buckets : List (String × List ℕ))
    → in_both x (pair_names names buckets) ≡ count x (all_buckets buckets)
unfolding pair_names
count-pair_names x [] buckets = ground (arith, count_none x)
count-pair_names x (name ∷ names) buckets =
    let popped : List ℕ × List (String × List ℕ) = pop_bucket name (lookup name buckets) buckets in
    ground (
      arith,
      count-pair_names x names popped.1,
      count-pop_bucket x name (lookup name buckets) buckets refl,
      count-append x popped.0 (pair_names names popped.1).0,
    )

-- Whatever names the optimised plan has, and however often, `optimize_day` writes positions for each of
-- the day's entries exactly once: no entry is lost, none twice, none that is not of the day.
pub count-ordered_ids :
    {C : Type 0} (names : List String) (rows : List (Row C)) (x : ℕ)
    → count x (ordered_ids names rows) ≡ count x (ids_of rows)
unfolding ordered_ids all_buckets
count-ordered_ids names rows x =
    let paired : List ℕ × List (String × List ℕ) = pair_names names (by_name rows []) in
    ground (
      arith,
      count-append x paired.0 (all_buckets paired.1),
      count-pair_names x names (by_name rows []),
      count-by_name x rows [],
      count_none x,
    )
