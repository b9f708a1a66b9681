-- ===== src/Feed/Merge/Paging.antt =====
-- Paging through a merged feed by `Before` and the cursor of the last item seen.
use social_ai_backend.Common.{
  ◌≡◌, ◌∙◌, false, List, ◌∷◌, ◌++◌, arith, All-weaken, All-append_right, keep-append, keep_none,
  keep-All, ℕ, Pairwise-append_right, Pairwise-across, keep, is_empty, text_lt_irrefl,
}
use social_ai_backend.Common.Sort.{StrictlySorted}
use social_ai_backend.Feed.Merge.{Item, newer, is_before, before, cursor_of, merge}
use social_ai_backend.Feed.Merge.Order.{newer_asymm, merge_sorted}

-- `Before`'s test at an item's cursor is the order that `Merge` sorts by.
is_before-cursor_of : (x it : Item) → is_before (cursor_of x) it ≡ newer x it
unfolding is_before newer
is_before-cursor_of x it = ground arith

pub newer_irrefl : (x : Item) → newer x x ≡ false
unfolding newer
newer_irrefl x = ground (arith, text_lt_irrefl x.post_id)

before_rest :
    (xs ys : List Item) (x : Item)
    → StrictlySorted newer (xs ++ x ∷ ys)
    → keep (is_before (cursor_of x)) (xs ++ x ∷ ys) ≡ ys
before_rest xs ys x s =
    keep-append (is_before (cursor_of x)) xs (x ∷ ys)
    ∙ rw
        (
          keep_none (is_before (cursor_of x)) xs (
              All-weaken _ _ (λ y h. is_before-cursor_of x y ∙ newer_asymm y x h.0) xs
                (Pairwise-across _ xs (x ∷ ys) s)),
          is_before-cursor_of x x,
          newer_irrefl x,
        )
        (keep-All (is_before (cursor_of x)) ys (
          All-weaken _ _ (λ y h. is_before-cursor_of x y ∙ h) ys
            (Pairwise-append_right _ xs (x ∷ ys) s).0))

-- In a merged feed, the items before the cursor of any of its items are exactly the ones that
-- follow that item, so a page that ends there and the pages after it repeat and skip nothing.
pub before-cursor_of :
    (limit : ℕ) (lists : List (List Item)) (xs ys : List Item) (x : Item)
    → merge limit lists ≡ xs ++ x ∷ ys
    → before (merge limit lists) (cursor_of x) ≡ ys
unfolding before
before-cursor_of limit lists xs ys x e =
    rw (e, named) (before_rest xs ys x (rw e at (merge_sorted limit lists).0))
  where
    named : is_empty x.post_id ≡ false
    named = (All-append_right _ xs (x ∷ ys) (rw e at (merge_sorted limit lists).2)).0
