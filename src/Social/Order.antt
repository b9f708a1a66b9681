-- ===== src/Social/Order.antt =====
-- The order of a follow list (shared/socialgraph/socialgraph.go), and its pages.
use social_ai_backend.Common.{
  ℕ, zero, suc, ◌≤◌, ◌<◌, ◌≡◌, refl, ap, subst, ◌∙◌, inl, inr, Bool, true, false, Option, none,
  some, List, [], ◌∷◌, ◌++◌, arith, Bool-cases, keep, keep-All, map, length, take, length-take, All,
  All-of_In, Pairwise, text_eq, is_empty, text_eq_refl, text_eq→eq, text_lt_irrefl, text_lt_asymm,
  text_lt_flip, text_lt_neg_trans,
}
use social_ai_backend.Common.Sort.{
  sort, Sorted, StrictlySorted, IsStrictWeak, sort-Sorted, sort-Pairwise,
}
use social_ai_backend.Common.Keyset.{sort-keep, keep_rest}
use social_ai_backend.Social.Graph.{
  Entry, Cursor, Page, cursor_at, newest, is_past, select_page, fill_page,
}

newest_asymm : (e f : Entry) → newest e f ≡ true → newest f e ≡ false
unfolding newest
newest_asymm e f h = ground (arith, text_lt_asymm f.id e.id)

newest_neg_trans : (a b c : Entry) → newest b a ≡ false → newest c b ≡ false → newest c a ≡ false
unfolding newest
newest_neg_trans a b c h k = ground (arith, text_lt_neg_trans c.id b.id a.id)

newest-IsStrictWeak : IsStrictWeak newest
newest-IsStrictWeak = record { asymm = newest_asymm; neg_trans = newest_neg_trans }

newest_irrefl : (e : Entry) → newest e e ≡ false
unfolding newest
newest_irrefl e = ground (arith, text_lt_irrefl e.id)

abbrev pub Distinct : Entry → Entry → Type 0
Distinct e f = text_eq e.id f.id ≡ false

newest_total : (e f : Entry) → Distinct e f → newest f e ≡ false → newest e f ≡ true
unfolding newest
newest_total e f d h = ground (arith, text_lt_flip e.id f.id, text_eq→eq e.id f.id)

Distinct-comm : (e f : Entry) → Distinct e f → Distinct f e
Distinct-comm e f d = elim (Bool-cases (text_eq f.id e.id)) [
  | inl h ↦ absurd (
      ground
        (arith, d, subst (λ t. text_eq t f.id ≡ true) (text_eq→eq f.id e.id h) (text_eq_refl f.id)))
  | inr h ↦ h
]

strictly : (es : List Entry) → Pairwise Distinct es → Sorted newest es → StrictlySorted newest es
strictly [] d s = tt
strictly (e ∷ es) d s = (both es d.0 s.0, strictly es d.1 s.1)
  where
    both :
        (fs : List Entry)
        → All (Distinct e) fs
        → All (λ y. newest y e ≡ false) fs
        → All (λ y. newest e y ≡ true) fs
    both [] k l = tt
    both (f ∷ fs) k l = (newest_total e f k.0 l.0, both fs k.1 l.1)

pub sort-StrictlySorted :
    (es : List Entry) → Pairwise Distinct es → StrictlySorted newest (sort newest es)
sort-StrictlySorted es d =
    strictly (sort newest es) (sort-Pairwise newest Distinct Distinct-comm es d)
      (sort-Sorted newest newest-IsStrictWeak es)

-- The SQL condition at the cursor of an entry is the order of the list.
is_past-cursor_at : (x e : Entry) → is_empty x.id ≡ false → is_past (cursor_at x) e ≡ newest x e
unfolding is_past newest
is_past-cursor_at x e named = rw named (ground arith)

pub is_past_first : (e : Entry) → is_past (record { t = 0; id = [] }) e ≡ true
unfolding is_past
is_past_first e = refl

-- The first page.
pub first_rows :
    (limit : ℕ) (es : List Entry)
    → select_page (record { t = 0; id = [] }) limit es ≡ take limit (sort newest es)
unfolding select_page
first_rows limit es =
    ap (λ xs. take limit (sort newest xs)) (keep-All _ es (All-of_In _ es (λ e m. is_past_first e)))

-- A page after an entry of the list holds the entries that follow it.
pub rows_after :
    (limit : ℕ) (es xs ys : List Entry) (x : Entry)
    → Pairwise Distinct es
    → is_empty x.id ≡ false
    → sort newest es ≡ xs ++ x ∷ ys
    → select_page (cursor_at x) limit es ≡ take limit ys
unfolding select_page
rows_after limit es xs ys x d named e = ap (take limit) (
    sort-keep newest newest-IsStrictWeak (is_past (cursor_at x)) es
    ∙ rw
        (
          e,
          keep_eq (is_past (cursor_at x)) (newest x) (λ y. is_past-cursor_at x y named)
              (xs ++ x ∷ ys),
        )
        (keep_rest newest newest-IsStrictWeak xs ys x (rw e at (sort-StrictlySorted es d))
          (newest_irrefl x)))
  where
    keep_eq :
        (p q : Entry → Bool) → ((y : Entry) → p y ≡ q y) → (zs : List Entry) → keep p zs ≡ keep q zs
    keep_eq p q h [] = refl
    keep_eq p q h (z ∷ zs) = rw (h z, keep_eq p q h zs) refl

-- The loop over the rows, when they fit the page.
pub fill_page_all :
    (n : ℕ) (last : Option Entry) (es : List Entry)
    → length es ≤ n
    → fill_page n last (take (suc n) es) ≡ record { ids = map (λ e. e.id) es; next = none }
unfolding fill_page
fill_page_all zero last [] h = refl
fill_page_all zero last (e ∷ es) h = absurd (omega arith)
fill_page_all (suc n) last [] h = refl
fill_page_all (suc n) last (e ∷ es) h =
    ap (λ (p : Page). record { ids = e.id ∷ p.ids; next = p.next })
      (fill_page_all n (some e) es (omega arith))

abbrev last_of : Option Entry → List Entry → Option Entry
last_of l [] = l
last_of l (e ∷ es) = last_of (some e) es

abbrev cursor_of_last : Option Entry → Option Cursor
cursor_of_last l = elim l [ none ↦ none | some e ↦ some (cursor_at e) ]

fill_page_last :
    (n : ℕ) (last : Option Entry) (es : List Entry)
    → n < length es
    → fill_page n last (take (suc n) es) ≡ record {
      ids = map (λ e. e.id) (take n es);
      next = cursor_of_last (last_of last (take n es));
    }
unfolding fill_page
fill_page_last n last [] h = absurd (omega arith)
fill_page_last zero last (e ∷ es) h = refl
fill_page_last (suc n) last (e ∷ es) h =
    ap (λ (p : Page). record { ids = e.id ∷ p.ids; next = p.next })
      (fill_page_last n (some e) es (omega arith))

split_last :
    (l : Option Entry) (es : List Entry)
    → 1 ≤ length es
    → (ys : List Entry) × (z : Entry) × (es ≡ ys ++ z ∷ []) × (last_of l es ≡ some z)
split_last l [] h = absurd (omega arith)
split_last l (e ∷ []) h = ([], e, refl, refl)
split_last l (e ∷ f ∷ es) h =
    let (ys, z, same, end) = split_last (some e) (f ∷ es) (omega arith) in
    (e ∷ ys, z, ap (◌∷◌ e) same, end)

-- When there are more rows: the page ends with an entry, to which its cursor points.
pub fill_page_cut :
    (n : ℕ) (es : List Entry)
    → 1 ≤ n
    → n < length es
    → (ys : List Entry) × (z : Entry) × (take n es ≡ ys ++ z ∷ [])
      × (fill_page n none (take (suc n) es)
          ≡ record { ids = map (λ e. e.id) (take n es); next = some (cursor_at z) })
fill_page_cut n es h k =
    let (ys, z, same, end) = split_last none (take n es) (omega (arith, length-take n es)) in
    (ys, z, same, fill_page_last n none es k ∙ rw end refl)
