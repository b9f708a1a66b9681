-- ===== src/Examples/Counting.antt =====
-- A counter over a Redis with room for one increment of one counter.
use social_ai_backend.Common.{
  ◌≡◌, refl, sym, subst, ◌∙◌, inl, inr, Bool, true, false, not, ◌&&◌, ◌||◌, none, some, List, [],
  ◌∷◌, ◌++◌, arith, ℕ, Text, text_eq, text_eq→eq, if◌then◌else◌, Bool-cases, All,
}
use social_ai_backend.Common.Int.{ℤ, pos, ◌+ℤ◌, eqb_ℤ, eqb_ℤ_iff}
use social_ai_backend.Counter.{
  Store, Sink, delta_key, dirty_key, member, split_member, parse_int, parse_digits, incr, flush,
  flush_members, flush_member, settle, apply_parsed, apply, Progress,
}
use social_ai_backend.Counter.Contract.{StoreLaws}
use social_ai_backend.Counter.Conserve.{IncrOutcome, incr_outcome}
use social_ai_backend.Post.Tables.{like_field}

abbrev pub post : Text
post = b'1' ∷ []

abbrev pub likes : Text
likes = like_field

-- The keys under the empty prefix.
abbrev pub hot : Text
hot = b':' ∷ (like_field ++ b':' ∷ b'1' ∷ [])

abbrev pub hot_member : Text
hot_member = like_field ++ b'|' ∷ b'1' ∷ []

pub record Tiny : Type 0 where
  pub on : Bool
  pub dirty : Bool

unfoldable tiny_value : Tiny → Text → ℤ
tiny_value s k = if s.on && text_eq k hot then pos 1 else pos 0

unfoldable tiny_marked : Tiny → Text → Text → Bool
tiny_marked s k m = s.dirty && (text_eq k (dirty_key []) && text_eq m hot_member)

abbrev pub tiny_text : Bool → Text
tiny_text true = b'1' ∷ []
tiny_text false = []

abbrev pub tiny_members : Bool → List Text
tiny_members true = hot_member ∷ []
tiny_members false = []

abbrev pub tiny : Store Tiny
tiny = record {
  incr_by = λ k n s.
      if text_eq k hot && (not s.on && eqb_ℤ n (pos 1))
      then (record s { on = true }, true)
      else (s, false);
  s_add = λ k m s.
      if text_eq k (dirty_key []) && text_eq m hot_member
      then (record s { dirty = true }, true)
      else (s, false);
  s_pop_n = λ k n s.
      if text_eq k (dirty_key [])
      then (record s { dirty = false }, some (tiny_members s.dirty))
      else (s, none);
  get_del = λ k s.
      if text_eq k hot then (record s { on = false }, some (tiny_text s.on)) else (s, some []);
}

some_inj {ℓ} : {A : Type ℓ} {a b : A} → some a ≡ some b → a ≡ b
some_inj e = cc

none_ne : {a : List Text} → ¬ (none ≡ some a)
none_ne e = absurd cc

nil_ne : {c : ℕ} {s : Text} → ¬ ([] ≡ c ∷ s)
nil_ne e = absurd cc

same_key : (k l : Text) → text_eq k hot ≡ true → text_eq l hot ≡ true → k ≡ l
same_key k l a b = text_eq→eq k hot a ∙ sym (text_eq→eq l hot b)

one_more : (n : ℤ) → eqb_ℤ n (pos 1) ≡ true → pos 1 ≡ pos 0 +ℤ n
unfolding ◌+ℤ◌
one_more n h = rw ((eqb_ℤ_iff n (pos 1)).0 h) refl

tiny_members_marked :
    (k : Text) (s : Tiny) (b : Bool)
    → s.dirty ≡ b
    → text_eq k (dirty_key []) ≡ true
    → All (λ m. tiny_marked s k m ≡ true) (tiny_members b)
unfolding tiny_marked text_eq
tiny_members_marked k s true d e = (rw (d, e) refl, tt)
tiny_members_marked k s false d e = tt

popped_marked :
    (k : Text) (n : ℤ) (s : Tiny) (ms : List Text)
    → (tiny.s_pop_n k n s).1 ≡ some ms
    → All (λ m. tiny_marked s k m ≡ true) ms
popped_marked k n s ms h = elim (Bool-cases (text_eq k (dirty_key []))) [
  | inl e ↦
      let same : tiny_members s.dirty ≡ ms = some_inj (rw e at h) in
      subst (All (λ m. tiny_marked s k m ≡ true)) same (tiny_members_marked k s s.dirty refl e)
  | inr e ↦ absurd (none_ne (rw e at h))
]

one_parsed : (c : ℕ) (raw : Text) → b'1' ∷ [] ≡ c ∷ raw → parse_int (c ∷ raw) ≡ some (pos 1)
unfolding parse_int parse_digits
one_parsed c raw h = subst (λ t. parse_int t ≡ some (pos 1)) h refl

decimal_parsed :
    (k : Text) (s : Tiny) (c : ℕ) (raw : Text)
    → (tiny.get_del k s).1 ≡ some (c ∷ raw)
    → parse_int (c ∷ raw) ≡ some (tiny_value s k)
unfolding tiny_value
decimal_parsed k s c raw h = elim (Bool-cases (text_eq k hot)) [
  | inl e ↦ elim (Bool-cases s.on) [
    | inl f ↦ rw (e, f) (one_parsed c raw (some_inj (rw (e, f) at h)))
    | inr f ↦ absurd (nil_ne (some_inj (rw (e, f) at h)))
  ]
  | inr e ↦ absurd (nil_ne (some_inj (rw e at h)))
]

pub tiny_laws : StoreLaws tiny
unfolding tiny_value tiny_marked
tiny_laws = record {
  value = tiny_value;
  marked = tiny_marked;
  incr_by_done = λ k n s h. ground (arith, one_more n);
  incr_by_failed = λ k n s h. inl (ground arith);
  incr_by_other = λ k l n s h. ground (arith, same_key k l);
  s_add_done = λ k m s h. ground arith;
  s_add_value = λ k m l s. ground arith;
  s_pop_n_members = popped_marked;
  s_pop_n_value = λ k l n s. ground arith;
  get_del_none = λ k s h. ground arith;
  get_del_decimal = decimal_parsed;
  get_del_clears = λ k s raw h. ground arith;
  get_del_failed = λ k s h. inl (ground arith);
  get_del_other = λ k l s h. ground (arith, same_key k l);
}

-- The count of one post's likes.
unfoldable counted : ℤ → Text → Text → ℤ
counted d id field = if text_eq id post && text_eq field likes then d else pos 0

-- A database whose answers are given: a call that returns an error had its effect or none.
abbrev table : Bool → Bool → Sink ℤ
table up lost = record {
  add = λ id field n d.
      if text_eq id post && text_eq field likes
      then (if up || lost then d +ℤ n else d, up)
      else (d, false);
}

abbrev pending : Tiny
pending = record { on = true; dirty = true }

abbrev pub untouched : Tiny
untouched = record { on = false; dirty = false }

incr_outcome_example :
    IncrOutcome tiny_laws [] post likes
      (pos 1)
      untouched
      (incr tiny [] post likes (pos 1) untouched)
incr_outcome_example = incr_outcome tiny_laws [] post likes (pos 1) untouched

-- The database writes the row and does not say so.
abbrev flushed : Progress Tiny ℤ
flushed = flush tiny (table false true) [] (pos 500) pending (pos 7)

-- The delta is in the row and in Redis.
counted_twice : (flushed.rows ≡ pos 8) × (flushed.redis.on ≡ true)
unfolding flush flush_members flush_member split_member settle parse_int parse_digits apply_parsed
    apply incr delta_key member text_eq ◌+ℤ◌
counted_twice = (refl, refl)
