-- ===== src/Counter/Contract.antt =====
-- What the counter relies on in Redis and in its sink: the documented effect of each command on the
-- number that a key holds and on the members of a set. A call that returns an error, whose
-- answer may be lost, had its effect or none.
use social_ai_backend.Common.{◌≡◌, ◌⊎◌, Bool, true, false, none, some, List, [], ◌∷◌, All, Text, ℕ}
use social_ai_backend.Common.Int.{ℤ, pos, ◌+ℤ◌}
use social_ai_backend.Counter.{Store, Sink, parse_int}

pub record StoreLaws {S : Type 0} (store : Store S) : Type 0 where
  -- The number at a key, 0 where there is none, and whether a set has a member.
  pub value : S → Text → ℤ
  pub marked : S → Text → Text → Bool
  -- INCRBY.
  pub incr_by_done :
      (k : Text) (n : ℤ) (s : S)
      → (store.incr_by k n s).1 ≡ true
      → value (store.incr_by k n s).0 k ≡ value s k +ℤ n
  pub incr_by_failed :
      (k : Text) (n : ℤ) (s : S)
      → (store.incr_by k n s).1 ≡ false
      → (value (store.incr_by k n s).0 k ≡ value s k)
        ⊎ (value (store.incr_by k n s).0 k ≡ value s k +ℤ n)
  pub incr_by_other :
      (k l : Text) (n : ℤ) (s : S) → ¬ (k ≡ l) → value (store.incr_by k n s).0 l ≡ value s l
  -- SADD.
  pub s_add_done :
      (k m : Text) (s : S) → (store.s_add k m s).1 ≡ true → marked (store.s_add k m s).0 k m ≡ true
  pub s_add_value : (k m l : Text) (s : S) → value (store.s_add k m s).0 l ≡ value s l
  -- SPOP with a count.
  pub s_pop_n_members :
      (k : Text) (n : ℤ) (s : S) (ms : List Text)
      → (store.s_pop_n k n s).1 ≡ some ms
      → All (λ m. marked s k m ≡ true) ms
  pub s_pop_n_value : (k l : Text) (n : ℤ) (s : S) → value (store.s_pop_n k n s).0 l ≡ value s l
  -- GETDEL: the number in decimal, and the empty text where there is none.
  pub get_del_none : (k : Text) (s : S) → (store.get_del k s).1 ≡ some [] → value s k ≡ pos 0
  pub get_del_decimal :
      (k : Text) (s : S) (c : ℕ) (raw : Text)
      → (store.get_del k s).1 ≡ some (c ∷ raw)
      → parse_int (c ∷ raw) ≡ some (value s k)
  pub get_del_clears :
      (k : Text) (s : S) (raw : Text)
      → (store.get_del k s).1 ≡ some raw
      → value (store.get_del k s).0 k ≡ pos 0
  pub get_del_failed :
      (k : Text) (s : S)
      → (store.get_del k s).1 ≡ none
      → (value (store.get_del k s).0 k ≡ value s k) ⊎ (value (store.get_del k s).0 k ≡ pos 0)
  pub get_del_other : (k l : Text) (s : S) → ¬ (k ≡ l) → value (store.get_del k s).0 l ≡ value s l

pub record SinkLaws {D : Type 0} (sink : Sink D) : Type 0 where
  pub count : D → Text → Text → ℤ
  pub add_done :
      (id field : Text) (n : ℤ) (d : D)
      → (sink.add id field n d).1 ≡ true
      → count (sink.add id field n d).0 id field ≡ count d id field +ℤ n
  pub add_failed :
      (id field : Text) (n : ℤ) (d : D)
      → (sink.add id field n d).1 ≡ false
      → (count (sink.add id field n d).0 id field ≡ count d id field)
        ⊎ (count (sink.add id field n d).0 id field ≡ count d id field +ℤ n)
  pub add_other :
      (id field id' field' : Text) (n : ℤ) (d : D)
      → ¬ ((id ≡ id') × (field ≡ field'))
      → count (sink.add id field n d).0 id' field' ≡ count d id' field'
