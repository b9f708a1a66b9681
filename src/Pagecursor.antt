-- ===== src/Pagecursor.antt =====
-- shared/pagecursor/pagecursor.go: `Encode` and `Decode`. JSON and base64 are parameters; `Limit` is
-- modelled with the message service, in Message/Page.
use social_ai_backend.Common.{
  ◌≡◌, refl, ◌∙◌, false, Option, some, if◌then◌else◌, Text, is_empty, Attempt, ok, found_or, ◌>>=◌,
}

-- encoding/json at the type of a cursor, where `unmarshal` fills a given value, and base64.RawURLEncoding.
pub record Format (V : Type 0) : Type 0 where
  pub marshal : V → Text
  pub unmarshal : Text → V → Option V
  pub to_base64 : Text → Text
  pub from_base64 : Text → Option Text

-- What the two encodings promise: each reads back what it wrote, and no text is written as the empty one.
pub record FormatLaws {V : Type 0} (f : Format V) : Type 0 where
  pub from_base64-to_base64 : (b : Text) → f.from_base64 (f.to_base64 b) ≡ some b
  pub unmarshal-marshal : (v u : V) → f.unmarshal (f.marshal v) u ≡ some v
  pub is_empty-to_base64 : (b : Text) → is_empty (f.to_base64 b) ≡ is_empty b
  pub is_empty-marshal : (v : V) → is_empty (f.marshal v) ≡ false

module _ {V : Type 0} (f : Format V) where
  unfoldable pub encode : V → Text
  encode v = f.to_base64 (f.marshal v)

  -- `bad` stands for `ErrBad`, wrapped in the error of the caller.
  module _ {E : Type 0} (bad : E) where
    decode_some : Text → V → Attempt E V
    decode_some s v = do raw ← found_or bad (f.from_base64 s); found_or bad (f.unmarshal raw v)

    unfoldable pub decode : Text → V → Attempt E V
    unfolding decode_some
    decode s v = if is_empty s then ok v else decode_some s v

  -- A cursor that was handed out is read back, whatever value it is read into.
  pub decode-encode :
      {E : Type 0} (bad : E) → FormatLaws f → (v u : V) → decode bad (encode v) u ≡ ok v
  unfolding encode decode
  decode-encode bad laws v u =
      rw
        (
          laws.is_empty-to_base64, laws.is_empty-marshal, laws.from_base64-to_base64,
          laws.unmarshal-marshal,
        )
        refl

  pub is_empty-encode : FormatLaws f → (v : V) → is_empty (encode v) ≡ false
  unfolding encode
  is_empty-encode laws v = laws.is_empty-to_base64 (f.marshal v) ∙ laws.is_empty-marshal v
