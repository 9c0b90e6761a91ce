-- ===== src/Providers/Classifier/Facts.antt =====
-- pkg/providers/error_classifier.go: what a classified error carries.
use moon_hub.Base.{
  ℕ, ◌≡◌, ◌≢◌, refl, String, Bool, true, false, ◌||◌, some, inl, inr, arith, Option-cases,
}
use moon_hub.Providers.Types.{
  FailoverReason, format, overloaded, unknown, GoError, canceled, deadline_exceeded, message,
  FailoverError, is_retriable,
}
use moon_hub.Providers.Classifier.{
  TextOps, classify_by_status, is_image_dimension_error, is_image_size_error, classify_by_message,
  classify_text, classify_error,
}

-- The reasons that a classification can give: never `overloaded` or `unknown`.
abbrev pub is_given : FailoverReason → Bool
is_given overloaded = false
is_given unknown = false
is_given _ = true

pub record Explains (ops : TextOps) (err : GoError) (provider model : String) (f : FailoverError)
    : Type 0 where
  pub given : is_given f.reason ≡ true
  pub by_status : f.status ≢ 0 → classify_by_status f.status ≡ some f.reason
  pub names_provider : f.provider ≡ provider
  pub names_model : f.model ≡ model
  pub wraps : f.wrapped ≡ err

module _ (ops : TextOps) where
  classify_by_status-given :
      (s : ℕ) (r : FailoverReason) → classify_by_status s ≡ some r → is_given r ≡ true
  unfolding classify_by_status
  classify_by_status-given s r h = ground arith

  classify_by_message-given :
      (msg : String) (r : FailoverReason) → classify_by_message ops msg ≡ some r → is_given r ≡ true
  unfolding classify_by_message
  classify_by_message-given msg r h = ground arith

  classify_text_lem :
      (msg : String) (r : FailoverReason) (s : ℕ)
      → classify_text ops msg ≡ some (r, s)
      → (is_given r ≡ true) × (s ≢ 0 → classify_by_status s ≡ some r)
  unfolding classify_text
  classify_text_lem msg r s h =
      ground (arith, classify_by_message-given msg r, classify_by_status-given s r)

  -- A classified error names its provider and model, wraps the error, has one of the five reasons
  -- that the classifier gives, and a status other than 0 is the ground of its reason.
  pub classify_error-Explains :
      (err : GoError) (provider model : String) (f : FailoverError)
      → classify_error ops err provider model ≡ some f
      → Explains ops err provider model f
  unfolding classify_error
  classify_error-Explains canceled provider model f h = cc
  classify_error-Explains deadline_exceeded provider model f h = ground arith
  classify_error-Explains (message text) provider model f h =
      elim (Option-cases (classify_text ops (ops.to_lower text))) [
        | inl e ↦ cc (rw (e, classify_error) at h)
        | inr ((r, s), e) ↦ let l = classify_text_lem (ops.to_lower text) r s e in ground (arith, l)
      ]

  -- An image over the limits is a format error whatever else its text says, so it is not retried.
  pub classify_error-image :
      (text provider model : String)
      → (is_image_dimension_error ops (ops.to_lower text)
          || is_image_size_error ops (ops.to_lower text))
        ≡ true
      → (f : FailoverError) × (classify_error ops (message text) provider model ≡ some f)
        × (f.reason ≡ format)
        × (is_retriable f ≡ false)
  unfolding classify_error classify_text is_retriable
  classify_error-image text provider model h = (
    record {
      reason = format;
      provider = provider;
      model = model;
      status = 0;
      wrapped = message text;
    },
    ground arith,
    refl,
    refl,
  )
