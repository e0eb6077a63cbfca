-- ===== src/MediaTokens.antt =====
-- utils/media_tokens.py: signed links to photo previews. Texts are lists of code points. hmac, and how a
-- UUID and a number are written, are parameters; a link is kept as the parts of its URL, which the route
-- hands to the check. A negative expiry, which is refused as 0 is, has no value here.
pub mod Lifetime
mod Examples
use event_vision_pipeline.Base.{
  ℕ, ◌+◌, Bool, true, false, ◌&&◌, List, [], ◌∷◌, ◌++◌, ◌≡◌, ◌==◌, ltb, length, if◌then◌else◌,
}
use event_vision_pipeline.Base.Effect.{Result, ok, err}

abbrev pub Text : Type 0
Text = List ℕ

pub data PhotoVariant : Type 0 where
  micro_thumb thumb preview full : PhotoVariant

-- BadRequestError, the two of AuthenticationError, and what `hmac.compare_digest` raises on a text with
-- characters outside of ASCII.
pub data MediaError : Type 0 where
  invalid_expiry link_expired invalid_signature type_error : MediaError

abbrev pub is_ascii : Text → Bool
is_ascii [] = true
is_ascii (c ∷ cs) = let later = is_ascii cs in if ltb c 128 then later else false

-- What is used of the library, with its documented behaviour.
pub record Signing : Type 1 where
  pub Uuid : Type 0
  pub uuid_text : Uuid → Text
  pub decimal : ℕ → Text
  pub hmac_sha256 : Text → Text → Text
  -- a hex digest
  pub hmac_ascii : (key m : Text) → is_ascii (hmac_sha256 key m) ≡ true
  pub uuid_text_length : (u : Uuid) → length (uuid_text u) ≡ 36
  pub uuid_text_injective : (u v : Uuid) → uuid_text u ≡ uuid_text v → u ≡ v
  pub decimal_injective : (m n : ℕ) → decimal m ≡ decimal n → m ≡ n

pub record MediaSettings : Type 0 where
  pub secret_key : Text
  pub s3_presigned_url_expiry : ℕ

abbrev pub text_eq : Text → Text → Bool
text_eq [] [] = true
text_eq (c ∷ cs) (d ∷ ds) = let later = text_eq cs ds in if c == d then later else false
text_eq _ _ = false

-- hmac.compare_digest
abbrev pub compare_digest : Text → Text → Result MediaError Bool
compare_digest a b = if is_ascii a && is_ascii b then ok (text_eq a b) else err type_error

abbrev pub checked : Result MediaError Bool → Result MediaError Unit
checked (err e) = err e
checked (ok false) = err invalid_signature
checked (ok true) = ok tt

module _ (signing : Signing) (settings : MediaSettings) where
  open signing use {Uuid}

  pub record PreviewUrl : Type 0 where
    pub event_id : Uuid
    pub photo_id : Uuid
    pub expires : ℕ
    pub sig : Text
    pub variant : PhotoVariant

  -- f"{event_id}.{photo_id}.{expires_at}"
  abbrev pub message : Uuid → Uuid → ℕ → Text
  message event_id photo_id expires_at =
      signing.uuid_text event_id
      ++ (46 ∷ (signing.uuid_text photo_id ++ (46 ∷ signing.decimal expires_at)))

  abbrev pub sign_photo_preview : Uuid → Uuid → ℕ → Text
  sign_photo_preview event_id photo_id expires_at =
      signing.hmac_sha256 settings.secret_key (message event_id photo_id expires_at)

  unfoldable pub build_photo_preview_url : ℕ → Uuid → Uuid → PhotoVariant → PreviewUrl
  build_photo_preview_url now event_id photo_id variant =
      let expires_at = now + settings.s3_presigned_url_expiry in
      record {
        event_id = event_id;
        photo_id = photo_id;
        expires = expires_at;
        sig = sign_photo_preview event_id photo_id expires_at;
        variant = variant;
      }

  unfoldable pub verify_photo_preview_signature :
      ℕ → Uuid → Uuid → ℕ → Text → Result MediaError Unit
  verify_photo_preview_signature now event_id photo_id expires_at signature =
      if expires_at == 0
      then err invalid_expiry
      else if ltb expires_at now
      then err link_expired
      else checked (compare_digest (sign_photo_preview event_id photo_id expires_at) signature)
