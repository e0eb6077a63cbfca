-- ===== src/MediaTokens/Examples.antt =====
-- A link with numbers in place of UUIDs, written with 36 digits, and a checksum in place of HMAC, which gives
-- many texts the same signature.
use event_vision_pipeline.Base.{
  ℕ, zero, suc, true, ◌≤◌, [], ◌∷◌, ◌≡◌, ◌↔◌, refl, arith, ◌+◌, ◌<◌, ◌%◌,
}
use native.Mathlib.Nat.{mod-lt}
use event_vision_pipeline.Base.Effect.{ok, err}
use event_vision_pipeline.MediaTokens.{
  Text, Signing, MediaSettings, PreviewUrl, preview, link_expired, build_photo_preview_url,
  verify_photo_preview_signature, is_ascii,
}
use event_vision_pipeline.MediaTokens.Lifetime.{IsForLink, link_opens_its_photo}

abbrev zeros : ℕ → Text
zeros zero = []
zeros (suc n) = 48 ∷ zeros n

same_first : (m n : ℕ) (cs : Text) → (m ∷ cs) ≡ (n ∷ cs) → m ≡ n
same_first m n cs e = cc

abbrev total : Text → ℕ
total [] = 0
total (c ∷ cs) = c + total cs

checksum-ascii : (m : Text) → is_ascii (total m % 128 ∷ []) ≡ true
checksum-ascii m = ground (arith, mod-lt (total m))

abbrev plain : Signing
plain = record {
  Uuid = ℕ;
  uuid_text = λ u. u ∷ zeros 35;
  decimal = λ n. n ∷ [];
  hmac_sha256 = λ key m. total m % 128 ∷ [];
  hmac_ascii = λ key m. checksum-ascii m;
  uuid_text_length = λ u. refl;
  uuid_text_injective = λ u v. same_first u v (zeros 35);
  decimal_injective = λ m n. same_first m n [];
}

abbrev settings : MediaSettings
settings = record { secret_key = 49 ∷ []; s3_presigned_url_expiry = 60 }

abbrev party : ℕ
party = 1

abbrev portrait : ℕ
portrait = 2

abbrev link : PreviewUrl plain settings
link = build_photo_preview_url plain settings 40 party portrait preview

late :
    verify_photo_preview_signature plain settings 101 party portrait 100 link.sig ≡ err link_expired
unfolding verify_photo_preview_signature build_photo_preview_url
late = refl

-- The next photo, a second earlier, has the same checksum.
forged : verify_photo_preview_signature plain settings 70 party 3 99 link.sig ≡ ok tt
unfolding verify_photo_preview_signature build_photo_preview_url
forged = refl

link_opens_its_photo_example :
    (verify_photo_preview_signature plain settings 70 party portrait 100 link.sig ≡ ok tt) ↔ (
      (0 < 100)
      × ((70 ≤ 100) × IsForLink plain settings 70 40 party portrait preview party portrait 100))
link_opens_its_photo_example =
    link_opens_its_photo plain settings 70 40 party portrait preview party portrait 100
