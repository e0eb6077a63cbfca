-- ===== src/MediaTokens/Lifetime.antt =====
-- What a signed link of utils/media_tokens.py opens, and for how long.
use event_vision_pipeline.Base.{
  ℕ, ◌<◌, ◌≤◌, true, false, ◌&&◌, [], ◌∷◌, ◌++◌, ◌≡◌, ◌≢◌, ◌⊎◌, ◌↔◌, refl, inl, inr, arith,
  Bool-cases, ◌==◌, ltb, length, sym, ◌∙◌, subst, ◌+◌,
}
use event_vision_pipeline.Base.Effect.{ok}
use event_vision_pipeline.MediaTokens.{
  Text, Signing, MediaSettings, PhotoVariant, PreviewUrl, message, sign_photo_preview, is_ascii,
  text_eq, compare_digest, checked, build_photo_preview_url, verify_photo_preview_signature,
}

cons_same : (c d : ℕ) (cs ds : Text) → (c ∷ cs) ≡ (d ∷ ds) → (c ≡ d) × (cs ≡ ds)
cons_same c d cs ds e = (cc, cc)

append_same :
    (xs ys us vs : Text) → length xs ≡ length ys → (xs ++ us) ≡ (ys ++ vs) → (xs ≡ ys) × (us ≡ vs)
append_same [] [] us vs l e = (refl, e)
append_same [] (y ∷ ys) us vs l e = absurd (omega arith)
append_same (x ∷ xs) [] us vs l e = absurd (omega arith)
append_same (x ∷ xs) (y ∷ ys) us vs l e =
    let (same, rest) = cons_same x y (xs ++ us) (ys ++ vs) e in
    let (heads, tails) = append_same xs ys us vs (omega arith) rest in (cc, tails)

text_eq_same : (a b : Text) → text_eq a b ≡ true → a ≡ b
text_eq_same [] [] e = refl
text_eq_same [] (d ∷ ds) e = cc
text_eq_same (c ∷ cs) [] e = cc
text_eq_same (c ∷ cs) (d ∷ ds) e = elim (Bool-cases (c == d)) [
  | inl q ↦ let heads : c ≡ d = ground arith in let tails = text_eq_same cs ds (rw q at e) in cc
  | inr q ↦ let no = rw q at e in cc
]

text_eq_refl : (a : Text) → text_eq a a ≡ true
text_eq_refl [] = refl
text_eq_refl (c ∷ cs) = ground (arith, text_eq_refl cs)

compared : (a b : Text) → checked (compare_digest a b) ≡ ok tt → a ≡ b
compared a b e = elim (Bool-cases (is_ascii a && is_ascii b)) [
  | inl q ↦ elim (Bool-cases (text_eq a b)) [
    | inl r ↦ text_eq_same a b r
    | inr r ↦ let no = rw r at (rw q at e) in cc
  ]
  | inr q ↦ let no = rw q at e in cc
]

accepted : (a : Text) → is_ascii a ≡ true → checked (compare_digest a a) ≡ ok tt
accepted a h = rw h (rw (text_eq_refl a) refl)

module _ (signing : Signing) (settings : MediaSettings) where
  open signing use {Uuid}

  message_same :
      (e e' p p' : Uuid) (x x' : ℕ)
      → message signing settings e p x ≡ message signing settings e' p' x'
      → (e ≡ e') × ((p ≡ p') × (x ≡ x'))
  message_same e e' p p' x x' h =
      let rest = λ (q : Uuid) (n : ℕ). signing.uuid_text q ++ (46 ∷ signing.decimal n) in
      let (events, later) =
        append_same (signing.uuid_text e) (signing.uuid_text e') (46 ∷ rest p x) (46 ∷ rest p' x')
          (signing.uuid_text_length e ∙ sym (signing.uuid_text_length e')) h in
      let (photos, last) =
        append_same (signing.uuid_text p) (signing.uuid_text p') (46 ∷ signing.decimal x)
          (46 ∷ signing.decimal x') (signing.uuid_text_length p ∙ sym (signing.uuid_text_length p'))
          (cons_same 46 46 (rest p x) (rest p' x') later).1 in
      (
        signing.uuid_text_injective e e' events,
        (
          signing.uuid_text_injective p p' photos,
          signing.decimal_injective x x'
              (cons_same 46 46 (signing.decimal x) (signing.decimal x') last).1,
        ),
      )

  module _ (now built : ℕ) (event_id photo_id : Uuid) (variant : PhotoVariant) where
    abbrev link : PreviewUrl signing settings
    link = build_photo_preview_url signing settings built event_id photo_id variant

    abbrev own_message : Text
    own_message =
        message signing settings event_id photo_id (built + settings.s3_presigned_url_expiry)

    -- The parts are those of the link, or their text is another one with the signature of the link.
    abbrev pub IsForLink : Uuid → Uuid → ℕ → Type 0
    IsForLink event_id' photo_id' expires' =
        ((event_id' ≡ event_id) × ((photo_id' ≡ photo_id) × (expires' ≡ link.expires)))
        ⊎ ((message signing settings event_id' photo_id' expires' ≢ own_message)
            × (sign_photo_preview signing settings event_id' photo_id' expires' ≡ link.sig))

    for_link :
        (event_id' photo_id' : Uuid) (expires' : ℕ)
        → sign_photo_preview signing settings event_id' photo_id' expires' ≡ link.sig
        → IsForLink event_id' photo_id' expires'
    unfolding build_photo_preview_url
    for_link event_id' photo_id' expires' signed =
        let m = message signing settings event_id' photo_id' expires' in
        elim (Bool-cases (text_eq m own_message)) [
          | inl q ↦ inl (
              message_same event_id' event_id photo_id' photo_id expires'
                (built + settings.s3_presigned_url_expiry) (text_eq_same m own_message q))
          | inr n ↦ inr (
            (λ e.
                let same : text_eq m own_message ≡ true =
                  subst (λ (x : Text). text_eq m x ≡ true) e (text_eq_refl m) in
                cc),
            signed,
          )
        ]

    signed_for :
        (event_id' photo_id' : Uuid) (expires' : ℕ)
        → IsForLink event_id' photo_id' expires'
        → sign_photo_preview signing settings event_id' photo_id' expires' ≡ link.sig
    unfolding build_photo_preview_url
    signed_for event_id' photo_id' expires' (inl (e, (p, x))) = cc
    signed_for event_id' photo_id' expires' (inr (other, signed)) = signed

    opens :
        (event_id' photo_id' : Uuid) (expires' : ℕ)
        → verify_photo_preview_signature signing settings now event_id' photo_id' expires' link.sig
          ≡ ok tt
        → (0 < expires') × ((now ≤ expires') × IsForLink event_id' photo_id' expires')
    unfolding verify_photo_preview_signature
    opens event_id' photo_id' expires' e = elim (Bool-cases (expires' == 0)) [
      | inl q ↦ let no = rw q at e in cc
      | inr q ↦ elim (Bool-cases (ltb expires' now)) [
        | inl s ↦ let no = rw s at (rw q at e) in cc
        | inr s ↦
            let signed =
              compared (sign_photo_preview signing settings event_id' photo_id' expires') link.sig
                (rw s at (rw q at e)) in
            (ground arith, (ground arith, for_link event_id' photo_id' expires' signed))
      ]
    ]

    opened :
        (event_id' photo_id' : Uuid) (expires' : ℕ)
        → 0 < expires'
        → now ≤ expires'
        → sign_photo_preview signing settings event_id' photo_id' expires' ≡ link.sig
        → verify_photo_preview_signature signing settings now event_id' photo_id' expires' link.sig
          ≡ ok tt
    unfolding verify_photo_preview_signature
    opened event_id' photo_id' expires' some_time early signed =
        let later : (expires' == 0) ≡ false = ground arith in
        let in_time : ltb expires' now ≡ false = ground arith in
        let own = sign_photo_preview signing settings event_id' photo_id' expires' in
        rw (later, in_time)
          (subst (λ (x : Text). checked (compare_digest own x) ≡ ok tt) signed
            (accepted own (
              signing.hmac_ascii settings.secret_key
                (message signing settings event_id' photo_id' expires'))))

    -- The signature of a link is accepted with an event, a photo and an expiry exactly where the expiry
    -- is not 0 and has not passed, and these are the event, the photo and the expiry of the link, or else
    -- the text that they are signed as is another one to which HMAC gives the same signature.
    pub link_opens_its_photo :
        (event_id' photo_id' : Uuid) (expires' : ℕ)
        → (verify_photo_preview_signature signing settings now event_id' photo_id' expires' link.sig
            ≡ ok tt)
          ↔ ((0 < expires') × ((now ≤ expires') × IsForLink event_id' photo_id' expires'))
    link_opens_its_photo event_id' photo_id' expires' = (
      opens event_id' photo_id' expires',
      λ p.
          let (some_time, (early, for)) = p in
          opened event_id' photo_id' expires' some_time early
            (signed_for event_id' photo_id' expires' for),
    )
