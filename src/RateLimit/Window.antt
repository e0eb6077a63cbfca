-- ===== src/RateLimit/Window.antt =====
-- Rows of calls of `check` (core/rate_limit.py) with one key.
use event_vision_pipeline.Base.{
  ℕ, ◌+◌, ◌-◌, ◌≤◌, ◌<◌, String, true, false, Option, none, some, List, [], ◌∷◌, ◌≡◌, refl, ◌∙◌,
  sym, inl, inr, arith, leb, ltb, str_eq_refl, if◌then◌else◌, Bool-cases, add, distinct,
  occurrences, length,
}
use event_vision_pipeline.Redis.{seconds}
use event_vision_pipeline.RateLimit.{
  ZSet, SortedSets, live, times_of, expiry_of, outside, zset_of, expire_zset, remove_old, check,
}

-- The times that lie less than `width` before a time.
abbrev pub recent : ℕ → ℕ → List ℕ → List ℕ
recent width now [] = []
recent width now (x ∷ xs) =
    let rest = recent width now xs in if ltb now (x + width) then x ∷ rest else rest

-- The times are in order, newest first, and none is after `last`.
abbrev pub Before : ℕ → List ℕ → Type 0
Before last [] = Unit
Before last (t ∷ rest) = (t ≤ last) × Before t rest

abbrev AllUpTo : ℕ → List ℕ → Type 0
AllUpTo last [] = Unit
AllUpTo last (x ∷ xs) = (x ≤ last) × AllUpTo last xs

outside-recent :
    (width now : ℕ) (xs : List ℕ)
    → leb width now ≡ true
    → outside 0 (now - width) xs ≡ recent width now xs
outside-recent width now [] h = refl
outside-recent width now (x ∷ xs) h = ground (arith, outside-recent width now xs h)

all-recent : (width now : ℕ) (xs : List ℕ) → leb width now ≡ false → recent width now xs ≡ xs
all-recent width now [] h = refl
all-recent width now (x ∷ xs) h = ground (arith, all-recent width now xs h)

recent-recent :
    (width last now : ℕ) (xs : List ℕ)
    → last ≤ now
    → recent width now (recent width last xs) ≡ recent width now xs
recent-recent width last now [] h = refl
recent-recent width last now (x ∷ xs) h = elim (Bool-cases (ltb last (x + width))) [
  | inl e ↦ rw e (elim (Bool-cases (ltb now (x + width))) [
    | inl f ↦ rw f (rw (recent-recent width last now xs h) refl)
    | inr f ↦ rw f (recent-recent width last now xs h)
  ])
  | inr e ↦
      let old : ltb now (x + width) ≡ false = ground arith in
      rw (e, old) (recent-recent width last now xs h)
]

none-recent :
    (width last now : ℕ) (xs : List ℕ)
    → AllUpTo last xs
    → last + width ≤ now
    → recent width now xs ≡ []
none-recent width last now [] a h = refl
none-recent width last now (x ∷ xs) a h =
    let old : ltb now (x + width) ≡ false = (let b = a.0 in ground arith) in
    rw old (none-recent width last now xs a.1 h)

occurrences-recent :
    (width now : ℕ) (xs : List ℕ)
    → 0 < width
    → occurrences now (recent width now xs) ≡ occurrences now xs
occurrences-recent width now [] h = refl
occurrences-recent width now (x ∷ xs) h = ground (arith, occurrences-recent width now xs h)

recent-add :
    (width now : ℕ) (xs : List ℕ)
    → 0 < width
    → add now (recent width now xs) ≡ recent width now (add now xs)
recent-add width now xs h =
    let same = occurrences-recent width now xs h in
    let fresh : ltb now (now + width) ≡ true = ground arith in
    elim (Bool-cases (leb 1 (occurrences now xs))) [
      | inl e ↦ rw same (rw e refl)
      | inr e ↦ rw same (rw e (rw fresh refl))
    ]

add-AllUpTo : (last t : ℕ) (xs : List ℕ) → t ≤ last → AllUpTo last xs → AllUpTo last (add t xs)
add-AllUpTo last t xs h a = elim (Bool-cases (leb 1 (occurrences t xs))) [
  | inl e ↦ rw e a
  | inr e ↦ rw e (h, a)
]

later-AllUpTo : (last now : ℕ) (xs : List ℕ) → last ≤ now → AllUpTo last xs → AllUpTo now xs
later-AllUpTo last now [] h a = tt
later-AllUpTo last now (x ∷ xs) h a = (let b = a.0 in omega arith, later-AllUpTo last now xs h a.1)

distinct-AllUpTo : (last : ℕ) (past : List ℕ) → Before last past → AllUpTo last (distinct past)
distinct-AllUpTo last [] b = tt
distinct-AllUpTo last (t ∷ rest) b =
    later-AllUpTo t last (add t (distinct rest)) b.0
      (add-AllUpTo t t (distinct rest) (omega arith) (distinct-AllUpTo t rest b.1))

times-zset_of : (xs : List ℕ) (e : Option ℕ) → times_of (zset_of xs e) ≡ xs
times-zset_of [] e = refl
times-zset_of (x ∷ xs) e = refl

-- A set that was read at a time is still alive at that time.
live-zset_of :
    (now : ℕ) (xs : List ℕ) (z : Option ZSet)
    → live now (zset_of xs (expiry_of (live now z))) ≡ zset_of xs (expiry_of (live now z))
live-zset_of now [] z = refl
live-zset_of now (x ∷ xs) none = refl
live-zset_of now (x ∷ xs) (some z) = ground arith

expire-add :
    (d e : Option ℕ) (t : ℕ) (xs : List ℕ)
    → expire_zset d (zset_of (add t xs) e) ≡ some (record { times = add t xs; expires = d })
expire-add d e t [] = refl
expire-add d e t (x ∷ xs) = elim (Bool-cases (leb 1 (occurrences t (x ∷ xs)))) [
  | inl h ↦ rw h refl
  | inr h ↦ rw h refl
]

module _ (r : SortedSets) (key : String) (window_seconds : ℕ) (positive : 0 < window_seconds) where
  abbrev width : ℕ
  width = seconds window_seconds

  times-remove_old :
      (now : ℕ) (db : r.Db)
      → times_of (live now (r.zset (remove_old r now key window_seconds db) key))
        ≡ recent width now (times_of (live now (r.zset db key)))
  unfolding remove_old
  times-remove_old now db = elim (Bool-cases (leb width now)) [
    | inl h ↦ rw h (
        rw r.zset_zremrangebyscore (
          rw str_eq_refl (
            rw live-zset_of (
              rw times-zset_of
                (outside-recent width now (times_of (live now (r.zset db key))) h)))))
    | inr h ↦ rw h (sym (all-recent width now (times_of (live now (r.zset db key))) h))
  ]

  -- What a call answers and leaves, by the times that it finds.
  check-found :
      (now limit : ℕ) (db : r.Db)
      → let found = add now (recent width now (times_of (live now (r.zset db key)))) in
        ((check r now key limit window_seconds db).0 ≡ leb (length found) limit)
        × (r.zset (check r now key limit window_seconds db).1 key
            ≡ some (record { times = found; expires = some (now + width) }))
  unfolding check
  check-found now limit db =
      let removed = remove_old r now key window_seconds db in
      let gone = times-remove_old now db in
      (
        rw r.zcard_length
            (rw r.zset_zadd (rw str_eq_refl (rw live-zset_of (rw times-zset_of (rw gone refl))))),
        rw r.zset_expire (
            rw str_eq_refl
              (rw r.zset_zadd (rw str_eq_refl (rw live-zset_of (rw expire-add (rw gone refl)))))),
      )

  -- Calls at some times, newest first, each with a limit of its own.
  abbrev pub run : List (ℕ × ℕ) → r.Db → r.Db
  run [] db = db
  run ((t, limit) ∷ rest) db = (check r t key limit window_seconds (run rest db)).1

  abbrev pub times : List (ℕ × ℕ) → List ℕ
  times [] = []
  times ((t, limit) ∷ rest) = t ∷ times rest

  -- The set after calls at some times.
  abbrev window_of : List ℕ → Option ZSet
  window_of [] = none
  window_of (t ∷ rest) =
      some (record { times = recent width t (distinct (t ∷ rest)); expires = some (t + width) })

  live-window_of :
      (now : ℕ) (past : List ℕ)
      → Before now past
      → recent width now (times_of (live now (window_of past))) ≡ recent width now (distinct past)
  live-window_of now [] b = refl
  live-window_of now (t ∷ rest) b = elim (Bool-cases (leb (t + width) now)) [
    | inl h ↦
        let within : Before t (t ∷ rest) = (omega arith, b.1) in
        rw h (
          sym (
            none-recent width t now (distinct (t ∷ rest)) (distinct-AllUpTo t (t ∷ rest) within)
              (ground arith)))
    | inr h ↦ rw h (recent-recent width t now (distinct (t ∷ rest)) b.0)
  ]

  wide : 0 < width
  wide = omega arith

  found_now :
      (now : ℕ) (past : List ℕ)
      → Before now past
      → add now (recent width now (times_of (live now (window_of past))))
        ≡ recent width now (distinct (now ∷ past))
  found_now now past b = rw (live-window_of now past b) (recent-add width now (distinct past) wide)

  run_window :
      (calls : List (ℕ × ℕ)) (last : ℕ) (db : r.Db)
      → r.zset db key ≡ none
      → Before last (times calls)
      → r.zset (run calls db) key ≡ window_of (times calls)
  run_window [] last db e b = e
  run_window ((t, limit) ∷ rest) last db e b =
      let before = run_window rest t db e b.1 in
      (check-found t limit (run rest db)).1 ∙ rw before (rw (found_now t (times rest) b.1) refl)

  -- After any row of calls with the key, in order of time and on a key that was not there, a call is let
  -- through exactly where it and the calls before it, refused ones too, were made at no more than
  -- `limit` different times in the window that ends now.
  pub check_counts_window :
      (now limit : ℕ) (calls : List (ℕ × ℕ)) (db : r.Db)
      → r.zset db key ≡ none
      → Before now (times calls)
      → (check r now key limit window_seconds (run calls db)).0
        ≡ leb (length (recent width now (distinct (now ∷ times calls)))) limit
  check_counts_window now limit calls db e b =
      (check-found now limit (run calls db)).0
      ∙ rw (run_window calls now db e b) (rw (found_now now (times calls) b) refl)
