-- ===== src/Memory/Reading.antt =====
-- The one address that the store reads in a header value (`strip_name_from_address` and
-- `address_domain` of crates/camelmailer-core/src/store.rs), by the parts of the value.
use camelmailer.Base.{
  ℕ, zero, suc, ◌<◌, ◌≡◌, refl, sym, ap, ◌∙◌, ◌⊎◌, inl, inr, Bool, true, false, ◌&&◌, ◌||◌, Option,
  none, some, [], ◌∷◌, ◌++◌, ◌==◌, ltb, ◌>>=◌, if◌then◌else◌, is_empty, any, arith, Bool-cases,
}
use camelmailer.Text.{Text, trim, split_once}
use camelmailer.Memory.Lookup.{
  first_place, last_place, between, inside, strip_name_from_address, address_domain,
}

-- A text without a character.
abbrev pub IsFree : ℕ → Text → Type 0
IsFree c s = any (λ x. x == c) s ≡ false

-- Whether a `<` has a `>` behind it.
pub encloses : Text → Bool
encloses [] = false
encloses (x ∷ s) = (x == b'<' && any (λ y. y == b'>') s) || encloses s

-- What stands between the first `<` and the last `>`, or the whole value if no `<` has a `>` behind it;
-- without whitespace around it.
abbrev pub IsReadFrom : Text → Text → Type 0
IsReadFrom address value =
    ((pre : Text) × (mid : Text) × (post : Text) × (value ≡ pre ++ b'<' ∷ (mid ++ b'>' ∷ post))
      × IsFree b'<' pre
      × IsFree b'>' post
      × (address ≡ trim mid))
    ⊎ ((encloses value ≡ false) × (address ≡ trim value))

last_place-none : (c : ℕ) (s : Text) → last_place c s ≡ none → IsFree c s
unfolding last_place
last_place-none c [] h = refl
last_place-none c (x ∷ s) h = ground (arith, last_place-none c s)

-- The text in front of the last `c`.
before_last :
    (c j : ℕ) (s : Text)
    → last_place c s ≡ some j
    → (post : Text) × (s ≡ between 0 j s ++ c ∷ post) × IsFree c post
unfolding last_place between
before_last c j [] h = ground (arith, h)
before_last c j (x ∷ s) h = found (last_place c s) refl (λ n e. before_last c n s e)
  where
    found :
        (o : Option ℕ)
        → last_place c s ≡ o
        → ((n : ℕ)
            → last_place c s ≡ some n
            → (post : Text) × (s ≡ between 0 n s ++ c ∷ post) × IsFree c post)
        → (post : Text) × (x ∷ s ≡ between 0 j (x ∷ s) ++ c ∷ post) × IsFree c post
    found (some n) e ih =
        let k : suc n ≡ j = ground (arith, rw e at h) in
        let (post, p, f) = ih n e in (post, rw (← k) (ap (λ y. x ∷ y) p), f)
    found none e ih =
        let k : 0 ≡ j = ground (arith, rw e at h) in
        let q : x ≡ c = ground (arith, rw e at h) in (s, rw (← k, q) refl, last_place-none c s e)

-- The parts of a value whose first `<` stands before its last `>`.
abbrev IsBetween : ℕ → ℕ → Text → Type 0
IsBetween i j s =
    (pre : Text) × (post : Text) × (s ≡ pre ++ b'<' ∷ (between (suc i) j s ++ b'>' ∷ post))
    × IsFree b'<' pre
    × IsFree b'>' post

last_place-suc :
    (c j : ℕ) (x : ℕ) (s : Text) → last_place c (x ∷ s) ≡ some (suc j) → last_place c s ≡ some j
unfolding last_place
last_place-suc c j x s h = ground arith

first_place-IsBetween :
    (i j : ℕ) (s : Text)
    → first_place b'<' s ≡ some i
    → last_place b'>' s ≡ some j
    → i < j
    → IsBetween i j s
unfolding first_place between
first_place-IsBetween i j [] h k l = ground (arith, h)
first_place-IsBetween i zero (x ∷ s) h k l = absurd (omega (arith, l))
first_place-IsBetween i (suc j) (x ∷ s) h k l =
    placed (first_place b'<' s) refl (λ n e m. first_place-IsBetween n j s e last m)
  where
    last : last_place b'>' s ≡ some j
    last = last_place-suc b'>' j x s k

    placed :
        (o : Option ℕ)
        → first_place b'<' s ≡ o
        → ((n : ℕ) → first_place b'<' s ≡ some n → n < j → IsBetween n j s)
        → IsBetween i (suc j) (x ∷ s)
    placed o e ih = elim (Bool-cases (x == b'<')) [
      | inl y ↦
          let z : 0 ≡ i = ground (arith, h) in
          let q : x ≡ b'<' = ground arith in
          let (post, p, f) = before_last b'>' j s last in
          ([], post, rw (← z, q) (ap (λ t. b'<' ∷ t) p), refl, f)
      | inr n ↦ later o e ih n
    ]
      where
        later :
            (o : Option ℕ)
            → first_place b'<' s ≡ o
            → ((n : ℕ) → first_place b'<' s ≡ some n → n < j → IsBetween n j s)
            → (x == b'<') ≡ false
            → IsBetween i (suc j) (x ∷ s)
        later none e ih n = ground (arith, rw (n, e) at h)
        later (some m) e ih n =
            let z : suc m ≡ i = ground (arith, rw (n, e) at h) in
            let (pre, post, p, f, g) = ih m e (omega (arith, z, l)) in
            (x ∷ pre, post, rw (← z) (ap (λ t. x ∷ t) p), ground (arith, n, f), g)

last_place-some :
    (c : ℕ) (s : Text) → any (λ x. x == c) s ≡ true → (j : ℕ) × (last_place c s ≡ some j)
last_place-some c s h = placed (last_place c s) refl
  where
    placed : (o : Option ℕ) → last_place c s ≡ o → (j : ℕ) × (last_place c s ≡ some j)
    placed (some j) e = (j, e)
    placed none e = ground (arith, h, last_place-none c s e)

last_place_next :
    (c j x : ℕ) (s : Text) → last_place c s ≡ some j → last_place c (x ∷ s) ≡ some (suc j)
unfolding last_place
last_place_next c j x s h = rw h refl

-- A `<` with a `>` behind it makes the first `<` stand before the last `>`.
enclosed :
    (s : Text)
    → encloses s ≡ true
    → (i : ℕ) × (j : ℕ) × (first_place b'<' s ≡ some i) × (last_place b'>' s ≡ some j) × (i < j)
unfolding encloses first_place
enclosed [] h = ground (arith, h)
enclosed (x ∷ s) h = elim (Bool-cases (x == b'<' && any (λ y. y == b'>') s)) [
  | inl y ↦
      let (j, e) = last_place-some b'>' s (ground arith) in
      (0, suc j, ground arith, last_place_next b'>' j x s e, omega arith)
  | inr n ↦
      let (i, j, e, f, l) = enclosed s (ground arith) in
      elim (Bool-cases (x == b'<')) [
        | inl y ↦ (0, suc j, rw y refl, last_place_next b'>' j x s f, omega arith)
        | inr k ↦ (suc i, suc j, rw (k, e) refl, last_place_next b'>' j x s f, omega (arith, l))
      ]
]

not_enclosed :
    (s : Text)
    → ((i j : ℕ) → first_place b'<' s ≡ some i → last_place b'>' s ≡ some j → ltb i j ≡ false)
    → encloses s ≡ false
not_enclosed s h = elim (Bool-cases (encloses s)) [
  | inr n ↦ n
  | inl y ↦ let (i, j, e, f, l) = enclosed s y in absurd (ground (arith, h i j e f, l))
]

-- What the store reads in a value is its address.
pub strip_name_from_address-IsReadFrom :
    (value : Text) → IsReadFrom (strip_name_from_address value) value
unfolding strip_name_from_address inside
strip_name_from_address-IsReadFrom value =
    read (first_place b'<' value) (last_place b'>' value) refl refl
  where
    read :
        (o p : Option ℕ)
        → first_place b'<' value ≡ o
        → last_place b'>' value ≡ p
        → IsReadFrom (inside value o p) value
    read none p e f = inr (not_enclosed value (λ i j g h. ground (arith, e, g)), refl)
    read (some i) none e f = inr (not_enclosed value (λ i j g h. ground (arith, f, h)), refl)
    read (some i) (some j) e f = elim (Bool-cases (ltb i j)) [
      | inl y ↦
          let (pre, post, p, q, r) = first_place-IsBetween i j value e f (ground arith) in
          rw y (inl (pre, between (suc i) j value, post, p, q, r, refl))
      | inr n ↦ rw n (inr (not_enclosed value (λ i' j' g h. ground (arith, e, f, g, h, n)), refl))
    ]

-- An address of a domain: a part that is not empty, before the first `@`, and the name.
abbrev pub IsAt : Text → Text → Type 0
IsAt name address =
    (local : Text) × (address ≡ local ++ b'@' ∷ name) × (is_empty local ≡ false) × IsFree b'@' local

extended : ℕ → Option (Text × Text) → Option (Text × Text)
extended x none = none
extended x (some (a, b)) = some (x ∷ a, b)

split_here : (c x : ℕ) (s : Text) → (x == c) ≡ true → split_once c (x ∷ s) ≡ some ([], s)
unfolding split_once
split_here c x s y = rw (split_once, y) refl

split_later :
    (c x : ℕ) (s : Text) (o : Option (Text × Text))
    → (x == c) ≡ false
    → split_once c s ≡ o
    → split_once c (x ∷ s) ≡ extended x o
unfolding split_once extended
split_later c x s none n e = rw (split_once, n, e) refl
split_later c x s (some p) n e = rw (split_once, n, e) refl

split_once-parts :
    (c : ℕ) (s a b : Text) → split_once c s ≡ some (a, b) → (s ≡ a ++ c ∷ b) × IsFree c a
unfolding split_once extended
split_once-parts c [] a b h = ground (arith, h)
split_once-parts c (x ∷ s) a b h = parts (split_once c s) refl (λ a b e. split_once-parts c s a b e)
  where
    parts :
        (o : Option (Text × Text))
        → split_once c s ≡ o
        → ((a b : Text) → split_once c s ≡ some (a, b) → (s ≡ a ++ c ∷ b) × IsFree c a)
        → (x ∷ s ≡ a ++ c ∷ b) × IsFree c a
    parts o e ih = elim (Bool-cases (x == c)) [
      | inl y ↦
          let q : x ≡ c = ground arith in
          let p : ◌≡◌ {A = Option (Text × Text)} (some ([], s)) (some (a, b)) =
            sym (split_here c x s y) ∙ h in
          let p0 : [] ≡ a = cc in let p1 : s ≡ b = cc in (rw (← p0, ← p1, q) refl, rw (← p0) refl)
      | inr n ↦ later o e ih n
    ]
      where
        later :
            (o : Option (Text × Text))
            → split_once c s ≡ o
            → ((a b : Text) → split_once c s ≡ some (a, b) → (s ≡ a ++ c ∷ b) × IsFree c a)
            → (x == c) ≡ false
            → (x ∷ s ≡ a ++ c ∷ b) × IsFree c a
        later none e ih n = ground (arith, sym (split_later c x s none n e) ∙ h)
        later (some (a', b')) e ih n =
            let p : ◌≡◌ {A = Option (Text × Text)} (some (x ∷ a', b')) (some (a, b)) =
              sym (split_later c x s _ n e) ∙ h in
            let p0 : x ∷ a' ≡ a = cc in
            let p1 : b' ≡ b = cc in
            let (q, f) = ih a' b' e in
            (rw (← p0, ← p1) (ap (λ t. x ∷ t) q), rw (← p0) (ground (arith, n, f)))

-- The domain that the store reads is that of the address.
pub address_domain-IsAt :
    (value name : Text)
    → address_domain value ≡ some name
    → IsAt name (strip_name_from_address value)
unfolding address_domain
address_domain-IsAt value name h = split (split_once b'@' (strip_name_from_address value)) refl h
  where
    split :
        (o : Option (Text × Text))
        → split_once b'@' (strip_name_from_address value) ≡ o
        → (do parts ← o; if is_empty parts.0 then none else some parts.1) ≡ some name
        → IsAt name (strip_name_from_address value)
    split none e k = ground (arith, k)
    split (some (a, b)) e k =
        let (p, f) = split_once-parts b'@' (strip_name_from_address value) a b e in
        let q : b ≡ name = ground arith in
        let n : is_empty a ≡ false = ground arith in (a, p ∙ ap (λ t. a ++ b'@' ∷ t) q, n, f)
