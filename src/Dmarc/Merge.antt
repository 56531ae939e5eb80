-- ===== src/Dmarc/Merge.antt =====
-- Extending an SPF record: the mechanism is in the result, and the `all` term stays what it was.
use camelmailer.Base.{
  ◌≡◌, refl, ap, Bool, true, false, not, List, [], ◌∷◌, ◌++◌, if◌then◌else◌, if_both, is_empty, all,
  All, map, drop, filter, arith,
}
use camelmailer.Text.{
  Text, codes, is_whitespace, to_ascii_lowercase, split_where, trim_start_where, text_eq,
  eq_ignore_ascii_case,
}
use camelmailer.Text.Laws.{text_eq_refl}
use camelmailer.Spf.Term.{split_whitespace}
use camelmailer.Dmarc.{
  is_spf1_record, first_is, is_sign, qualified, all_qualifier, spf_all_qualifier, bare_term,
  has_mechanism, spf_contains_mechanism, join, insert_mechanism, spf_with_mechanism,
}

abbrev pub is_free : Text → Bool
is_free = all (λ c. not (is_whitespace c))

-- A term of a record: not empty, and without white space.
abbrev pub IsTerm : Text → Type 0
IsTerm t = (is_empty t ≡ false) × (is_free t ≡ true)

split_where-nonempty : (s : Text) → is_empty (split_where is_whitespace s) ≡ false
unfolding split_where
split_where-nonempty [] = refl
split_where-nonempty (c ∷ s) = ground (arith, split_where-nonempty s)

split_where-free : (w : Text) → is_free w ≡ true → split_where is_whitespace w ≡ w ∷ []
unfolding split_where
split_where-free [] h = refl
split_where-free (c ∷ w) h = ground (arith, split_where-free w)

split_where-space :
    (w r : Text)
    → is_free w ≡ true
    → split_where is_whitespace (w ++ b' ' ∷ r) ≡ w ∷ split_where is_whitespace r
unfolding split_where
split_where-space [] r h = unfold is_whitespace in ground (arith, split_where-nonempty r)
split_where-space (c ∷ w) r h = ground (arith, split_where-space w r)

AllFree : List Text → Type 0
AllFree = All (λ t. is_free t ≡ true)

split_where-AllFree : (s : Text) → AllFree (split_where is_whitespace s)
unfolding split_where AllFree
split_where-AllFree [] = (refl, tt)
split_where-AllFree (c ∷ s) =
    extended (split_where is_whitespace s) (split_where-nonempty s) (split_where-AllFree s)
  where
    extended :
        (ws : List Text)
        → is_empty ws ≡ false
        → AllFree ws
        → AllFree (elim ws [
          | [] ↦ (c ∷ []) ∷ []
          | w ∷ ws' ↦ if is_whitespace c then [] ∷ w ∷ ws' else (c ∷ w) ∷ ws'
        ])
    extended [] n k = absurd (cc)
    extended (w ∷ ws') n k =
        if_both AllFree (is_whitespace c) (λ _. (refl, k)) (λ h. (ground arith, k.1))

split_whitespace-IsTerm : (s : Text) → All IsTerm (split_whitespace s)
unfolding split_whitespace AllFree
split_whitespace-IsTerm s = kept (split_where is_whitespace s) (split_where-AllFree s)
  where
    kept : (ws : List Text) → AllFree ws → All IsTerm (filter (λ t. not (is_empty t)) ws)
    kept [] k = tt
    kept ([] ∷ ws) k = kept ws k.1
    kept ((c ∷ w) ∷ ws) k = ((refl, k.0), kept ws k.1)

split_whitespace-join : (ts : List Text) → All IsTerm ts → split_whitespace (join ts) ≡ ts
unfolding split_whitespace join
split_whitespace-join [] h = unfold split_where in refl
split_whitespace-join (t ∷ []) h = rw (split_where-free t h.0.1, h.0.0) refl
split_whitespace-join (t ∷ u ∷ r) h =
    rw (split_where-space t (join (u ∷ r)) h.0.1, h.0.0)
      (ap (λ (ts : List Text). t ∷ ts) (split_whitespace-join (u ∷ r) h.1))

insert_mechanism-IsTerm :
    (m : Text) (ts : List Text) → IsTerm m → All IsTerm ts → All IsTerm (insert_mechanism m ts)
unfolding insert_mechanism
insert_mechanism-IsTerm m [] h k = (h, tt)
insert_mechanism-IsTerm m (t ∷ ts) h k =
    if_both (All IsTerm) (eq_ignore_ascii_case (bare_term t) (codes "all")) (λ _. (h, k))
      (λ _. (k.0, insert_mechanism-IsTerm m ts h k.1))

-- The first term of an SPF record is not its `all`.
version-all :
    (t : Text)
    → eq_ignore_ascii_case t (codes "v=spf1") ≡ true
    → eq_ignore_ascii_case (bare_term t) (codes "all") ≡ false
unfolding eq_ignore_ascii_case bare_term trim_start_where is_sign text_eq codes to_ascii_lowercase
version-all [] h = absurd (cc)
version-all (c ∷ t) h = ground arith

is_mechanism_refl : (m : Text) → bare_term m ≡ m → eq_ignore_ascii_case (bare_term m) m ≡ true
unfolding eq_ignore_ascii_case
is_mechanism_refl m b = rw b (text_eq_refl (map to_ascii_lowercase m))

insert_mechanism-has :
    (m : Text) (ts : List Text) → bare_term m ≡ m → has_mechanism m (insert_mechanism m ts) ≡ true
unfolding insert_mechanism has_mechanism
insert_mechanism-has m [] b = rw (is_mechanism_refl m b) refl
insert_mechanism-has m (t ∷ ts) b =
    if_both (λ (r : List Text). has_mechanism m r ≡ true)
      (eq_ignore_ascii_case (bare_term t) (codes "all")) (λ _. rw (is_mechanism_refl m b) refl)
      (λ _. ground (arith, insert_mechanism-has m ts b))

insert_mechanism-all :
    (m : Text) (ts : List Text)
    → eq_ignore_ascii_case (qualified m).1 (codes "all") ≡ false
    → all_qualifier (insert_mechanism m ts) ≡ all_qualifier ts
unfolding insert_mechanism all_qualifier
insert_mechanism-all m [] n = rw n refl
insert_mechanism-all m (t ∷ ts) n =
    if_both (λ (r : List Text). all_qualifier r ≡ all_qualifier (t ∷ ts))
      (eq_ignore_ascii_case (bare_term t) (codes "all")) (λ _. rw n refl)
      (λ _. rw (insert_mechanism-all m ts n) refl)

-- The terms of the extended record: those of the record where it has the mechanism, and otherwise
-- those with the mechanism inserted.
merged : Text → List Text → List Text
merged m ts = if has_mechanism m (drop 1 ts) then ts else insert_mechanism m ts

spf_with_mechanism-terms :
    (txt m : Text)
    → IsTerm m
    → split_whitespace (spf_with_mechanism txt m) ≡ merged m (split_whitespace txt)
unfolding spf_with_mechanism spf_contains_mechanism merged
spf_with_mechanism-terms txt m h = chosen (has_mechanism m (drop 1 (split_whitespace txt)))
  where
    chosen :
        (b : Bool)
        → split_whitespace (
            if b
            then join (split_whitespace txt)
            else join (insert_mechanism m (split_whitespace txt)))
          ≡ (if b then split_whitespace txt else insert_mechanism m (split_whitespace txt))
    chosen true = split_whitespace-join (split_whitespace txt) (split_whitespace-IsTerm txt)
    chosen false =
        split_whitespace-join (insert_mechanism m (split_whitespace txt))
          (insert_mechanism-IsTerm m (split_whitespace txt) h (split_whitespace-IsTerm txt))

module _ (m : Text) where
  merged-has :
      (ts : List Text)
      → bare_term m ≡ m
      → first_is (codes "v=spf1") ts ≡ true
      → has_mechanism m (drop 1 (merged m ts)) ≡ true
  unfolding merged first_is insert_mechanism
  merged-has [] b v = absurd (unfold eq_ignore_ascii_case text_eq codes in cc)
  merged-has (t ∷ ts) b v =
      if_both (λ (r : List Text). has_mechanism m (drop 1 r) ≡ true) (has_mechanism m ts) (λ h. h)
        (λ _. rw (version-all t v) (insert_mechanism-has m ts b))

  merged-all :
      (ts : List Text)
      → eq_ignore_ascii_case (qualified m).1 (codes "all") ≡ false
      → first_is (codes "v=spf1") ts ≡ true
      → all_qualifier (drop 1 (merged m ts)) ≡ all_qualifier (drop 1 ts)
  unfolding merged first_is insert_mechanism
  merged-all [] n v = absurd (unfold eq_ignore_ascii_case text_eq codes in cc)
  merged-all (t ∷ ts) n v =
      if_both (λ (r : List Text). all_qualifier (drop 1 r) ≡ all_qualifier ts) (has_mechanism m ts)
        (λ _. refl) (λ _. rw (version-all t v) (insert_mechanism-all m ts n))

-- An SPF record that was extended by a mechanism, a term without a qualifier, contains it.
pub spf_with_mechanism-contains :
    (txt m : Text)
    → is_spf1_record txt ≡ true
    → IsTerm m
    → bare_term m ≡ m
    → spf_contains_mechanism (spf_with_mechanism txt m) m ≡ true
unfolding spf_contains_mechanism is_spf1_record
spf_with_mechanism-contains txt m v h b =
    rw (spf_with_mechanism-terms txt m h) (merged-has m (split_whitespace txt) b v)

-- Extending an SPF record by a mechanism other than `all` keeps the qualifier of its `all`.
pub spf_with_mechanism-all_qualifier :
    (txt m : Text)
    → is_spf1_record txt ≡ true
    → IsTerm m
    → eq_ignore_ascii_case (qualified m).1 (codes "all") ≡ false
    → spf_all_qualifier (spf_with_mechanism txt m) ≡ spf_all_qualifier txt
unfolding spf_all_qualifier is_spf1_record
spf_with_mechanism-all_qualifier txt m v h n =
    rw (spf_with_mechanism-terms txt m h) (merged-all m (split_whitespace txt) n v)
