-- ===== src/Queue/Order.antt =====
-- The order of the servers is sorted by their keys, and has the servers that were given.
use camelmailer.Base.{
  ℕ, ◌≡◌, refl, ◌∙◌, Bool, true, false, ◌&&◌, ◌||◌, any, Option, List, [], ◌∷◌, if_both, all, arith,
}
use camelmailer.Model.{EntityId}
use camelmailer.Queue.{Candidate, key_le, insert_by_key, sort_by_key}

-- Every key is at most those after it.
abbrev pub IsOrdered : (EntityId → Option ℕ) → List Candidate → Type 0
IsOrdered last [] = Unit
IsOrdered last (c ∷ cs) = (all (key_le last c) cs ≡ true) × IsOrdered last cs

key_le_total :
    (last : EntityId → Option ℕ) (a b : Candidate)
    → key_le last a b ≡ false
    → key_le last b a ≡ true
unfolding key_le
key_le_total last a b h = ground arith

key_le_trans :
    (last : EntityId → Option ℕ) (a b c : Candidate)
    → key_le last a b ≡ true
    → key_le last b c ≡ true
    → key_le last a c ≡ true
unfolding key_le
key_le_trans last a b c h k = ground arith

all-key_le :
    (last : EntityId → Option ℕ) (a b : Candidate) (cs : List Candidate)
    → key_le last a b ≡ true
    → all (key_le last b) cs ≡ true
    → all (key_le last a) cs ≡ true
all-key_le last a b [] h k = refl
all-key_le last a b (c ∷ cs) h k =
    ground (arith, key_le_trans last a b c h, all-key_le last a b cs h)

all-insert_by_key :
    (last : EntityId → Option ℕ) (p : Candidate → Bool) (x : Candidate) (cs : List Candidate)
    → all p (insert_by_key last x cs) ≡ (p x && all p cs)
unfolding insert_by_key
all-insert_by_key last p x [] = refl
all-insert_by_key last p x (c ∷ cs) = ground (arith, all-insert_by_key last p x cs)

insert_by_key-IsOrdered :
    (last : EntityId → Option ℕ) (x : Candidate) (cs : List Candidate)
    → IsOrdered last cs
    → IsOrdered last (insert_by_key last x cs)
unfolding insert_by_key
insert_by_key-IsOrdered last x [] h = (refl, tt)
insert_by_key-IsOrdered last x (c ∷ cs) h =
    if_both (IsOrdered last) (key_le last x c)
      (λ l. (ground (arith, all-key_le last x c cs l h.0), h))
      (λ g. (
        all-insert_by_key last (key_le last c) x cs ∙ ground (arith, key_le_total last x c g),
        insert_by_key-IsOrdered last x cs h.1,
      ))

pub sort_by_key-IsOrdered :
    (last : EntityId → Option ℕ) (cs : List Candidate) → IsOrdered last (sort_by_key last cs)
unfolding sort_by_key
sort_by_key-IsOrdered last [] = tt
sort_by_key-IsOrdered last (c ∷ cs) =
    insert_by_key-IsOrdered last c (sort_by_key last cs) (sort_by_key-IsOrdered last cs)

-- What all candidates have, all have in the order, and the other way about.
pub all-sort_by_key :
    (last : EntityId → Option ℕ) (p : Candidate → Bool) (cs : List Candidate)
    → all p (sort_by_key last cs) ≡ all p cs
unfolding sort_by_key
all-sort_by_key last p [] = refl
all-sort_by_key last p (c ∷ cs) =
    all-insert_by_key last p c (sort_by_key last cs) ∙ ground (arith, all-sort_by_key last p cs)

any-insert_by_key :
    (last : EntityId → Option ℕ) (p : Candidate → Bool) (x : Candidate) (cs : List Candidate)
    → any p (insert_by_key last x cs) ≡ (p x || any p cs)
unfolding insert_by_key
any-insert_by_key last p x [] = refl
any-insert_by_key last p x (c ∷ cs) = ground (arith, any-insert_by_key last p x cs)

pub any-sort_by_key :
    (last : EntityId → Option ℕ) (p : Candidate → Bool) (cs : List Candidate)
    → any p (sort_by_key last cs) ≡ any p cs
unfolding sort_by_key
any-sort_by_key last p [] = refl
any-sort_by_key last p (c ∷ cs) =
    any-insert_by_key last p c (sort_by_key last cs) ∙ ground (arith, any-sort_by_key last p cs)
