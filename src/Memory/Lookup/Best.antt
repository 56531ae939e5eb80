-- ===== src/Memory/Lookup/Best.antt =====
-- The credential of a client's address is that of the longest matching network.
use camelmailer.Base.{
  ℕ, ◌≤◌, ◌≡◌, refl, sym, ◌∙◌, OnSome, Bool, true, false, not, ◌&&◌, ◌||◌, Option, none, some, List,
  [], ◌∷◌, leb, if_both, All, all, find, map_option, arith,
}
use camelmailer.Model.{CredentialType, Credential}
use camelmailer.Memory.Lookup.{
  Networks, network_of, candidate, candidates, insert_candidate, sort_candidates, matches_ip,
  match_ip_credential, is_credential_type,
}

module _ {Ip Net : Type 0} (nets : Networks Ip Net) (ip : Ip) where
  -- Whether a candidate does not match, or has a prefix of at most `n`.
  abbrev pub is_within : ℕ → Net × Credential → Bool
  is_within n x = not (matches_ip nets ip x) || leb (nets.prefix_len x.0) n

  -- Every prefix is at least those after it.
  IsDescending : List (Net × Credential) → Type 0
  IsDescending [] = Unit
  IsDescending (x ∷ xs) =
      (all (λ y. leb (nets.prefix_len y.0) (nets.prefix_len x.0)) xs ≡ true) × IsDescending xs

  all-insert :
      (p : Net × Credential → Bool) (x : Net × Credential) (xs : List (Net × Credential))
      → all p (insert_candidate nets x xs) ≡ (p x && all p xs)
  unfolding insert_candidate
  all-insert p x [] = refl
  all-insert p x (y ∷ ys) = ground (arith, all-insert p x ys)

  all-sort :
      (p : Net × Credential → Bool) (xs : List (Net × Credential))
      → all p (sort_candidates nets xs) ≡ all p xs
  unfolding sort_candidates
  all-sort p [] = refl
  all-sort p (x ∷ xs) = ground (arith, all-insert p x (sort_candidates nets xs), all-sort p xs)

  all-weaken :
      (m n : ℕ) (xs : List (Net × Credential))
      → m ≤ n
      → all (λ y. leb (nets.prefix_len y.0) m) xs ≡ true
      → all (λ y. leb (nets.prefix_len y.0) n) xs ≡ true
  all-weaken m n [] l h = refl
  all-weaken m n (x ∷ xs) l h = ground (arith, all-weaken m n xs)

  insert-IsDescending :
      (x : Net × Credential) (xs : List (Net × Credential))
      → IsDescending xs
      → IsDescending (insert_candidate nets x xs)
  unfolding IsDescending insert_candidate
  insert-IsDescending x [] h = (refl, tt)
  insert-IsDescending x (y ∷ ys) h =
      if_both IsDescending (leb (nets.prefix_len y.0) (nets.prefix_len x.0))
        (λ l. (ground (arith, all-weaken (nets.prefix_len y.0) (nets.prefix_len x.0) ys), h))
        (λ g. (
          ground (arith, all-insert (λ z. leb (nets.prefix_len z.0) (nets.prefix_len y.0)) x ys),
          insert-IsDescending x ys h.1,
        ))

  sort-IsDescending : (xs : List (Net × Credential)) → IsDescending (sort_candidates nets xs)
  unfolding sort_candidates IsDescending
  sort-IsDescending [] = tt
  sort-IsDescending (x ∷ xs) =
      insert-IsDescending x (sort_candidates nets xs) (sort-IsDescending xs)

  -- What the first match of a list is: it matches, and no match has a longer prefix.
  IsBestOf : Option (Net × Credential) → List (Net × Credential) → Type 0
  IsBestOf none xs = all (λ x. not (matches_ip nets ip x)) xs ≡ true
  IsBestOf (some x) xs =
      (matches_ip nets ip x ≡ true) × (all (is_within (nets.prefix_len x.0)) xs ≡ true)

  within_of :
      (n : ℕ) (xs : List (Net × Credential))
      → all (λ y. leb (nets.prefix_len y.0) n) xs ≡ true
      → all (is_within n) xs ≡ true
  within_of n [] h = refl
  within_of n (x ∷ xs) h = ground (arith, within_of n xs)

  IsBestOf-skip :
      (x : Net × Credential) (o : Option (Net × Credential)) (xs : List (Net × Credential))
      → matches_ip nets ip x ≡ false
      → IsBestOf o xs
      → IsBestOf o (x ∷ xs)
  unfolding IsBestOf
  IsBestOf-skip x none xs f h = rw (f, h) refl
  IsBestOf-skip x (some y) xs f h = (h.0, rw (f, h.1) refl)

  find-IsBestOf :
      (xs : List (Net × Credential)) → IsDescending xs → IsBestOf (find (matches_ip nets ip) xs) xs
  unfolding IsDescending IsBestOf
  find-IsBestOf [] d = refl
  find-IsBestOf (x ∷ xs) d =
      if_both (λ (o : Option (Net × Credential)). IsBestOf o (x ∷ xs)) (matches_ip nets ip x)
        (λ t. (t, ground (arith, within_of (nets.prefix_len x.0) xs)))
        (λ f. IsBestOf-skip x (find (matches_ip nets ip) xs) xs f (find-IsBestOf xs d.1))

  -- A candidate with the network of its own key.
  IsNetworked : Net × Credential → Type 0
  IsNetworked x =
      (is_credential_type x.1.credential_type CredentialType.smtp_ip ≡ true)
      × (network_of nets x.1 ≡ some x.0)

  candidates-IsNetworked : (cs : List Credential) → All IsNetworked (candidates nets cs)
  unfolding candidates candidate
  candidates-IsNetworked [] = tt
  candidates-IsNetworked (c ∷ cs) =
      if_both (All IsNetworked) (is_credential_type c.credential_type CredentialType.smtp_ip)
        (λ t. networked t (network_of nets c) refl (candidates nets cs) (candidates-IsNetworked cs))
        (λ _. candidates-IsNetworked cs)
    where
      networked :
          is_credential_type c.credential_type CredentialType.smtp_ip ≡ true
          → (o : Option Net) → network_of nets c ≡ o
          → (rest : List (Net × Credential)) → All IsNetworked rest
          → All IsNetworked (elim o [ none ↦ rest | some net ↦ (net, c) ∷ rest ])
      networked t none e rest h = h
      networked t (some net) e rest h = (unfold IsNetworked in (t, e), h)

  insert-IsNetworked :
      (x : Net × Credential) (xs : List (Net × Credential))
      → IsNetworked x
      → All IsNetworked xs
      → All IsNetworked (insert_candidate nets x xs)
  unfolding insert_candidate
  insert-IsNetworked x [] n h = (n, tt)
  insert-IsNetworked x (y ∷ ys) n h =
      if_both (All IsNetworked) (leb (nets.prefix_len y.0) (nets.prefix_len x.0)) (λ _. (n, h))
        (λ _. (h.0, insert-IsNetworked x ys n h.1))

  sort-IsNetworked :
      (xs : List (Net × Credential))
      → All IsNetworked xs
      → All IsNetworked (sort_candidates nets xs)
  unfolding sort_candidates
  sort-IsNetworked [] h = tt
  sort-IsNetworked (x ∷ xs) h =
      insert-IsNetworked x (sort_candidates nets xs) h.0 (sort-IsNetworked xs h.1)

  -- A test of candidates, on the credentials that are candidates.
  abbrev pub on_network : (Net × Credential → Bool) → Credential → Bool
  on_network p c =
      not (is_credential_type c.credential_type CredentialType.smtp_ip)
      || elim (network_of nets c) [ none ↦ true | some net ↦ p (net, c) ]

  all-candidates :
      (p : Net × Credential → Bool) (cs : List Credential)
      → all p (candidates nets cs) ≡ all (on_network p) cs
  unfolding candidates candidate
  all-candidates p [] = refl
  all-candidates p (c ∷ cs) = ground (arith, all-candidates p cs)

  -- The best credential of an address, if there is one.
  abbrev pub IsBest : Option Credential → List Credential → Type 0
  IsBest none cs = all (on_network (λ x. not (matches_ip nets ip x))) cs ≡ true
  IsBest (some c) cs =
      (net : Net) × (network_of nets c ≡ some net)
      × (is_credential_type c.credential_type CredentialType.smtp_ip ≡ true)
      × (matches_ip nets ip (net, c) ≡ true)
      × (all (on_network (is_within (nets.prefix_len net))) cs ≡ true)

  -- The credential that a client's address authenticates is an address credential whose network
  -- matches, and no matching one has a longer prefix; without a result none matches.
  pub match_ip_credential-IsBest :
      (cs : List Credential) → IsBest (match_ip_credential nets cs ip) cs
  unfolding match_ip_credential IsBestOf IsNetworked
  match_ip_credential-IsBest cs =
      chosen (find (matches_ip nets ip) sorted)
        (find-IsBestOf sorted (sort-IsDescending (candidates nets cs)))
        (found sorted (sort-IsNetworked (candidates nets cs) (candidates-IsNetworked cs)))
    where
      sorted : List (Net × Credential)
      sorted = sort_candidates nets (candidates nets cs)

      found :
          (xs : List (Net × Credential))
          → All IsNetworked xs
          → OnSome IsNetworked (find (matches_ip nets ip) xs)
      found [] h = tt
      found (x ∷ xs) h =
          if_both (OnSome IsNetworked) (matches_ip nets ip x) (λ _. h.0) (λ _. found xs h.1)

      of_credentials :
          (p : Net × Credential → Bool) → all p sorted ≡ true → all (on_network p) cs ≡ true
      of_credentials p h = sym (all-candidates p cs) ∙ (sym (all-sort p (candidates nets cs)) ∙ h)

      chosen :
          (o : Option (Net × Credential))
          → IsBestOf o sorted
          → OnSome IsNetworked o
          → IsBest (map_option (λ (x : Net × Credential). x.1) o) cs
      chosen none b n = of_credentials (λ x. not (matches_ip nets ip x)) b
      chosen (some (net, c)) b n =
          (net, n.1, n.0, b.0, of_credentials (is_within (nets.prefix_len net)) b.1)
