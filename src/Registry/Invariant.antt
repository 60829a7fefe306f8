-- ===== src/Registry/Invariant.antt =====
-- The registry of server/src/groups.c as a whole: its buckets, its groups, and the chain of nodes by
-- which each client is in its groups.
use pyramid.Prelude.{
  ℕ, zero, suc, ◌%◌, ◌<◌, ◌≡◌, ◌≢◌, ◌⊎◌, inl, inr, refl, ◌∙◌, true, false, List, [], ◌∷◌, arith,
  has, has_of_remove, has-remove_ne, has-remove_self, remove, Distinct, Distinct-remove, length,
  ◌==◌, if◌then◌else◌, Bool-cases,
}
use pyramid.Wire.{Run, ok}
use pyramid.Links.Chain.{Leads}
use pyramid.Links.Lists.{IsList, deref-ok}
use pyramid.Groups.Members.{IsGroups}
use pyramid.Groups.Leaving.{Chain, InGroups, remove_all}
use pyramid.Registry.{Clients, get_hash, bucket_links, search_from}

-- `buckets i` are the clients of bucket `i`, in list order, `members j` the nodes of group `j`, and
-- `chain a` the nodes of the client `a`. A client is in the bucket of its descriptor; its nodes are
-- chained from it, are in groups, and point back at it; and each node of a group is one of an
-- allocated client's.
pub record IsRegistry (c : Clients) (buckets members chain : ℕ → List ℕ) : Type 0 where
  pub groups : IsGroups c.groups members
  pub lists : (i : ℕ) → IsList c.ci_live (bucket_links c i) (buckets i)
  pub counted : (i : ℕ) → c.counts i ≡ length (buckets i) % 4294967296
  pub placed : (i a : ℕ) → has a (buckets i) ≡ true → get_hash (c.cfd a) ≡ i
  pub chained : (i a : ℕ) → has a (buckets i) ≡ true → Chain c.groups.ncg (c.cg a) (chain a)
  pub distinct : (i a : ℕ) → has a (buckets i) ≡ true → Distinct (chain a)
  pub within : (i a : ℕ) → has a (buckets i) ≡ true → InGroups members (chain a)
  pub owned : (i a n : ℕ) → has a (buckets i) ≡ true → has n (chain a) ≡ true → c.groups.ci n ≡ a
  pub owner :
      (j n : ℕ) → has n (members j) ≡ true → (i : ℕ) × (has (c.groups.ci n) (buckets i) ≡ true)
  pub member : (j n : ℕ) → has n (members j) ≡ true → has n (chain (c.groups.ci n)) ≡ true

pub has_of_remove_all : (n : ℕ) (xs l : List ℕ) → has n (remove_all xs l) ≡ true → has n l ≡ true
has_of_remove_all n [] l h = h
has_of_remove_all n (x ∷ xs) l h = has_of_remove n x l (has_of_remove_all n xs (remove x l) h)

pub has-remove_all : (n : ℕ) (xs l : List ℕ) → has n xs ≡ false → has n (remove_all xs l) ≡ has n l
has-remove_all n [] l h = refl
has-remove_all n (x ∷ xs) l h =
    let ne : n ≢ x = ground arith in
    has-remove_all n xs (remove x l) (ground arith) ∙ has-remove_ne n x l ne

-- What is left of a list without repetitions is none of what was taken out.
pub removed_all :
    (n : ℕ) (xs l : List ℕ) → Distinct l → has n (remove_all xs l) ≡ true → has n xs ≡ false
removed_all n [] l d h = refl
removed_all n (x ∷ xs) l d h =
    let rest : has n xs ≡ false = removed_all n xs (remove x l) (Distinct-remove x l d) h in
    let here : has n (remove x l) ≡ true = has_of_remove_all n xs (remove x l) h in
    elim (Bool-cases (n == x)) [
      | inl e ↦ let same : n ≡ x = ground arith in absurd (ground (arith, has-remove_self x l d))
      | inr e ↦ ground arith
    ]

-- What the search of a bucket finds.
abbrev pub Finds : (ℕ → ℕ) → ℕ → List ℕ → Run ℕ → Type 0
Finds cfd fd xs r =
    ((r ≡ ok 0) × ((a : ℕ) → has a xs ≡ true → cfd a ≢ fd))
    ⊎ ((x : ℕ) × (r ≡ ok x) × (has x xs ≡ true) × (cfd x ≡ fd) × (x ≢ 0))

search_step :
    (f ci fd : ℕ) (c : Clients)
    → ci ≢ 0
    → c.ci_live ci ≡ true
    → search_from (suc f) ci fd c ≡ (if c.cfd ci == fd then ok ci else search_from f (c.r ci) fd c)
unfolding search_from
search_step f ci fd c ne live =
    let not_null : (ci == 0) ≡ false = ground arith in
    rw (not_null, deref-ok c.ci_live ci ne live) refl

pub search_from-Finds :
    (f l ci fd : ℕ) (xs : List ℕ) (c : Clients)
    → Leads c.r c.l l ci xs
    → ((a : ℕ) → has a xs ≡ true → c.ci_live a ≡ true)
    → length xs < f
    → Finds c.cfd fd xs (search_from f ci fd c)
search_from-Finds zero l ci fd xs c leads alive fuel = absurd (omega arith)
search_from-Finds (suc f) l ci fd [] c leads alive fuel =
    inl (unfold search_from in rw leads refl, λ a h. absurd (ground arith))
search_from-Finds (suc f) l ci fd (x ∷ xs) c (e, ne, back, rest) alive fuel =
    let step = search_step f x fd c ne (alive x (ground arith)) in
    elim (Bool-cases (c.cfd x == fd)) [
      | inl same ↦ rw (e, step, same) (inr (x, refl, ground arith, ground arith, ne))
      | inr other ↦
          rw (e, step, other)
            (elim (search_from-Finds f x (c.r x) fd xs c rest (λ a h. alive a (ground arith))
              (omega arith)) [
                | inl (nothing, apart) ↦ inl (nothing, λ a h. ground (arith, apart a))
                | inr (y, found, there, same, ney) ↦ inr (y, found, ground arith, same, ney)
              ])
    ]
