-- ===== src/Groups/Joining.antt =====
-- `server_add_client_to_groups` of server/src/groups.c: all of the groups, or none.
use pyramid.Prelude.{
  ◌≤◌, map, none, some, ℕ, suc, ◌+◌, ◌<◌, ◌≡◌, ◌≢◌, ◌⊎◌, inl, inr, refl, ap, subst, fun_ext, ◌∙◌,
  Bool, true, false, List, [], ◌∷◌, arith, ◌==◌, if◌then◌else◌, Bool-cases, update, has, Distinct,
  remove, length,
}
use pyramid.Wire.{Run, ok, ◌>>=◌}
use pyramid.Links.{is_null}
use pyramid.Groups.{
  server_get_client_gid_head, Groups, server_del_client_from_groups, server_add_client_to_one_group,
  add_to_groups, server_add_client_to_groups,
}
use pyramid.Groups.Members.{IsGroups, remove_absent}
use pyramid.Groups.Leaving.{Chain, remove_all, InGroups, server_del_client_from_groups_lem}
use pyramid.Groups.Added.{IsFresh, Added, Leaked}
use pyramid.Groups.Adding.{HasCause, server_add_client_to_one_group_cases}

pub Chain-frame :
    (ncg ncg' : ℕ → ℕ) (cg : ℕ) (xs : List ℕ)
    → ((a : ℕ) → has a xs ≡ true → ncg' a ≡ ncg a)
    → Chain ncg cg xs
    → Chain ncg' cg xs
Chain-frame ncg ncg' cg [] same c = c
Chain-frame ncg ncg' cg (x ∷ xs) same (e, ne, c) = (
  e,
  ne,
  rw (same x (ground arith)) (Chain-frame ncg ncg' (ncg x) xs (λ a h. same a (ground arith)) c),
)

-- The nodes of `old` hold in `g` what they held, for the client and the next node of its chain.
abbrev pub Same : Groups → Groups → Type 0
Same old g = (a : ℕ) → old.cg_live a ≡ true → (g.ci a ≡ old.ci a) × (g.ncg a ≡ old.ncg a)

-- The nodes `xs` of one client are chained from `cg`, and are what the group lists `members` have
-- in addition to `before`; the nodes of `old` are allocated, and hold what they held.
pub record HasJoined (old g : Groups) (before members : ℕ → List ℕ) (client cg : ℕ) (xs : List ℕ)
    : Type 0 where
  pub groups : IsGroups g members
  pub chain : Chain g.ncg cg xs
  pub distinct : Distinct xs
  pub within : InGroups members xs
  pub others : (j : ℕ) → remove_all xs (members j) ≡ before j
  pub owner : (a : ℕ) → has a xs ≡ true → g.ci a ≡ client
  pub lives : (a : ℕ) → old.cg_live a ≡ true → g.cg_live a ≡ true
  pub same : Same old g

-- Why the client cannot join: `malloc` returns NULL, or one of the numbers is no group's, or this
-- group has no room for as many nodes as there are numbers.
abbrev pub CannotJoin : ((ℕ → Bool) → ℕ) → (ℕ → List ℕ) → List ℕ → Type 0
CannotJoin malloc before gids =
    ((live : ℕ → Bool) × (malloc live ≡ 0))
    ⊎ ((gid : ℕ) × (has gid gids ≡ true) × (server_get_client_gid_head gid ≡ none))
    ⊎ ((gid : ℕ) × (i : ℕ) × (has gid gids ≡ true)
        × (server_get_client_gid_head gid ≡ some i)
        × (255 ≤ length (before i) + length gids))

-- `xs` in the other order, in front of `ys`.
abbrev pub reversed : List ℕ → List ℕ → List ℕ
reversed [] ys = ys
reversed (x ∷ xs) ys = reversed xs (x ∷ ys)

-- Either NULL, with every group as before, or a chain of one node for each group number, which has
-- the numbers `chained`.
abbrev pub AllOrNone :
    ((ℕ → Bool) → ℕ) → Groups → (ℕ → List ℕ) → ℕ → List ℕ → List ℕ → Run (ℕ × Groups) → Type 0
AllOrNone malloc old before client gids chained r =
    ((g' : Groups) × (r ≡ ok (0, g'))
      × IsGroups g' before
      × Same old g'
      × CannotJoin malloc before gids)
    ⊎ ((cg : ℕ) × (xs : List ℕ) × (members : ℕ → List ℕ) × (g' : Groups) × (r ≡ ok (cg, g'))
        × HasJoined old g' before members client cg xs
        × (length xs ≡ length gids)
        × (map g'.gid xs ≡ chained))

HasJoined-Leaked :
    {old g g' : Groups} {before members : ℕ → List ℕ} {client cg : ℕ} {xs : List ℕ}
    → HasJoined old g before members client cg xs
    → IsGroups g' members
    → Leaked g g'
    → HasJoined old g' before members client cg xs
HasJoined-Leaked {cg} {xs} h is l = record {
  groups = is;
  chain = rw l.same_ncg h.chain;
  distinct = h.distinct;
  within = h.within;
  others = h.others;
  owner = λ a m. rw l.same_ci (h.owner a m);
  lives = λ a m. l.lives a (h.lives a m);
  same = λ a m. (rw l.same_ci (h.same a m).0, rw l.same_ncg (h.same a m).1);
}

-- Rolling back: the chain is deleted, and the groups are as before.
roll_back :
    (f : ℕ) {old g : Groups} {before members : ℕ → List ℕ} {client cg : ℕ} (xs : List ℕ)
    → HasJoined old g before members client cg xs
    → length xs < f
    → (g' : Groups) × (server_del_client_from_groups f cg g ≡ ok g')
      × IsGroups g' before
      × Same old g'
roll_back f {g} {members} {cg} xs h fuel =
    let (g', runs, is, freed) =
      server_del_client_from_groups_lem f cg xs g members h.groups h.chain h.distinct h.within
        fuel in
    (
      g',
      runs,
      subst (IsGroups g') (fun_ext h.others) is,
      (λ a m. (rw freed.same_ci (h.same a m).0, rw freed.same_ncg (h.same a m).1)),
    )

HasJoined-Added :
    {old g g' : Groups} {before members : ℕ → List ℕ} {client cg : ℕ} {xs : List ℕ} (a i gid : ℕ)
    → a ≢ 0
    → HasJoined old g before members client cg xs
    → IsGroups g' (update members i (a ∷ members i))
    → Added a client gid cg g g'
    → HasJoined old g' before (update members i (a ∷ members i)) client a (a ∷ xs)
HasJoined-Added {old} {g} {g'} {before} {members} {client} {cg} {xs} a i gid ne h is new = record {
  groups = is;
  chain = (
    refl,
    ne,
    rw first
        (Chain-frame g.ncg g'.ncg cg xs (λ b m. new.new_ncg b ∙ ground (arith, fresh)) h.chain),
  );
  distinct = (fresh, h.distinct);
  within = within;
  others = λ j. ap (remove_all xs) (cut j) ∙ h.others j;
  owner = λ b m. new.new_ci b ∙ ground (arith, h.owner b);
  lives = λ b m. new.lives b ∙ ground (arith, h.lives b);
  same = λ b m. (new.new_ci b ∙ kept_ci b m, new.new_ncg b ∙ kept_ncg b m);
}
  where
    kept_ci : (b : ℕ) → old.cg_live b ≡ true → update g.ci a client b ≡ old.ci b
    kept_ci b m = ground (arith, h.lives b m, new.was_free, (h.same b m).0)

    kept_ncg : (b : ℕ) → old.cg_live b ≡ true → update g.ncg a cg b ≡ old.ncg b
    kept_ncg b m = ground (arith, h.lives b m, new.was_free, (h.same b m).1)

    outside : (j : ℕ) → has a (members j) ≡ false
    outside j = ground (arith, (h.groups.lists j).alive a, new.was_free)

    fresh : has a xs ≡ false
    fresh = elim (Bool-cases (has a xs)) [
      | inl m ↦ let (j, m') = h.within a m in ground (arith, outside j)
      | inr out ↦ out
    ]

    first : g'.ncg a ≡ cg
    first = new.new_ncg a ∙ ground arith

    cut : (j : ℕ) → remove a (update members i (a ∷ members i) j) ≡ members j
    cut j = ground (arith, remove_absent a (members j) (outside j))

    within : InGroups (update members i (a ∷ members i)) (a ∷ xs)
    within b m = elim (Bool-cases (b == a)) [
      | inl e ↦ (i, ground arith)
      | inr e ↦ let (j, m') = h.within b (ground arith) in (j, ground arith)
    ]

length-remove_all : (xs l : List ℕ) → length l ≤ length (remove_all xs l) + length xs
length-remove_all [] l = omega arith
length-remove_all (x ∷ xs) l = omega (arith, length-remove_all xs (remove x l), shorter x l)
  where
    shorter : (a : ℕ) (l : List ℕ) → length l ≤ length (remove a l) + 1
    shorter a [] = omega arith
    shorter a (b ∷ l) = ground (arith, shorter a l)

cannot_join :
    (malloc : (ℕ → Bool) → ℕ) {old g : Groups} {before members : ℕ → List ℕ} {client cg : ℕ}
    {xs : List ℕ}
    → HasJoined old g before members client cg xs
    → (gid : ℕ) (all : List ℕ) → HasCause malloc gid g members
    → has gid all ≡ true
    → length xs ≤ length all
    → CannotJoin malloc before all
cannot_join malloc {g} h gid all (inl no_memory) m few = inl (g.cg_live, no_memory)
cannot_join malloc h gid all (inr (inl no_group)) m few = inr (inl (gid, m, no_group))
cannot_join malloc {members} {xs} h gid all (inr (inr (i, valid, full))) m few = inr (
    inr (gid, i, m, valid, omega (arith, length-remove_all xs (members i), ap length (h.others i))))

map_same :
    (f h : ℕ → ℕ) (xs : List ℕ) → ((b : ℕ) → has b xs ≡ true → f b ≡ h b) → map f xs ≡ map h xs
map_same f h [] e = refl
map_same f h (x ∷ xs) e = rw (e x (ground arith), map_same f h xs (λ b m. e b (ground arith))) refl

with_new_number :
    {old g g' : Groups} {before members : ℕ → List ℕ} {client cg : ℕ} {xs done : List ℕ} (a gid : ℕ)
    → HasJoined old g before members client cg xs
    → Added a client gid cg g g'
    → map g.gid xs ≡ done
    → map g'.gid (a ∷ xs) ≡ gid ∷ done
with_new_number {g} {g'} {xs} a gid h new numbers =
    let first : g'.gid a ≡ gid = new.new_gid a ∙ ground arith in
    let rest : map g'.gid xs ≡ map g.gid xs = map_same g'.gid g.gid xs (λ b m.
      let (j, there) = h.within b m in
      new.new_gid b ∙ ground (arith, (h.groups.lists j).alive b there, new.was_free)) in
    rw (first, rest, numbers) refl

add_to_groups_round :
    (malloc : (ℕ → Bool) → ℕ) (added client gid cg : ℕ) (gids : List ℕ) (g : Groups) {g1 : Groups}
    {cgt : ℕ}
    → server_add_client_to_one_group malloc client gid cg g ≡ ok (cgt, g1)
    → add_to_groups malloc added client (gid ∷ gids) cg g ≡ (
        if is_null cgt
        then (server_del_client_from_groups (suc added) cg g1 >>= λ g2. ok (0, g2))
        else add_to_groups malloc (suc added) client gids cgt g1)
unfolding add_to_groups
add_to_groups_round malloc added client gid cg gids g e = rw e

module _ (malloc : (ℕ → Bool) → ℕ) (fresh : IsFresh malloc) (client : ℕ) where
  add_to_groups-AllOrNone :
      (added : ℕ) (gids all done : List ℕ) (cg : ℕ) (old g : Groups) (before members : ℕ → List ℕ)
      (xs : List ℕ)
      → HasJoined old g before members client cg xs
      → length xs ≡ added
      → map g.gid xs ≡ done
      → added + length gids ≡ length all
      → ((a : ℕ) → has a gids ≡ true → has a all ≡ true)
      → AllOrNone malloc old before client all
          (reversed gids done)
          (add_to_groups malloc added client gids cg g)
  add_to_groups-AllOrNone added [] all done cg old g before members xs h e numbers total some_of =
      inr (cg, xs, members, g, unfold add_to_groups in refl, h, omega arith, numbers)
  add_to_groups-AllOrNone added (gid ∷ gids) all done cg old g before members xs h e numbers total
        some_of =
      elim (server_add_client_to_one_group_cases malloc fresh h.groups client gid cg) [
        | inl (cause, (g1, result, is, leaked)) ↦
            let (g2, runs, is2, same) =
              roll_back (suc added) xs (HasJoined-Leaked h is leaked) (omega arith) in
            inl (
              g2,
              add_to_groups_round malloc added client gid cg gids g result ∙ rw runs,
              is2,
              same,
              cannot_join malloc h gid all cause (some_of gid (ground arith)) (omega arith),
            )
        | inr (a, i, g1, ne, valid, result, is, new) ↦
            let not_null : is_null a ≡ false = ground arith in
            rw (add_to_groups_round malloc added client gid cg gids g result, not_null)
              (add_to_groups-AllOrNone (suc added) gids all (gid ∷ done) a old g1 before
                (update members i (a ∷ members i)) (a ∷ xs) (HasJoined-Added a i gid ne h is new)
                (omega arith) (with_new_number a gid h new numbers) (omega arith)
                (λ b m. some_of b (ground arith)))
      ]

  pub server_add_client_to_groups-AllOrNone :
      (gids : List ℕ) (g : Groups) (members : ℕ → List ℕ)
      → IsGroups g members
      → AllOrNone malloc g members client gids
          (reversed gids [])
          (server_add_client_to_groups malloc client gids g)
  unfolding server_add_client_to_groups
  server_add_client_to_groups-AllOrNone gids g members is =
      let start : HasJoined g g members members client 0 [] = record {
        groups = is;
        chain = refl;
        distinct = tt;
        within = λ a m. absurd (ground arith);
        others = λ j. refl;
        owner = λ a m. absurd (ground arith);
        lives = λ a m. m;
        same = λ a m. (refl, refl);
      } in
      add_to_groups-AllOrNone 0 gids gids [] 0 g g members members [] start refl refl (omega arith)
        (λ a m. m)
