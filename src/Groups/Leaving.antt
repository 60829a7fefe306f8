-- ===== src/Groups/Leaving.antt =====
-- `server_del_client_from_groups` of server/src/groups.c: the nodes of one client are unlinked from
-- their groups and freed.
use pyramid.Prelude.{
  ℕ, zero, suc, ◌<◌, ◌≡◌, ◌≢◌, refl, sym, ◌∙◌, true, false, List, [], ◌∷◌, arith, has, Distinct,
  remove, length, has-remove_ne, has-cons_self, has-cons_of_has, subst,
}
use pyramid.Wire.{ok}
use pyramid.Links.{is_null, deref}
use pyramid.Groups.{Groups, server_get_client_gid_head, del_node, server_del_client_from_groups}
use pyramid.Groups.Members.{IsGroups, Freed, del_node-IsGroups}

-- From `cg` the `ncg` links lead through the nodes `xs` and end with NULL.
abbrev pub Chain : (ℕ → ℕ) → ℕ → List ℕ → Type 0
Chain ncg cg [] = cg ≡ 0
Chain ncg cg (x ∷ xs) = (cg ≡ x) × (x ≢ 0) × Chain ncg (ncg x) xs

abbrev pub remove_all : List ℕ → List ℕ → List ℕ
remove_all [] l = l
remove_all (x ∷ xs) l = remove_all xs (remove x l)

-- Every node of `xs` is in some group.
abbrev pub InGroups : (ℕ → List ℕ) → List ℕ → Type 0
InGroups members xs = (a : ℕ) → has a xs ≡ true → (i : ℕ) × (has a (members i) ≡ true)

Freed-cons :
    (x : ℕ) (xs : List ℕ) {g g1 g' : Groups}
    → Freed (x ∷ []) g g1
    → Freed xs g1 g'
    → Freed (x ∷ xs) g g'
Freed-cons x xs f f' = record {
  lives = λ a. f'.lives a ∙ ground (arith, f.lives a);
  same_ci = f'.same_ci ∙ f.same_ci;
  same_ncg = f'.same_ncg ∙ f.same_ncg;
  same_gid = f'.same_gid ∙ f.same_gid;
}

step :
    (f cg x : ℕ) (g : Groups) {g1 : Groups}
    → cg ≡ x
    → x ≢ 0
    → deref g.cg_live x ≡ ok tt
    → del_node x (server_get_client_gid_head (g.gid x)) g ≡ ok g1
    → server_del_client_from_groups (suc f) cg g ≡ server_del_client_from_groups f (g.ncg x) g1
unfolding server_del_client_from_groups
step f cg x g e ne read out =
    let begins : is_null x ≡ false = ground arith in rw (e, begins, read, out)

InGroups-remove :
    (members : ℕ → List ℕ) (x : ℕ) (xs : List ℕ)
    → has x xs ≡ false
    → InGroups members (x ∷ xs)
    → InGroups (λ j. remove x (members j)) xs
InGroups-remove members x xs fresh within a h =
    let (i, m) = within a (has-cons_of_has a x xs h) in
    let ne : a ≢ x = ground arith in (i, has-remove_ne a x (members i) ne ∙ m)

-- On well-formed groups and a chain of distinct nodes that are in groups' lists,
-- `server_del_client_from_groups`, given more rounds than the chain has nodes, ends without a fault:
-- the groups are well-formed again, their lists are the old ones without these nodes, and just these
-- nodes are freed.
pub server_del_client_from_groups_lem :
    (f cg : ℕ) (xs : List ℕ) (g : Groups) (members : ℕ → List ℕ)
    → IsGroups g members
    → Chain g.ncg cg xs
    → Distinct xs
    → InGroups members xs
    → length xs < f
    → (g' : Groups) × (server_del_client_from_groups f cg g ≡ ok g')
      × IsGroups g' (λ j. remove_all xs (members j))
      × Freed xs g g'
server_del_client_from_groups_lem zero cg xs g members is c d within fuel = absurd (omega arith)
server_del_client_from_groups_lem (suc f) cg [] g members is c d within fuel = (
  g,
  unfold server_del_client_from_groups in rw c,
  is,
  record { lives = λ a. refl; same_ci = refl; same_ncg = refl; same_gid = refl },
)
server_del_client_from_groups_lem (suc f) cg (x ∷ xs) g members is (e, ne, c) (fresh, d) within
      fuel =
    let (i, m) = within x (has-cons_self x xs) in
    let (g1, read, out, is1, one) = del_node-IsGroups is i x m in
    let (g', runs, is', freed) =
      server_del_client_from_groups_lem f (g.ncg x) xs g1 (λ j. remove x (members j)) is1
        (subst (λ ncg. Chain ncg (g.ncg x) xs) (sym one.same_ncg) c) d
        (InGroups-remove members x xs fresh within) (omega arith) in
    (g', step f cg x g e ne read out ∙ runs, is', Freed-cons x xs one freed)
