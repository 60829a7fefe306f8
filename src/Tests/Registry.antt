-- ===== src/Tests/Registry.antt =====
-- Groups at concrete nodes.
use pyramid.Prelude.{
  ℕ, ◌≡◌, ◌⊎◌, refl, sym, subst, Bool, true, false, List, [], ◌∷◌, arith, if◌then◌else◌, update,
}
use native.Mathlib.Decide.{ℕ_discrete}
use pyramid.Wire.{ok}
use pyramid.Links.Lists.{IsList}
use pyramid.Groups.{
  Groups, group_links, server_get_client_gid_head, server_del_client_from_groups,
  server_add_client_to_one_group,
}
use pyramid.Groups.Members.{IsGroups, Freed}
use pyramid.Groups.Leaving.{remove_all, server_del_client_from_groups_lem}
use pyramid.Groups.Added.{IsFresh}
use pyramid.Groups.Adding.{HasCause, Rejects, Accepts, server_add_client_to_one_group_cases}

-- An allocator with two addresses.
abbrev pub two_nodes : (ℕ → Bool) → ℕ
two_nodes live = if live 11 then (if live 12 then 0 else 12) else 11

pub two_nodes-IsFresh : IsFresh two_nodes
two_nodes-IsFresh live ne = ground arith

-- After `calloc`.
abbrev pub no_groups : Groups
no_groups = record {
  cg_live = λ _. false;
  p = λ _. 0;
  n = λ _. 0;
  ci = λ _. 0;
  ncg = λ _. 0;
  gid = λ _. 0;
  h = λ _. 0;
  tc = λ _. 0;
}

-- Client 100 is in group 5, by node 11.
abbrev pub one_member : Groups
one_member = record {
  cg_live = update (λ _. false) 11 true;
  p = λ _. 0;
  n = λ _. 0;
  ci = λ _. 100;
  ncg = λ _. 0;
  gid = λ _. 5;
  h = update (λ _. 0) 4 11;
  tc = update (λ _. 0) 4 1;
}

abbrev pub one_list : ℕ → List ℕ
one_list = update (λ _. []) 4 (11 ∷ [])

one_member-IsList : (i : ℕ) → IsList one_member.cg_live (group_links one_member i) (one_list i)
one_member-IsList i = elim (ℕ_discrete i 4) [
  | yes e ↦
      subst (λ j. IsList one_member.cg_live (group_links one_member j) (one_list j)) (sym e)
        (record {
          leads = (refl, (λ z. absurd (omega arith)), refl, refl);
          distinct = (refl, tt);
          alive = λ a m. ground arith;
        })
  | no ne ↦
      let nobody : one_list i ≡ [] = ground arith in
      rw nobody
        (record { leads = ground arith; distinct = tt; alive = λ a m. absurd (ground arith) })
]

pub one_member-IsGroups : IsGroups one_member one_list
unfolding server_get_client_gid_head
one_member-IsGroups = record {
  lists = one_member-IsList;
  counted = λ i. ground arith;
  bounded = λ i. ground arith;
  tagged = λ i a m. ground arith;
}

server_add_client_to_one_group_cases_example :
    (HasCause two_nodes 5 one_member one_list
      × Rejects one_member one_list (server_add_client_to_one_group two_nodes 200 5 0 one_member))
    ⊎ Accepts 200 5 0 one_member one_list
        (server_add_client_to_one_group two_nodes 200 5 0 one_member)
server_add_client_to_one_group_cases_example =
    server_add_client_to_one_group_cases two_nodes two_nodes-IsFresh one_member-IsGroups 200 5 0

server_del_client_from_groups_lem_example :
    (g' : Groups) × (server_del_client_from_groups 2 11 one_member ≡ ok g')
    × IsGroups g' (λ j. remove_all (11 ∷ []) (one_list j))
    × Freed (11 ∷ []) one_member g'
server_del_client_from_groups_lem_example =
    server_del_client_from_groups_lem 2 11 (11 ∷ []) one_member one_list one_member-IsGroups
      (refl, (λ z. absurd (omega arith)), refl) (refl, tt) (λ a m. (4, ground arith)) (omega arith)
