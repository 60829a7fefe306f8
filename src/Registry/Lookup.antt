-- ===== src/Registry/Lookup.antt =====
-- What `server_search_client_fd` of server/src/groups.c finds once a client has been added.
use pyramid.Prelude.{ℕ, suc, ◌≡◌, ◌≢◌, Bool, true, List, arith, subst, Bool-cases, inl, inr, length}
use pyramid.Wire.{Run, ok}
use pyramid.Wire.Laws.{bind-eq-ok}
use pyramid.Links.{Links, is_null, deref, insert_front}
use pyramid.Groups.{server_add_client_to_groups}
use pyramid.Registry.{
  Clients, search_from, server_search_client_fd, link_client, server_initialize_client_info_node,
  server_alloc_client_info_node, server_add_one_new_client_fd,
}

insert_front-head :
    (live : ℕ → Bool) (x : ℕ) (k k' : Links)
    → insert_front live x k ≡ ok k'
    → (k'.head ≡ x) × (live x ≡ true) × (x ≢ 0)
unfolding insert_front deref
insert_front-head live x k k' e = ground arith

ok_true : {a b : Clients} → ◌≡◌ {A = Run (Bool × Clients)} (ok (true, a)) (ok (true, b)) → a ≡ b
ok_true e = cc

found_first :
    (f bucket cfd nci : ℕ) (s : Clients)
    → s.heads bucket ≡ nci
    → s.ci_live nci ≡ true
    → nci ≢ 0
    → s.cfd nci ≡ cfd
    → server_search_client_fd (suc f) bucket cfd s ≡ ok nci
unfolding server_search_client_fd search_from deref
found_first f bucket cfd nci s e live ne same = ground arith

link_client-search :
    (f bucket cfd nci cg : ℕ) (sa : ℕ × ℕ) (n_gids : ℕ) (s s' : Clients)
    → link_client bucket cfd nci cg sa n_gids s ≡ ok (true, s')
    → server_search_client_fd (suc f) bucket cfd s' ≡ ok nci
unfolding link_client server_initialize_client_info_node
link_client-search f bucket cfd nci cg sa n_gids s s' = elim (Bool-cases (is_null cg)) [
  | inl null ↦ rw null (λ e. absurd (ground arith))
  | inr not_null ↦ rw not_null λ e.
      let (k, ins, done) = bind-eq-ok (insert_front s.ci_live nci _) _ e in
      let (at_head, live, ne) = insert_front-head s.ci_live nci _ k ins in
      let same = ok_true done in
      subst (λ t. server_search_client_fd (suc f) bucket cfd t ≡ ok nci) same
        (found_first f bucket cfd nci _ (ground arith) live ne (ground arith))
]

-- A client that `server_add_one_new_client_fd` has added is the first that a search for its
-- descriptor in its bucket finds, whatever older client had this descriptor.
pub server_add_one_new_client_fd-search :
    (malloc_group malloc_info : (ℕ → Bool) → ℕ) (f bucket cfd : ℕ) (sa : ℕ × ℕ) (gids : List ℕ)
    (s s' : Clients)
    → server_add_one_new_client_fd malloc_group malloc_info bucket cfd sa gids s ≡ ok (true, s')
    → server_search_client_fd (suc f) bucket cfd s' ≡ ok (malloc_info s.ci_live)
unfolding server_add_one_new_client_fd server_alloc_client_info_node
server_add_one_new_client_fd-search malloc_group malloc_info f bucket cfd sa gids s s' =
    let nci = malloc_info s.ci_live in
    elim (Bool-cases (is_null nci)) [
      | inl null ↦ rw null (λ e. absurd (ground arith))
      | inr not_null ↦ rw not_null λ e.
          let (joined, _, linked) =
            bind-eq-ok (server_add_client_to_groups malloc_group nci gids s.groups) _ e in
          link_client-search f bucket cfd nci joined.0 sa (length gids) _ s' linked
    ]
