-- ===== src/Groups/Added.antt =====
-- The node that `server_add_client_to_one_group` of server/src/groups.c allocates, and the state once
-- it is at the front of its group.
use pyramid.Prelude.{
  ℕ, ◌<◌, ◌≤◌, ◌≡◌, ◌≢◌, refl, sym, subst, Bool, true, false, some, List, ◌∷◌, arith, leb, update,
  has, length,
}
use native.Mathlib.Decide.{ℕ_discrete}
use pyramid.Wire.{ok}
use pyramid.Links.{Links, is_null, insert_front}
use pyramid.Links.Lists.{IsList, SameLinks, inserted, insert-IsList}
use pyramid.Groups.{
  Groups, server_get_client_gid_head, group_links, put_links, increment,
  server_initialize_client_group_node, add_node,
}
use pyramid.Groups.Members.{IsGroups, IsList-frame, absent_elsewhere}

-- `malloc` returns NULL or an address that is not allocated.
abbrev pub IsFresh : ((ℕ → Bool) → ℕ) → Type 0
IsFresh malloc = (live : ℕ → Bool) → malloc live ≢ 0 → live (malloc live) ≡ false

-- `r` is `g` but for the node `a`, which has been allocated, and holds `client`, `cg` and `gid`.
pub record Added (a client gid cg : ℕ) (g r : Groups) : Type 0 where
  pub was_free : g.cg_live a ≡ false
  pub lives : (b : ℕ) → r.cg_live b ≡ update g.cg_live a true b
  pub new_ci : (b : ℕ) → r.ci b ≡ update g.ci a client b
  pub new_ncg : (b : ℕ) → r.ncg b ≡ update g.ncg a cg b
  pub new_gid : (b : ℕ) → r.gid b ≡ update g.gid a gid b

-- `r` is `g` but for nodes that have been allocated and are in no list.
pub record Leaked (g r : Groups) : Type 0 where
  pub lives : (b : ℕ) → g.cg_live b ≡ true → r.cg_live b ≡ true
  pub same_ci : r.ci ≡ g.ci
  pub same_ncg : r.ncg ≡ g.ncg
  pub same_gid : r.gid ≡ g.gid

module _ {g : Groups} {members : ℕ → List ℕ} (is : IsGroups g members) (a : ℕ) (ne : a ≢ 0)
    (free : g.cg_live a ≡ false) where
  unfoldable pub allocated : Groups
  allocated = record g { cg_live = update g.cg_live a true }

  out : (j : ℕ) → has a (members j) ≡ false
  out j = ground (arith, (is.lists j).alive a)

  pub allocated-IsGroups : IsGroups allocated members
  unfolding allocated
  allocated-IsGroups = record {
    lists = λ j.
        IsList-frame g.cg_live _ (group_links g j) (group_links g j) (members j)
          (λ b h. (refl, refl, ground (arith, out j))) refl (is.lists j);
    counted = is.counted;
    bounded = is.bounded;
    tagged = is.tagged;
  }

  pub allocated-Leaked : Leaked g allocated
  unfolding allocated
  allocated-Leaked = record {
    lives = λ b h. ground arith;
    same_ci = refl;
    same_ncg = refl;
    same_gid = refl;
  }

  module _ (i client gid cg : ℕ) (valid : server_get_client_gid_head gid ≡ some i)
      (room : length (members i) < 255) where
    ready : Groups
    unfolding allocated server_initialize_client_group_node
    ready = server_initialize_client_group_node a client cg gid allocated

    ready-IsList : (j : ℕ) → IsList ready.cg_live (group_links ready j) (members j)
    unfolding ready
    ready-IsList j = allocated-IsGroups.lists j

    linked : Links
    linked = inserted ready.cg_live a (group_links ready i)

    linked-IsList :
        (insert_front ready.cg_live a (group_links ready i) ≡ ok linked)
        × IsList ready.cg_live linked (a ∷ members i)
        × SameLinks (a ∷ members i) (group_links ready i) linked
    unfolding linked
    linked-IsList =
        insert-IsList ready.cg_live a (group_links ready i) ne (unfold ready in ground arith)
          (members i) (out i) (ready-IsList i)

    pub added : Groups
    added =
        let g2 = put_links ready i linked in record g2 { tc = update g2.tc i (increment (g2.tc i)) }

    abbrev joined : ℕ → List ℕ
    joined = update members i (a ∷ members i)

    added-here : IsList added.cg_live (group_links added i) (joined i)
    unfolding added
    added-here =
        let here : joined i ≡ a ∷ members i = ground arith in
        rw here (
          IsList-frame ready.cg_live ready.cg_live linked (group_links added i) (a ∷ members i)
            (λ b h. (refl, refl, refl)) (ground arith) linked-IsList.1)

    added-there : (j : ℕ) → j ≢ i → IsList added.cg_live (group_links added j) (joined j)
    unfolding added
    added-there j apart =
        let there : joined j ≡ members j = ground arith in
        rw there (
          IsList-frame ready.cg_live ready.cg_live (group_links ready j) (group_links added j)
            (members j)
            (λ b h.
              let same =
                linked-IsList.2 b (ground (arith, out j, absent_elsewhere is j i b h apart)) in
              (same.0, same.1, refl))
            (ground arith) (ready-IsList j))

    added-lists : (j : ℕ) → IsList added.cg_live (group_links added j) (joined j)
    added-lists j = elim (ℕ_discrete j i) [
      | yes e ↦
          subst (λ j'. IsList added.cg_live (group_links added j') (joined j')) (sym e) added-here
      | no apart ↦ added-there j apart
    ]

    added-counted : (j : ℕ) → added.tc j ≡ length (joined j)
    unfolding added ready
    added-counted j = ground (arith, is.counted i, is.counted j)

    added-bounded : (j : ℕ) → length (joined j) ≤ 255
    added-bounded j = ground (arith, is.bounded j)

    added-tagged :
        (j b : ℕ) → has b (joined j) ≡ true → server_get_client_gid_head (added.gid b) ≡ some j
    unfolding added ready
    added-tagged j b h = ground (arith, is.tagged j b, is.tagged i b, out j)

    pub added-Added : Added a client gid cg g added
    unfolding added ready
    added-Added = record {
      was_free = free;
      lives = λ b. refl;
      new_ci = λ b. refl;
      new_ncg = λ b. refl;
      new_gid = λ b. refl;
    }

    pub added-IsGroups : IsGroups added joined
    added-IsGroups = record {
      lists = added-lists;
      counted = added-counted;
      bounded = added-bounded;
      tagged = added-tagged;
    }

    pub add_node-ok : add_node a (some i) client gid cg allocated ≡ ok (a, added)
    unfolding add_node added ready allocated
    add_node-ok =
        let not_null : is_null a ≡ false = ground arith in
        let not_full : leb 255 (g.tc i) ≡ false = ground (arith, is.counted i) in
        rw (not_null, not_full, linked-IsList.0)
