-- ===== src/Registry/Fuel.antt =====
-- The functions of server/src/groups.c that remove a client: more rounds change no result.
use pyramid.Prelude.{ℕ, zero, suc, ◌≤◌, ◌≡◌, Bool, arith, Option, none, some}
use pyramid.Wire.{ok}
use pyramid.Groups.{Groups, server_del_client_from_groups}
use pyramid.Registry.{
  Clients, search_from, server_search_client_fd, del_client, server_del_one_client_fd,
}

pub search_from-le :
    (f g ci cfd x : ℕ) (s : Clients)
    → f ≤ g
    → search_from f ci cfd s ≡ ok x
    → search_from g ci cfd s ≡ ok x
unfolding search_from
search_from-le zero g ci cfd x s h e = grind arith
search_from-le (suc f) zero ci cfd x s h e = absurd (omega arith)
search_from-le (suc f) (suc g) ci cfd x s h e =
    grind (arith, search_from-le f g (s.r ci) cfd x s (omega arith))

server_del_client_from_groups-le :
    (f g cg : ℕ) (s s' : Groups)
    → f ≤ g
    → server_del_client_from_groups f cg s ≡ ok s'
    → server_del_client_from_groups g cg s ≡ ok s'
unfolding server_del_client_from_groups
server_del_client_from_groups-le zero g cg s s' h e = grind arith
server_del_client_from_groups-le (suc f) zero cg s s' h e = absurd (omega arith)
server_del_client_from_groups-le (suc f) (suc g) cg s s' h e =
    grind
      (arith, λ (t : Groups). server_del_client_from_groups-le f g (s.ncg cg) t s' (omega arith))

del_client-le :
    (f g bucket ci : ℕ) (s s' : Clients) (r : Bool)
    → f ≤ g
    → del_client f bucket ci s ≡ ok (r, s')
    → del_client g bucket ci s ≡ ok (r, s')
unfolding del_client
del_client-le f g bucket ci s s' r h e =
    grind (arith, λ (t : Groups). server_del_client_from_groups-le f g (s.cg ci) s.groups t h)

pub server_del_one_client_fd-le :
    (f g : ℕ) (head : Option ℕ) (cfd : ℕ) (s s' : Clients) (r : Bool)
    → f ≤ g
    → server_del_one_client_fd f head cfd s ≡ ok (r, s')
    → server_del_one_client_fd g head cfd s ≡ ok (r, s')
unfolding server_del_one_client_fd server_search_client_fd
server_del_one_client_fd-le f g none cfd s s' r h e = e
server_del_one_client_fd-le f g (some bucket) cfd s s' r h e = grind (
  arith,
  λ (x : ℕ). search_from-le f g (s.heads bucket) cfd x s h,
  λ (x : ℕ). del_client-le f g bucket x s s' r h,
)
