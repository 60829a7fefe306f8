-- ===== src/Links.antt =====
-- The doubly linked lists of the server. Each link field of a structure is a map from addresses to
-- addresses, and NULL is 0. server/src/groups.c keeps two such lists, of `client_group` nodes and
-- of `client_info` nodes, and inserts and removes nodes by the same steps in both.
pub mod Chain
pub mod Lists
use pyramid.Prelude.{ℕ, zero, suc, Bool, true, false, not, ◌&&◌, ◌==◌, if◌then◌else◌, update}
use pyramid.Wire.{Run, ok, fault, ◌>>=◌}

-- The link fields of all nodes, and the head pointer of one list.
pub record Links : Type 0 where
  pub next : ℕ → ℕ
  pub prev : ℕ → ℕ
  pub head : ℕ

abbrev pub is_null : ℕ → Bool
is_null a = a == 0

-- A use of the node at `a`: a fault if `a` is NULL or not allocated.
unfoldable pub deref : (ℕ → Bool) → ℕ → Run (Unit {0})
deref live a = if not (is_null a) && live a then ok tt else fault

-- `x->prev = NULL; x->next = head; if (head) head->prev = x; head = x;`
unfoldable pub insert_front : (ℕ → Bool) → ℕ → Links → Run Links
unfolding deref
insert_front live x k = do
  _ ← deref live x
  let p = update k.prev x 0
  let n = update k.next x k.head
  if is_null k.head
      then ok (record { next = n; prev = p; head = x })
      else (do _ ← deref live k.head; ok (record { next = n; prev = update p k.head x; head = x }))

-- `if (x->prev) x->prev->next = x->next; else head = x->next;`
pub unlink_next : (ℕ → Bool) → ℕ → Links → Run Links
unfolding deref
unlink_next live x k = if is_null (k.prev x) then ok (record k { head = k.next x }) else (do
  _ ← deref live (k.prev x)
  ok (record k { next = update k.next (k.prev x) (k.next x) }))

-- `if (x->next) x->next->prev = x->prev;`
pub unlink_prev : (ℕ → Bool) → ℕ → Links → Run Links
unfolding deref
unlink_prev live x k = if is_null (k.next x) then ok k else (do
  _ ← deref live (k.next x)
  ok (record k { prev = update k.prev (k.next x) (k.prev x) }))

unfoldable pub unlink : (ℕ → Bool) → ℕ → Links → Run Links
unfolding unlink_next unlink_prev deref
unlink live x k = do _ ← deref live x; k' ← unlink_next live x k; unlink_prev live x k'
