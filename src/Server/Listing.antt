-- ===== src/Server/Listing.antt =====
-- `sh_display_all_clients` and `sh_display_all_multicast_groups` of server/src/server_helper.c: what
-- a walk over the lists of the registry sends.
use pyramid.Prelude.{
  ℕ, zero, suc, ◌-◌, ◌<◌, ◌≤◌, ◌≡◌, ◌≢◌, subst, inl, inr, refl, sym, ap, ◌∙◌, true, false, some,
  has, List, [], ◌∷◌, ◌++◌, arith, length, All, All-append, map, ◌==◌,
}
use pyramid.Wire.{ok, ◌>>=◌, Bytes}
use pyramid.Wire.Laws.{bind-cong}
use pyramid.Tlv.Attribute.{cli_data}
use pyramid.Links.Chain.{Leads}
use pyramid.Links.Lists.{IsList, deref-ok}
use pyramid.Registry.{Clients, bucket_links}
use pyramid.Jobs.{Jobs}
use pyramid.Server.{System, Server}
use pyramid.Server.Display.{
  add_text, send_rest, show_bucket, show_buckets, sh_display_all_clients, client_entry,
}
use pyramid.Server.Entries.{client_entry-IsEntry}
use pyramid.Server.Chunks.{
  chunks, concat, concat-chunks, add_all, after_chunks, put_socket, IsEntry, IsSmall,
}
use pyramid.Server.Buffer.{add_all-stack}
use pyramid.Server.Unchanged.{add_text-jobs, add_all-append, add_all-jobs}

-- The buckets of the registry are well-formed lists, each shorter than the fuel.
pub record AreBuckets (c : Clients) (fuel : ℕ) (buckets : ℕ → List ℕ) : Type 0 where
  pub lists : (i : ℕ) → i < 255 → IsList c.ci_live (bucket_links c i) (buckets i)
  pub short : (i : ℕ) → i < 255 → length (buckets i) < fuel
  pub small : (a : ℕ) → c.cfd a < 4294967296

-- One text for each client of the buckets from 255 - `n` on, in their order.
unfoldable pub client_entries : Clients → (ℕ → List ℕ) → ℕ → List Bytes
client_entries c buckets zero = []
client_entries c buckets (suc n) =
    map (λ ci. client_entry (c.cfd ci)) (buckets (255 - suc n)) ++ client_entries c buckets n

module _ {P : Type 0} (sys : System P) (fuel fd : ℕ) where
  show_bucket-null : (k : ℕ) (b : Bytes × ℕ × Server P) → show_bucket sys fuel (suc k) fd 0 b ≡ ok b
  unfolding show_bucket
  show_bucket-null k b = refl

  show_bucket-step :
      (k ci : ℕ) (b : Bytes × ℕ × Server P)
      → ci ≢ 0
      → b.2.jobs.clients.ci_live ci ≡ true
      → show_bucket sys fuel (suc k) fd ci b ≡ (
          add_text sys fuel fd (client_entry (b.2.jobs.clients.cfd ci)) cli_data b
          >>= show_bucket sys fuel k fd (b.2.jobs.clients.r ci))
  unfolding show_bucket
  show_bucket-step k ci b ne alive =
      let not_null : (ci == 0) ≡ false = ground arith in
      rw (not_null, deref-ok b.2.jobs.clients.ci_live ci ne alive) refl

  module _ (j : Jobs) where
    abbrev entry_of : ℕ → Bytes
    entry_of ci = client_entry (j.clients.cfd ci)

    show_bucket-add_all :
        (k l ci : ℕ) (xs : List ℕ) (b : Bytes × ℕ × Server P)
        → b.2.jobs ≡ j
        → Leads j.clients.r j.clients.l l ci xs
        → ((a : ℕ) → has a xs ≡ true → j.clients.ci_live a ≡ true)
        → length xs < k
        → show_bucket sys fuel k fd ci b ≡ add_all sys fuel fd cli_data (map entry_of xs) b
    show_bucket-add_all zero l ci xs b same c alive short = absurd (omega arith)
    show_bucket-add_all (suc k) l ci [] b same c alive short = rw c (show_bucket-null k b)
    show_bucket-add_all (suc k) l ci (x ∷ xs) b same (e, ne, before, c) alive short =
        let here : b.2.jobs.clients.ci_live x ≡ true = rw same (alive x (ground arith)) in
        let step : show_bucket sys fuel (suc k) fd x b ≡ (
            add_text sys fuel fd (entry_of x) cli_data b
            >>= show_bucket sys fuel k fd (j.clients.r x)) =
          rw⁻¹ same (show_bucket-step k x b ne here) in
        rw e (
          step
          ∙ bind-cong (add_text sys fuel fd (entry_of x) cli_data b)
              (show_bucket sys fuel k fd (j.clients.r x))
              (add_all sys fuel fd cli_data (map entry_of xs))
              (λ b' sent.
                show_bucket-add_all k x (j.clients.r x) xs b'
                  (add_text-jobs sys fuel fd (entry_of x) cli_data b b' sent ∙ same) c
                  (λ a h. alive a (ground arith)) (omega arith)))

    show_bucket-heads :
        (buckets : ℕ → List ℕ) (i : ℕ) (b : Bytes × ℕ × Server P)
        → AreBuckets j.clients fuel buckets
        → i < 255
        → b.2.jobs ≡ j
        → show_bucket sys fuel fuel fd (b.2.jobs.clients.heads i) b
          ≡ add_all sys fuel fd cli_data (map entry_of (buckets i)) b
    show_bucket-heads buckets i b are h same =
        let is = are.lists i h in
        let head : b.2.jobs.clients.heads i ≡ j.clients.heads i =
          ap (λ (k : Jobs). k.clients.heads i) same in
        subst
          (λ (ci : ℕ).
            show_bucket sys fuel fuel fd ci b
            ≡ add_all sys fuel fd cli_data (map entry_of (buckets i)) b)
          (sym head)
          (show_bucket-add_all fuel 0 (j.clients.heads i) (buckets i) b same is.leads is.alive
            (are.short i h))

    show_buckets-add_all :
        (buckets : ℕ → List ℕ)
        → AreBuckets j.clients fuel buckets
        → (n : ℕ) → n ≤ 255
        → (b : Bytes × ℕ × Server P) → b.2.jobs ≡ j
        → show_buckets sys fuel n fd b
          ≡ add_all sys fuel fd cli_data (client_entries j.clients buckets n) b
    unfolding show_buckets client_entries
    show_buckets-add_all buckets are zero h b same = refl
    show_buckets-add_all buckets are (suc n) h b same =
        let texts : List Bytes = map entry_of (buckets (255 - suc n)) in
        ap (λ m. m >>= show_buckets sys fuel n fd)
          (show_bucket-heads buckets (255 - suc n) b are (omega arith) same)
        ∙ bind-cong (add_all sys fuel fd cli_data texts b) (show_buckets sys fuel n fd)
            (add_all sys fuel fd cli_data (client_entries j.clients buckets n))
            (λ b' sent.
              show_buckets-add_all buckets are n (omega arith) b'
                (add_all-jobs sys fuel fd cli_data texts b b' sent ∙ same))
        ∙ sym (add_all-append sys fuel fd cli_data texts (client_entries j.clients buckets n) b)

client_entries-IsEntry :
    (c : Clients) (buckets : ℕ → List ℕ)
    → ((a : ℕ) → c.cfd a < 4294967296)
    → (n : ℕ) → All IsEntry (client_entries c buckets n)
unfolding client_entries
client_entries-IsEntry c buckets small zero = tt
client_entries-IsEntry c buckets small (suc n) =
    All-append IsEntry (map (λ ci. client_entry (c.cfd ci)) (buckets (255 - suc n)))
      (client_entries c buckets n) (all (buckets (255 - suc n)))
      (client_entries-IsEntry c buckets small n)
  where
    all : (xs : List ℕ) → All IsEntry (map (λ ci. client_entry (c.cfd ci)) xs)
    all [] = tt
    all (x ∷ xs) = (client_entry-IsEntry (c.cfd x) (small x), all xs)

module _ {P : Type 0} (sys : System P) (f fd : ℕ)
    (takes : (c n : ℕ) → sys.send fd c n ≡ some n) where
  -- The list of the clients goes out as one frame for each chunk, and the chunks together are one
  -- text for each client, in the order of the buckets: none is lost, cut or sent twice. The
  -- buckets are well-formed lists with less clients than there are rounds, the descriptors are of
  -- 32 bits, no chunk is longer than `encode` has room for, the local array has 1024 bytes, and
  -- `send` takes every frame whole.
  pub sh_display_all_clients-chunks :
      (s : Server P) (buckets : ℕ → List ℕ)
      → AreBuckets s.jobs.clients (suc (suc f)) buckets
      → 1024 ≤ length sys.stack
      → All IsSmall (chunks [] (client_entries s.jobs.clients buckets 255))
      → (sh_display_all_clients sys (suc (suc f)) fd s
          ≡ ok (
              put_socket fd s (
                after_chunks
                  (sys.send fd)
                  cli_data
                  (chunks [] (client_entries s.jobs.clients buckets 255))
                  (s.sockets fd))))
        × (concat (chunks [] (client_entries s.jobs.clients buckets 255))
            ≡ concat (client_entries s.jobs.clients buckets 255))
  unfolding sh_display_all_clients
  sh_display_all_clients-chunks s buckets are room small =
      let texts = client_entries s.jobs.clients buckets 255 in
      (
        ap (λ m. m >>= send_rest sys (suc (suc f)) fd cli_data)
              (show_buckets-add_all sys (suc (suc f)) fd s.jobs buckets are 255 (omega arith)
                (sys.stack, 0, s) refl)
            ∙ add_all-stack sys f fd cli_data (inr (inl refl)) takes texts s room
                (client_entries-IsEntry s.jobs.clients buckets are.small 255) small,
        concat-chunks [] texts,
      )
