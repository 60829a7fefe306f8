-- ===== src/Tests/Serving.antt =====
-- The server at a concrete state: client 100 with descriptor 7, and one job.
use pyramid.Prelude.{
  ℕ, ◌≤◌, ◌≡◌, ◌⊎◌, refl, sym, subst, Bool, true, false, some, List, [], ◌∷◌, ◌++◌, arith, length,
  length-replicate, update, replicate, ◌==◌, if◌then◌else◌, ℤ, pos, All,
}
use native.Mathlib.Decide.{ℕ_discrete}
use pyramid.Wire.{ok, Bytes}
use pyramid.Tlv.Attribute.{cli_data}
use pyramid.Links.Lists.{IsList}
use pyramid.Registry.{bucket_links}
use pyramid.Messages.Network.{Screen, value_line, goodbye_line, handle_network_message}
use pyramid.Jobs.Assign.{decimal, digits, show_int}
use pyramid.Cli.{cli_set_job_result_queue_size}
use pyramid.Cli.Requests.{request}
use pyramid.Server.{System, Server, Work}
use pyramid.Server.Display.{sh_display_all_clients, client_entry}
use pyramid.Server.Command.{sh_parse_cmd}
use pyramid.Server.Chunks.{chunks, concat, after_chunks, put_socket, IsSmall}
use pyramid.Server.Listing.{AreBuckets, client_entries, sh_display_all_clients-chunks}
use pyramid.Server.Dialogue.{queue_line}
use pyramid.Server.Composition.{set_job_queue_size-served}
use pyramid.Server.Start.{choose_port, choose_port-cases, IsRefused, IsOutside}
use pyramid.Tests.Work.{worker, one_job}

abbrev no_address : (ℕ → Bool) → ℕ
no_address live = 0

-- Every frame is taken whole.
abbrev pub system : System (List Work)
system = record {
  send = λ fd c n. some n;
  getpeername = λ fd. some (0, 0);
  malloc_group = no_address;
  malloc_info = no_address;
  malloc_cn = no_address;
  malloc_jn = no_address;
  number = λ p. if length p == 1 then pos 7 else pos 25;
  run_command = λ p. true;
  thpool_add_work = λ w ws. ws ++ (w ∷ []);
  stack = replicate 1024 204;
}

abbrev pub server : Server (List Work)
server = record {
  jobs = one_job;
  sockets = λ fd. record { calls = 0; out = [] };
  sh_job_id = 0;
  settings = record {
    central_repo_ip = 0 ∷ [];
    job_directory = 0 ∷ [];
    username = 0 ∷ [];
    passwd = 0 ∷ [];
    job_timeout = pos 10;
    job_queue_size = pos 10;
  };
  fd_cli = 0;
  g_thpool = [];
}

pub room : 1024 ≤ length system.stack
room = let cell : ℕ = 204 in omega (arith, length-replicate 1024 cell)

abbrev pub one_bucket : ℕ → List ℕ
one_bucket = update (λ i. []) 7 (100 ∷ [])

pub worker-IsList : (i : ℕ) → IsList worker.ci_live (bucket_links worker i) (one_bucket i)
worker-IsList i = elim (ℕ_discrete i 7) [
  | yes e ↦
      subst (λ j. IsList worker.ci_live (bucket_links worker j) (one_bucket j)) (sym e)
        (record {
          leads = (refl, (λ z. absurd (omega arith)), refl, refl);
          distinct = (refl, tt);
          alive = λ a m. ground arith;
        })
  | no ne ↦
      let nobody : one_bucket i ≡ [] = ground arith in
      rw nobody
        (record { leads = ground arith; distinct = tt; alive = λ a m. absurd (ground arith) })
]

worker-AreBuckets : AreBuckets worker 2 one_bucket
worker-AreBuckets = record {
  lists = λ i h. worker-IsList i;
  short = λ i h. ground arith;
  small = λ a. omega arith;
}

one_entry : client_entries worker one_bucket 255 ≡ (b'7' ∷ 32 ∷ []) ∷ []
unfolding client_entries client_entry decimal digits
one_entry = refl

one_chunk : All IsSmall (chunks [] (client_entries worker one_bucket 255))
unfolding chunks
one_chunk = rw one_entry (omega arith, tt)

sh_display_all_clients-chunks_example :
    (sh_display_all_clients system 2 9 server
      ≡ ok (
          put_socket 9 server (
            after_chunks
              (system.send 9)
              cli_data
              (chunks [] (client_entries worker one_bucket 255))
              (server.sockets 9))))
    × (concat (chunks [] (client_entries worker one_bucket 255))
        ≡ concat (client_entries worker one_bucket 255))
sh_display_all_clients-chunks_example =
    sh_display_all_clients-chunks system 0 9 (λ c n. refl) server one_bucket worker-AreBuckets room
      one_chunk

abbrev screen : Screen
screen = record { exec = false; printed = [] }

number-25 : system.number (show_int (pos 25)) ≡ pos 25
unfolding show_int decimal digits
number-25 = refl

set_job_queue_size-served_example :
    (asking : Bytes) × (s' : Server (List Work)) × (request (cli_set_job_result_queue_size (pos 25))
      ≡ some (ok asking))
    × (sh_parse_cmd system 2 9 asking server ≡ ok s')
    × (s'.settings.job_queue_size ≡ pos 25)
    × (handle_network_message 4
          ((s'.sockets 9).out ++ (0 ∷ []))
          (pos (length (s'.sockets 9).out))
          screen
        ≡ ok (
          true,
          record screen { printed = value_line (queue_line (pos 25)) ∷ goodbye_line ∷ [] },
        ))
set_job_queue_size-served_example =
    set_job_queue_size-served system 0 9 (λ c n. refl) (pos 25) 0 [] screen server (refl, refl) room
      refl number-25 refl

-- `strtol` of "8080".
abbrev strtol_8080 : Bytes → ℤ × Bytes
strtol_8080 p = (pos 8080, [])

choose_port-cases_example :
    ((choose_port strtol_8080 ((b'8' ∷ b'0' ∷ b'8' ∷ b'0' ∷ []) ∷ []) ≡ pos 51729)
      × IsRefused (pos 8080) [])
    ⊎ ((choose_port strtol_8080 ((b'8' ∷ b'0' ∷ b'8' ∷ b'0' ∷ []) ∷ []) ≡ pos 8080)
        × (◌≡◌ {A = Bytes} [] [])
        × IsOutside (pos 8080))
choose_port-cases_example =
    choose_port-cases strtol_8080 (b'8' ∷ b'0' ∷ b'8' ∷ b'0' ∷ []) [] (refl, refl)
