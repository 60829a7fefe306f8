-- ===== src/Worker/Round.antt =====
-- A task from the server's sending loop (server/src/server_helper.c) to the worker's answer
-- (client/src/client.c).
use pyramid.Prelude.{ℕ, suc, ◌≤◌, ◌≡◌, Bool, false, some, [], ◌∷◌, ◌++◌, length}
use pyramid.Wire.{Run, ok, Bytes}
use pyramid.Tlv.Attribute.{algo_max}
use pyramid.Messages.{Progress}
use pyramid.Messages.Stream.{Message}
use pyramid.Worker.{Worker, Host, Files, wget}
use pyramid.Worker.Tasks.{IsTask}

abbrev with_done : Progress Worker → Run (Bool × Progress Worker)
with_done p = ok (p.done, p)

abbrev of_worker : Bool × Progress Worker → Run (Bool × Worker)
of_worker r = ok (r.0, r.1.state)

module _ (host : Host) (f : ℕ) (dir name more : Bytes) (is : IsTask host dir name)
    (enough : length dir ≤ suc (suc f)) (takes : (c n : ℕ) → host.send c n ≡ some n)
    (w : Worker) where
  abbrev path : Bytes
  path = dir ++ (47 ∷ name)

  abbrev task : Message
  task = record { type = algo_max; chars = path }

  abbrev start : Progress Worker
  start = record { g_groups = []; done = false; state = w }

  abbrev fetched_files : Files
  fetched_files = host.system (wget path name) w.files
