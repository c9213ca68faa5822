-- ===== src/Examples/Scheduling.antt =====
-- The queue, the scheduler's strategies and the local pool, on short queues.
use latency_aware_inference.Common.{
  ℕ, List, String, ◌≡◌, ◌*◌, refl, true, false, ◌&&◌, ◌||◌, [], ◌∷◌, take, elem, ◌⊎◌, arith, some,
}
use latency_aware_inference.Queue.Fifo.{puts, gets, drains, run, Keeps, run-Keeps}
use latency_aware_inference.Scheduler.{
  Rounds, Readings, batching_next_batch, choose, sort_by, created, latency_next_batch,
}
use latency_aware_inference.Scheduler.Fill.{Served, batching_next_batch-Served}
use latency_aware_inference.Scheduler.Loop
use latency_aware_inference.Scheduler.Loop.{Turn, turns}
use latency_aware_inference.Scheduler.Loop.Turns.{IsRead, held, came, any_latency_aware, turns-held}
use latency_aware_inference.Scheduler.Oldest.{choose-oldest}
use latency_aware_inference.Scheduler.Buffer.{latency_next_batch-elem}
use latency_aware_inference.Worker
use latency_aware_inference.Examples.{heap, queue}

abbrev rounds : Rounds
rounds = record { size = λ i. 2; arrivals = λ i. 7 ∷ []; clock = λ i. 100 * i }

abbrev readings : Readings
readings = record {
  cap_size = 2;
  cut_size = 2;
  threshold = 150;
  old_clock = λ r. 400;
  fresh_clock = λ r. 400;
}

run-Keeps_example : Keeps queue (run queue (puts 5 ∷ gets ∷ drains 2 ∷ []))
run-Keeps_example = run-Keeps queue (puts 5 ∷ gets ∷ drains 2 ∷ [])

batching_next_batch-Served_example : Served rounds 2 queue (batching_next_batch 2 0 rounds queue)
batching_next_batch-Served_example =
    batching_next_batch-Served 1 0 rounds 2 queue (λ i. omega arith) (omega arith)

choose-oldest_example :
    choose heap readings (1 ∷ 2 ∷ 3 ∷ [])
    ≡ take 2 (sort_by (created heap readings) (1 ∷ 2 ∷ 3 ∷ []))
choose-oldest_example = choose-oldest heap readings 400 (1 ∷ 2 ∷ 3 ∷ []) (λ r. refl) (λ r. refl)

latency_next_batch-elem_example :
    let (batch, kept, q') = latency_next_batch heap readings (3 ∷ []) queue in
    (elem 1 (3 ∷ []) || elem 1 queue.items ≡ (elem 1 batch || elem 1 kept) || elem 1 q'.items)
    × (elem 1 batch && elem 1 kept ≡ false)
latency_next_batch-elem_example = latency_next_batch-elem heap readings (3 ∷ []) queue 1

abbrev local_pool : Worker.WorkerPool
local_pool = record { workers = Worker.new_worker 0 ∷ Worker.new_worker 1 ∷ []; rr_index = 3 }

abbrev aware : Turn
aware = record {
  strategy = "latency_aware";
  puts = 5 ∷ [];
  rounds = rounds;
  limit = 2;
  last = 1;
  start = 0;
  heap = heap;
  readings = readings;
}

abbrev in_order : Turn
in_order = record aware { strategy = "fifo" }

abbrev scheduler : Loop.Scheduler
scheduler = record { buffer = 3 ∷ []; queue = queue; sent = [] }

turns-held_example :
    (s' : Loop.Scheduler) × (ks : List ℕ) × (turns (aware ∷ in_order ∷ []) scheduler ≡ some s')
    × ((r : ℕ)
        → elem r (held s') ≡ (elem r (held scheduler) || elem r (came (aware ∷ in_order ∷ []) ks)))
    × ((any_latency_aware (aware ∷ in_order ∷ []) ≡ true) ⊎ (s'.buffer ≡ scheduler.buffer))
turns-held_example = turns-held (aware ∷ in_order ∷ []) scheduler (read, (read, tt))
  where
    read : {name : String} → IsRead (record aware { strategy = name })
    read = record { sizes = λ i. omega arith; window = omega arith }
