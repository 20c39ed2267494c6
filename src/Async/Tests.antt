-- ===== src/Async/Tests.antt =====
-- A message that is written and one that is lost.
use lfgateway.Base.Reach.{here, next}
use lfgateway.Base.{◌≡◌, false, [], ◌∷◌, ◌++◌}
use lfgateway.Base.Text.{codes}
use lfgateway.Async.{swapped, ended, init, backend_step}
use lfgateway.Async.Order.{World, logs, stops, backs, Reach, ended-lost}

abbrev writing : World
writing = record {
  logger = record {
    running = false;
    front_buffer = codes "b" ∷ [];
    back_buffer = codes "a" ∷ [];
    file = [];
    phase = swapped;
  };
  logged = codes "a" ∷ codes "b" ∷ [];
}

abbrev over : World
over = record {
  logger = record {
    running = false;
    front_buffer = codes "b" ∷ [];
    back_buffer = [];
    file = codes "a" ∷ [];
    phase = ended;
  };
  logged = codes "a" ∷ codes "b" ∷ [];
}

until_writing : Reach (record { logger = init; logged = [] }) writing
unfolding backend_step
until_writing =
    next (next (next (next (next here (logs (codes "a"))) backs) backs) (logs (codes "b"))) stops

until_over : Reach writing over
unfolding backend_step
until_over = next (next here backs) backs

whole : Reach (record { logger = init; logged = [] }) over
unfolding backend_step
whole = next (next until_writing backs) backs

ended-lost_example :
    (over.logger.file ++ (over.logger.back_buffer ++ over.logger.front_buffer) ≡ over.logged)
    × (over.logger.phase ≡ ended → over.logger.file ++ over.logger.front_buffer ≡ over.logged)
ended-lost_example = ended-lost whole
