-- ===== src/Cache/Epochs/Tests.antt =====
-- Thread 1 has found entry 5 when thread 2 erases and retires it and scans the records to reclaim it.
use faunus.Cache.Counters.{max_epoch, scan_one, scan_result}
use faunus.Cache.Epochs.Safety.{Reach-place}
use faunus.Cache.Epochs.{
  unused, System, registers, loads, stores, finds, erases, notes, retires, takes, starts, scans,
  inserts, Reach, begin, step,
}
use faunus.Prelude.{◌≢◌, refl, [], ◌∷◌, arith}

abbrev trace : (s : System) × Reach s
unfolding scan_one scan_result
trace = (
  _,
  step
      (step
        (step
          (step
            (step
              (step
                (step
                  (step
                    (step
                      (step
                        (step
                          (step
                            (step (step (step begin (inserts 5 refl)) (registers 1)) (registers 2))
                            (loads 1 refl refl))
                          (stores 1 1 refl))
                        (finds 1 1 5 refl refl))
                      (loads 2 refl refl))
                    (stores 2 1 refl))
                  (erases 5 refl))
                (notes 5 refl))
              (retires 5 1 refl))
            (takes 2 1 5 1 refl refl))
          (starts 2 1 refl))
        (scans 2 1 2 max_epoch (1 ∷ []) refl))
      (scans 2 1 1 1 [] refl),
)

Reach-place_example : trace.0.place 5 ≢ unused
unfolding trace
Reach-place_example = Reach-place trace.0 1 5 trace.1 (omega arith) refl
