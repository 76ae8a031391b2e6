-- ===== src/Rpc/CachedDialer/Runs.antt =====
-- Every run keeps the counts of a cached dialer.
use goutils.Common.{refl, List, [], ◌∷◌}
use goutils.Common.Dict.{Dict, get-put, get-remove}
use goutils.Common.Dict
use goutils.Rpc.CachedDialer.{Dialer, insert}
use goutils.Rpc.CachedDialer.Steps.{
  Event, refs, inserts, closes, closes_actual, unrefs, if_possible, attempt, run,
}
use goutils.Rpc.CachedDialer.Counting.{IsCounted}
use goutils.Rpc.CachedDialer.Inserting.{ref_conn-IsCounted, insert_at-IsCounted}
use goutils.Rpc.CachedDialer.Closing.{
  close_conn-IsCounted, close_actual-IsCounted, on_unref-IsCounted,
}

step-IsCounted : (d : Dialer) (v : Event) → IsCounted d → IsCounted (if_possible d (attempt d v))
unfolding attempt insert
step-IsCounted d (refs w) c = ref_conn-IsCounted d w c
step-IsCounted d (inserts key) c = insert_at-IsCounted d key (Dict.get d.conns key) refl c
step-IsCounted d (closes i) c = close_conn-IsCounted d i c
step-IsCounted d (closes_actual w) c = close_actual-IsCounted d w c
step-IsCounted d (unrefs w) c = on_unref-IsCounted d w c

pub run-IsCounted : (d : Dialer) (vs : List Event) → IsCounted d → IsCounted (run d vs)
unfolding run
run-IsCounted d [] c = c
run-IsCounted d (v ∷ vs) c = run-IsCounted (if_possible d (attempt d v)) vs (step-IsCounted d v c)
